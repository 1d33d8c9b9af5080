-- ===== src/Session.antt =====
-- The page and the server together: what the server knows of the controls, which is what it last
-- received under each key, beside the changes that assets/js/goradd.js has noted and not yet sent.
-- The page is that of Posting; edits, by the user or by scripts, and posts are steps of a relation.
pub mod Keys
pub mod Sync
use serve.Base.{
  ◌≡◌, refl, ◌≢◌, sym, ap, ◌∙◌, ℕ, zero, suc, ◌+◌, ◌-◌, ◌≤◌, ◌<◌, max, String, str_eq, str_append,
  eq_iff, eq_refl, Bool, true, false, not, ◌&&◌, ◌||◌, List, [], ◌∷◌, ◌++◌, arith, if◌then◌else◌,
  ◌==◌, ==_iff, ltb, leb, Bool-cases, Option-cases, inl, inr, ◌⊎◌, ◌↔◌, All, All-append, Option,
  none, some, append-nil, append_assoc, map, reverse, length, get_elem?,
}
use serve.Base.Dict.{Dict, lookup, insert}
use serve.Value.{Value, Fields}
use serve.Posting.{
  Page, Input, Posted, Part, post_key, posted_value, is_posted, is_modified, parts_of,
  form_obj_changed, get_ajax_data,
}
use serve.Posting.Sent.{sent_under}

-- What the server holds under a key: the parts that it last received there.
abbrev pub ServerView : Type 0
ServerView = String → List (String × Part)

unfoldable pub receive : List (String × Part) → ServerView → ServerView
receive parts view k = elim (sent_under k parts) [ [] ↦ view k | p ∷ ps ↦ p ∷ ps ]

-- Whether a change is noted of some control that is posted under the key.
unfoldable pub any_modified : Page → String → List Input → Bool
any_modified page k [] = false
any_modified page k (c ∷ cs) =
    (str_eq (post_key c) k && (not (str_eq c.id "") && is_modified c.id page))
    || any_modified page k cs

-- An edit: the controls become others, and the handlers of the changes are called.
unfoldable pub tell_all : List String → Page → Page
tell_all [] page = page
tell_all (id ∷ ids) page = tell_all ids (form_obj_changed id page)

unfoldable pub edit : List Input → List String → Page → Page
edit cs ids page = tell_all ids (record page { inputs = cs })

-- Controls with one key have one value (radio buttons of one name do), and the value is not an empty
-- list of files.
pub record IsCoherent (page : Page) : Type 0 where
  pub one_value :
      All
        (λ c.
          All
            (λ d.
              str_eq (post_key d) (post_key c) ≡ true → posted_value page d ≡ posted_value page c)
            page.inputs)
        page.inputs
  pub has_parts :
      All
        (λ c.
          (p : String × Part) × (ps : List (String × Part)) × (parts_of
              (post_key c)
              (posted_value page c)
            ≡ p ∷ ps))
        page.inputs

-- The hidden input of the parameters is on every page. Its key is that of the parameters themselves,
-- which `_getAjaxData` puts in place of its value: it is no control that the server knows.
abbrev pub IsControl : Input → Type 0
IsControl c = str_eq "Goradd__Params" (post_key c) ≡ false

-- A control is told of if a change is noted of a control with its key, or if none was noted before
-- the edit and its value is that of a control with the key which stood there before.
abbrev pub IsTold : Page → Page → Input → Type 0
IsTold old new c =
    (any_modified new (post_key c) new.inputs ≡ true)
    ⊎ ((d : Input) × (i : ℕ) × (get_elem? old.inputs i ≡ some d)
        × (post_key d ≡ post_key c)
        × (posted_value old d ≡ posted_value new c)
        × (any_modified old (post_key c) old.inputs ≡ false))

-- An edit is proper if the page is coherent after it and no control has changed untold.
pub record IsProper (old new : Page) : Type 0 where
  pub coherent : IsCoherent new
  pub told : All (λ c. IsControl c → IsTold old new c) new.inputs

-- What the server holds under the key of a control is its value, unless a change is noted there.
abbrev pub Synced : Page → ServerView → Type 0
Synced page view =
    All
      (λ c.
        IsControl c
        → (any_modified page (post_key c) page.inputs ≡ true)
          ⊎ (view (post_key c) ≡ parts_of (post_key c) (posted_value page c)))
      page.inputs

-- The server holds the value of every control.
abbrev pub Agrees : Page → ServerView → Type 0
Agrees page view =
    All (λ c. IsControl c → view (post_key c) ≡ parts_of (post_key c) (posted_value page c))
      page.inputs

-- The steps: an edit, and a request that is built and received; the handlers of `posting` may edit.
module _ (encode : Fields → String) (tz : Value) where
  pub data Step : Page → ServerView → Page → ServerView → Type 0 where
    edits :
        {page : Page} {view : ServerView} (cs : List Input) (ids : List String)
        → IsProper page (edit cs ids page)
        → Step page view (edit cs ids page) view
    posts :
        {page : Page} {view : ServerView} (params : Fields) (posting : Page → Page)
        → IsProper page (posting page)
        → Step page view
            (get_ajax_data encode tz posting params page).1
            (receive (get_ajax_data encode tz posting params page).0 view)

  pub data Reach (page : Page) (view : ServerView) : Page → ServerView → Type 0 where
    here : Reach page view page view
    next :
        {p1 p2 : Page} {v1 v2 : ServerView}
        → Reach page view p1 v1
        → Step p1 v1 p2 v2
        → Reach page view p2 v2
