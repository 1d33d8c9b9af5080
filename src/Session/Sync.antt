-- ===== src/Session/Sync.antt =====
-- The server and the page agree, but for the changes that are noted.
use serve.Base.{
  All-get, ◌≡◌, refl, ap, ◌∙◌, String, str_eq, Bool, true, false, List, [], ◌∷◌, if◌then◌else◌, inl,
  inr, ◌⊎◌, All, ℕ, get_elem?, some, suc, Bool-cases,
}
use serve.Value.{Value, Fields}
use serve.Posting.{Page, Input, Part, post_key, posted_value, parts_of, get_ajax_data}
use serve.Session.{
  ServerView, receive, any_modified, edit, IsTold, IsProper, Synced, Agrees, Step, edits, posts,
  Reach, here, next, IsCoherent, IsControl,
}
use serve.Session.Keys.{any_posted, any_posted_of_modified, receive-get_ajax_data}

module _ {ℓ κ} {A : Type ℓ} (P : A → Type κ) where
  pub All-at : (xs : List A) → ((i : ℕ) (a : A) → get_elem? xs i ≡ some a → P a) → All P xs
  All-at [] h = tt
  All-at (x ∷ xs) h = (h 0 x refl, All-at xs (λ i. h (suc i)))

module _ {ℓ κ μ} {A : Type ℓ} (P : A → Type κ) (Q : A → Type μ) where
  pub All-map : ((a : A) → P a → Q a) → (xs : List A) → All P xs → All Q xs
  All-map f [] h = tt
  All-map f (x ∷ xs) h = (f x h.0, All-map f xs h.1)

  All-zip : (xs : List A) → All P xs → All Q xs → All (λ a. P a × Q a) xs
  All-zip [] h k = tt
  All-zip (x ∷ xs) h k = ((h.0, k.0), All-zip xs h.1 k.1)

pub control_of : (c d : Input) → post_key d ≡ post_key c → IsControl c → IsControl d
control_of c d key ctl = ap (str_eq "Goradd__Params") key ∙ ctl

-- After a proper edit a synced page is synced.
pub told-Synced :
    (old new : Page) (view : ServerView) → IsProper old new → Synced old view → Synced new view
told-Synced old new view p h =
    All-map (λ c. IsControl c → IsTold old new c) _ (λ c t ctl. one c ctl (t ctl)) new.inputs p.told
  where
    one :
        (c : Input)
        → IsControl c
        → IsTold old new c
        → (any_modified new (post_key c) new.inputs ≡ true)
          ⊎ (view (post_key c) ≡ parts_of (post_key c) (posted_value new c))
    one c ctl (inl m) = inl m
    one c ctl (inr (d, i, at, key, value, quiet)) =
        elim (All-get _ old.inputs i h at (control_of c d key ctl)) [
          | inl m ↦ cc (ap (λ k. any_modified old k old.inputs) key)
          | inr v ↦ inr (cc)
        ]

-- Where nothing is done, nothing is done untold.
pub unchanged-IsProper : (page : Page) → IsCoherent page → IsProper page page
unchanged-IsProper page h = record {
  coherent = h;
  told = All-at (λ c. IsControl c → IsTold page page c) page.inputs (λ i c at ctl. one i c at);
}
  where
    one : (i : ℕ) (c : Input) → get_elem? page.inputs i ≡ some c → IsTold page page c
    one i c at = elim (Bool-cases (any_modified page (post_key c) page.inputs)) [
      | inl m ↦ inl m
      | inr quiet ↦ inr (c, i, at, refl, refl, quiet)
    ]

chosen {ℓ} : {A : Type ℓ} (b : Bool) (x y : A) → (b ≡ true) ⊎ (y ≡ x) → (if b then x else y) ≡ x
chosen true x y h = refl
chosen false x y (inl e) = cc
chosen false x y (inr e) = e

module _ (encode : Fields → String) (tz : Value) where
  pub get_ajax_data-Agrees :
      (posting : Page → Page) (params : Fields) (page : Page) (view : ServerView)
      → IsProper page (posting page)
      → Synced page view
      → Agrees
          (get_ajax_data encode tz posting params page).1
          (receive (get_ajax_data encode tz posting params page).0 view)
  unfolding get_ajax_data posted_value
  get_ajax_data-Agrees posting params page view p h =
      All-map _ _ (λ c x ctl. one c ctl x) p1.inputs
        (All-zip _ _ p1.inputs p.coherent.one_value
          (All-zip _ _ p1.inputs p.coherent.has_parts (told-Synced page p1 view p h)))
    where
      p1 : Page
      p1 = posting page

      one :
          (c : Input)
          → IsControl c
          → (All
              (λ d. str_eq (post_key d) (post_key c) ≡ true → posted_value p1 d ≡ posted_value p1 c)
              p1.inputs)
            × (((q : String × Part) × (qs : List (String × Part)) × (parts_of
                      (post_key c)
                      (posted_value p1 c)
                    ≡ q ∷ qs))
                × (IsControl c
                    → (any_modified p1 (post_key c) p1.inputs ≡ true)
                      ⊎ (view (post_key c) ≡ parts_of (post_key c) (posted_value p1 c))))
          → receive (get_ajax_data encode tz posting params page).0 view (post_key c)
            ≡ parts_of (post_key c) (posted_value p1 c)
      one c proper (same, ((q, qs, e), synced)) =
          receive-get_ajax_data encode tz posting params page view (post_key c) (posted_value p1 c)
            q qs proper same e
          ∙ chosen (any_posted p1 (post_key c) p1.inputs) _ _ (known (synced proper))
        where
          known :
              ((any_modified p1 (post_key c) p1.inputs ≡ true)
                ⊎ (view (post_key c) ≡ parts_of (post_key c) (posted_value p1 c)))
              → (any_posted p1 (post_key c) p1.inputs ≡ true)
                ⊎ (view (post_key c) ≡ parts_of (post_key c) (posted_value p1 c))
          known (inl m) = inl (any_posted_of_modified p1 (post_key c) p1.inputs m)
          known (inr v) = inr v

  Step-Synced :
      {p1 : Page} {v1 : ServerView} {p2 : Page} {v2 : ServerView}
      → Step encode tz p1 v1 p2 v2
      → Synced p1 v1
      → Synced p2 v2
  Step-Synced {p1} {v1 = v1} (edits cs ids p) h = told-Synced p1 (edit cs ids p1) v1 p h
  Step-Synced {p1} {v1 = v1} (posts params posting p) h =
      All-map _ _ (λ c e ctl. inr (e ctl)) _ (get_ajax_data-Agrees posting params p1 v1 p h)

  -- If the server and the page agree but for the changes that are noted, then so they do after every
  -- history of proper edits and of posts that are received: what the server holds of a control is
  -- its value on the page, unless a change is noted under its key.
  pub Reach-Synced :
      {p1 : Page} {v1 : ServerView} {p2 : Page} {v2 : ServerView}
      → Synced p1 v1
      → Reach encode tz p1 v1 p2 v2
      → Synced p2 v2
  Reach-Synced h here = h
  Reach-Synced h (next r s) = Step-Synced s (Reach-Synced h r)
