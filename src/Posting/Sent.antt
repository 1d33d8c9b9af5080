-- ===== src/Posting/Sent.antt =====
-- What the post data of assets/js/goradd.js holds.
use serve.Base.{
  ◌≡◌, refl, ℕ, String, str_eq, eq_iff, true, false, ◌&&◌, List, [], ◌∷◌, ◌++◌, arith,
  if◌then◌else◌, Bool-cases, inl, inr, All, Option, none, some, append-nil,
}
use serve.Base.Dict.{Dict, lookup, insert, lookup-insert, lookup-insert_self}
use serve.Value.{Value, Fields, get}
use serve.Value.Keys.{get-put}
use serve.Posting.{
  Page, Input, Posted, plain, files, post_data, posted_value, post_key, is_posted, set_value,
  own_values, form_data, parts_of, Part, get_ajax_data, str, get_params_value, sent_params,
}

-- No control of the list is posted under the key.
abbrev pub Unposted : Page → String → List Input → Type 0
Unposted page k cs = All (λ c. (is_posted page c && str_eq (post_key c) k) ≡ false) cs

Unposted-keeps :
    (page : Page) (k : String) (cs : List Input) (posted : Dict Posted)
    → Unposted page k cs
    → lookup k (post_data page cs posted) ≡ lookup k posted
unfolding post_data
Unposted-keeps page k [] posted h = refl
Unposted-keeps page k (c ∷ cs) posted h = ground (
  arith,
  lookup-insert (post_key c) k (posted_value page c) posted,
  Unposted-keeps page k cs posted,
  Unposted-keeps page k cs (insert (post_key c) (posted_value page c) posted),
)

-- The last control that is posted under a key decides what is posted under it.
pub lookup-post_data :
    (page : Page) (before after : List Input) (c : Input) (posted : Dict Posted)
    → is_posted page c ≡ true
    → Unposted page (post_key c) after
    → lookup (post_key c) (post_data page (before ++ c ∷ after) posted) ≡ some (posted_value page c)
unfolding post_data
lookup-post_data page [] after c posted h u =
    let posted1 = insert (post_key c) (posted_value page c) posted in
    ground (
      arith,
      Unposted-keeps page (post_key c) after posted1 u,
      lookup-insert_self (post_key c) (posted_value page c) posted,
    )
lookup-post_data page (b ∷ before) after c posted h u = ground (
  arith,
  lookup-post_data page before after c posted,
  lookup-post_data page before after c (insert (post_key b) (posted_value page b) posted),
)

-- Under a key that no control is posted under, nothing is posted.
pub lookup-Unposted :
    (page : Page) (k : String)
    → Unposted page k page.inputs
    → lookup k (post_data page page.inputs []) ≡ none
unfolding lookup
lookup-Unposted page k h = Unposted-keeps page k page.inputs [] h

-- The value that is kept for a property of a control.
unfoldable pub value_of : String → String → Fields → Value
value_of id property values = get property (own_values (get id values))

-- `setControlValue`: the value reads back, and all other values, of this control and of the others,
-- stay as they are.
pub value_of-set_value :
    (id property : String) (v : Value) (values : Fields) (i p : String)
    → value_of i p (set_value id property v values)
      ≡ (if str_eq id i && str_eq property p then v else value_of i p values)
unfolding value_of get own_values set_value
value_of-set_value id property v values i p =
    rw (get-put) (ground (arith, get-put property p v (own_values (get id values)), eq_iff id i))

-- The parts that are sent under a key.
unfoldable pub sent_under : String → List (String × Part) → List (String × Part)
sent_under k [] = []
sent_under k (part ∷ rest) =
    if str_eq (part.0) k then part ∷ sent_under k rest else sent_under k rest

sent_under-append :
    (k : String) (xs ys : List (String × Part))
    → sent_under k (xs ++ ys) ≡ sent_under k xs ++ sent_under k ys
unfolding sent_under
sent_under-append k [] ys = refl
sent_under-append k (x ∷ xs) ys = ground (arith, sent_under-append k xs ys)

sent_under-files :
    (k j : String) (fs : List ℕ)
    → sent_under k (parts_of j (files fs)) ≡ (if str_eq j k then parts_of j (files fs) else [])
unfolding sent_under parts_of
sent_under-files k j [] = ground arith
sent_under-files k j (f ∷ fs) = ground (arith, sent_under-files k j fs)

sent_under-parts_of :
    (k j : String) (v : Posted)
    → sent_under k (parts_of j v) ≡ (if str_eq j k then parts_of j v else [])
unfolding sent_under parts_of
sent_under-parts_of k j (plain v) = ground arith
sent_under-parts_of k j (files fs) = sent_under-files k j fs

-- No key stands twice.
abbrev pub NoRepeat : Dict Posted → Type 0
NoRepeat [] = Unit
NoRepeat (e ∷ d) = (lookup (e.0) d ≡ none) × NoRepeat d

unfoldable pub parts_under : String → Option Posted → List (String × Part)
parts_under k none = []
parts_under k (some v) = parts_of k v

sent_under-form_data :
    (k : String) (d : Dict Posted)
    → NoRepeat d
    → sent_under k (form_data d) ≡ parts_under k (lookup k d)
unfolding form_data lookup parts_under sent_under
sent_under-form_data k [] h = refl
sent_under-form_data k (e ∷ d) h =
    rw (sent_under-append, sent_under-parts_of, sent_under-form_data k d (h.1))
      (ground (arith, eq_iff (e.0) k, append-nil (parts_of k (e.1))))

NoRepeat-insert : (k : String) (v : Posted) (d : Dict Posted) → NoRepeat d → NoRepeat (insert k v d)
unfolding insert lookup
NoRepeat-insert k v [] h = (refl, tt)
NoRepeat-insert k v (e ∷ d) h =
    ground (arith, NoRepeat-insert k v d, lookup-insert k (e.0) v d, eq_iff k (e.0), eq_iff (e.0) k)

NoRepeat-post_data :
    (page : Page) (cs : List Input) (d : Dict Posted) → NoRepeat d → NoRepeat (post_data page cs d)
unfolding post_data
NoRepeat-post_data page [] d h = h
NoRepeat-post_data page (c ∷ cs) d h = elim (Bool-cases (is_posted page c)) [
  | inl e ↦ rw (e) (
      NoRepeat-post_data page cs (insert (post_key c) (posted_value page c) d)
        (NoRepeat-insert (post_key c) (posted_value page c) d h))
  | inr e ↦ rw (e) (NoRepeat-post_data page cs d h)
]

module _ (encode : Fields → String) (tz : Value) (posting : Page → Page) where
  pub sent_by_key :
      (params : Fields) (page : Page) (k : String)
      → str_eq "Goradd__Params" k ≡ false
      → sent_under k (get_ajax_data encode tz posting params page).0
        ≡ parts_under k (lookup k (post_data (posting page) (posting page).inputs []))
  unfolding get_ajax_data
  sent_by_key params page k h =
      let p1 = posting page in
      rw
        (
          sent_under-form_data k _ (
              NoRepeat-insert "Goradd__Params" _ (post_data p1 p1.inputs [])
                (NoRepeat-post_data p1 p1.inputs [] tt)),
          lookup-insert,
          h,
        )
        refl

  -- Nothing is sent under a key that belongs to no control that is to be posted, but the parameters
  -- always are, in one part.
  pub get_ajax_data-omits :
      (params : Fields) (page : Page) (k : String)
      → Unposted (posting page) k (posting page).inputs
      → (sent_under k (get_ajax_data encode tz posting params page).0 ≡ (
          if str_eq "Goradd__Params" k
          then parts_of "Goradd__Params" (
              plain (
                str (
                  get_params_value encode tz posting
                    (sent_params params (posting page))
                    (posting page))))
          else []))
  unfolding parts_under get_ajax_data
  get_ajax_data-omits params page k u =
      let p1 = posting page in
      rw
        (
          sent_under-form_data k _ (
              NoRepeat-insert "Goradd__Params" _ (post_data p1 p1.inputs [])
                (NoRepeat-post_data p1 p1.inputs [] tt)),
          lookup-insert,
          lookup-Unposted p1 k u,
        )
        (ground (arith, eq_iff "Goradd__Params" k))
