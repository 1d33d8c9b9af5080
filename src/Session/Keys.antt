-- ===== src/Session/Keys.antt =====
-- What is sent under a key of a coherent page.
use serve.Base.{
  ◌≡◌, refl, String, str_eq, Bool, true, false, ◌&&◌, ◌||◌, List, [], ◌∷◌, arith, if◌then◌else◌,
  Bool-cases, inl, inr, All, some,
}
use serve.Base.Dict.{Dict, lookup, insert, lookup-insert}
use serve.Value.{Value, Fields}
use serve.Posting.{
  Page, Input, Posted, Part, post_data, post_key, posted_value, is_posted, parts_of, get_ajax_data,
}
use serve.Posting.Sent.{parts_under, sent_by_key}
use serve.Session.{ServerView, receive, any_modified}

-- Whether some control of the list is posted under the key.
unfoldable pub any_posted : Page → String → List Input → Bool
any_posted page k [] = false
any_posted page k (c ∷ cs) = (str_eq (post_key c) k && is_posted page c) || any_posted page k cs

pub any_posted_of_modified :
    (page : Page) (k : String) (cs : List Input)
    → any_modified page k cs ≡ true
    → any_posted page k cs ≡ true
unfolding any_modified any_posted is_posted
any_posted_of_modified page k [] h = h
any_posted_of_modified page k (c ∷ cs) h = ground (arith, any_posted_of_modified page k cs)

pub lookup-post_data_keyed :
    (page : Page) (k : String) (v : Posted) (cs : List Input) (d : Dict Posted)
    → All (λ c. str_eq (post_key c) k ≡ true → posted_value page c ≡ v) cs
    → lookup k (post_data page cs d) ≡ (if any_posted page k cs then some v else lookup k d)
unfolding post_data any_posted
lookup-post_data_keyed page k v [] d h = refl
lookup-post_data_keyed page k v (c ∷ cs) d h =
    let same = h.0 in
    let skip = lookup-post_data_keyed page k v cs d h.1 in
    let put =
      lookup-post_data_keyed page k v cs (insert (post_key c) (posted_value page c) d) h.1 in
    ground (arith, skip, put, lookup-insert (post_key c) k (posted_value page c) d)

-- What the server holds under a key after a request: the value, if a control with the key is posted,
-- and else what it held before.
pub receive-get_ajax_data :
    (encode : Fields → String) (tz : Value) (posting : Page → Page) (params : Fields) (page : Page)
    (view : ServerView) (k : String) (v : Posted) (p : String × Part) (ps : List (String × Part))
    → str_eq "Goradd__Params" k ≡ false
    → All
        (λ c. str_eq (post_key c) k ≡ true → posted_value (posting page) c ≡ v)
        (posting page).inputs
    → parts_of k v ≡ p ∷ ps
    → receive (get_ajax_data encode tz posting params page).0 view k
      ≡ (if any_posted (posting page) k (posting page).inputs then parts_of k v else view k)
unfolding receive parts_under lookup
receive-get_ajax_data encode tz posting params page view k v p ps h all e =
    let sent = sent_by_key encode tz posting params page k h in
    let found = lookup-post_data_keyed (posting page) k v (posting page).inputs [] all in
    elim (Bool-cases (any_posted (posting page) k (posting page).inputs)) [
      | inl b ↦ rw (receive, sent, found, b, parts_under, e) refl
      | inr b ↦ rw (receive, sent, found, b) refl
    ]
