-- ===== src/Events/Match.antt =====
-- Which element a bubbled event is said to have matched. `on` in assets/js/goradd.js.
use serve.Base.{
  ◌≡◌, refl, ℕ, Bool, true, false, List, [], ◌∷◌, ◌++◌, arith, if◌then◌else◌, ◌==◌, Bool-cases,
  Option-cases, inl, inr, All, Option, none, some,
}
use serve.Value.{Value}
use serve.Events.{
  Matched, found, no_match, find_match, Handled, handled, skipped, Filter, extra_data, handle_event,
}

-- The first element of a list that passes a test
unfoldable pub first_of : (ℕ → Bool) → List ℕ → Option ℕ
first_of matches [] = none
first_of matches (x ∷ xs) = if matches x then some x else first_of matches xs

unfoldable pub as_match : Option ℕ → Matched
as_match none = no_match
as_match (some x) = found x

abbrev pub Absent : ℕ → List ℕ → Type 0
Absent x ys = All (λ y. (y == x) ≡ false) ys

find_match_lem :
    (matches : ℕ → Bool) (current : ℕ) (below above : List ℕ)
    → Absent current below
    → find_match matches current (below ++ current ∷ above)
      ≡ as_match (first_of matches (below ++ current ∷ []))
unfolding find_match first_of as_match
find_match_lem matches current [] above h =
    let self : (current == current) ≡ true = ground arith in ground arith
find_match_lem matches current (x ∷ below) above h = elim (Bool-cases (matches x)) [
  | inl e ↦ rw (e) refl
  | inr e ↦ rw (e, h.0) (find_match_lem matches current below above (h.1))
]

unfoldable pub called_for : Option Value → Option ℕ → Handled
called_for extra none = skipped
called_for extra (some x) = handled (record { match = some x; extra = extra })

-- An event with a selector that bubbles up to the element that listens is told with the nearest
-- element, from the target to that element, that the selector matches, and is not told if none
-- does; the elements above are not looked at.
pub handle_event_lem :
    (f : Filter) (current target : ℕ) (below above : List ℕ) (parents : List ℕ)
    (detail : Option Value)
    → f.has_selector ≡ true
    → f.bubbles ≡ true
    → target ∷ parents ≡ below ++ current ∷ above
    → Absent current below
    → handle_event f current target parents detail
      ≡ called_for (extra_data f.data_option detail) (first_of f.matches (below ++ current ∷ []))
unfolding handle_event called_for as_match
handle_event_lem f current target below above parents detail s b e h =
    let m : find_match f.matches current (target ∷ parents)
        ≡ as_match (first_of f.matches (below ++ current ∷ [])) =
      rw (e) (find_match_lem f.matches current below above h) in
    elim (Option-cases (first_of f.matches (below ++ current ∷ []))) [
      | inl n ↦ rw (s, b, m, n) refl
      | inr (x, n) ↦ rw (s, b, m, n) refl
    ]
