-- ===== src/Dom/Upward.antt =====
-- The way from an element to the root. `parents` and `closest` of assets/js/goradd.js.
use serve.Base.{
  ◌≡◌, refl, ap, ◌∙◌, ℕ, zero, suc, ◌<◌, Bool, true, false, ◌||◌, List, [], ◌∷◌, arith, ◌==◌,
  Bool-cases, Option-cases, inl, inr, Option, none, some, length, get_elem?,
}
use serve.Dom.{Dom, parent_of, parents, closest, is_in, matches_below, matches_listed}

-- A rank that falls from an element to its parent: how far an element is from the root, at most.
abbrev pub IsRanked : (ℕ → ℕ) → Dom → Type 0
IsRanked rank d = (x p : ℕ) → parent_of x d ≡ some p → rank p < rank x

-- The last of a list behind an element
unfoldable pub last_of : ℕ → List ℕ → ℕ
last_of x [] = x
last_of x (y ∷ ys) = last_of y ys

-- With more fuel than the rank of the element, `parents` ends at an element without a parent.
pub parents-root :
    (rank : ℕ → ℕ) (d : Dom) (fuel x : ℕ)
    → IsRanked rank d
    → rank x < fuel
    → parent_of (last_of x (parents fuel x d)) d ≡ none
unfolding parents last_of
parents-root rank d zero x r h = absurd (omega arith)
parents-root rank d (suc fuel) x r h = elim (Option-cases (parent_of x d)) [
  | inl e ↦ rw (parents, e) e
  | inr (p, e) ↦ rw (parents, e) (let k = r x p e in parents-root rank d fuel p r (omega arith))
]

-- The first of the elements before the last that passes a test
unfoldable pub first_below : (ℕ → Bool) → ℕ → List ℕ → Option ℕ
first_below matches x [] = none
first_below matches x (y ∷ ys) = elim (matches x) [
  | true ↦ some x
  | false ↦ first_below matches y ys
]

-- `closest` finds the first of the element and its parents that the selector matches, but never the
-- outermost of them.
pub closest-parents :
    (fuel : ℕ) (matches : ℕ → Bool) (x : ℕ) (d : Dom)
    → closest fuel matches x d ≡ first_below matches x (parents fuel x d)
unfolding closest parents first_below
closest-parents zero matches x d = refl
closest-parents (suc fuel) matches x d = elim (Option-cases (parent_of x d)) [
  | inl e ↦ rw (closest, parents, e) refl
  | inr (p, e) ↦ elim (Bool-cases (matches x)) [
    | inl b ↦ rw (closest, parents, e, first_below, b) refl
    | inr b ↦ rw (closest, parents, e, first_below, b) (closest-parents fuel matches p d)
  ]
]

matches_below-cons :
    (i el c : ℕ) (cs : List ℕ)
    → matches_below (suc i) el (c ∷ cs) ≡ (c == el) || matches_below i el cs
unfolding matches_below
matches_below-cons zero el c cs = elim (Bool-cases (c == el)) [
  | inl b ↦ rw (matches_below, b) refl
  | inr b ↦ rw (matches_below, b) refl
]
matches_below-cons (suc i) el c cs = elim (Option-cases (get_elem? cs i)) [
  | inl e ↦ rw (matches_below, e) (matches_below-cons i el c cs)
  | inr (y, e) ↦ elim (Bool-cases (y == el)) [
    | inl b ↦ elim (Bool-cases (c == el)) [
      | inl a ↦ rw (matches_below, e, b, a) refl
      | inr a ↦ rw (matches_below, e, b, a) refl
    ]
    | inr b ↦ rw (matches_below, e, b) (matches_below-cons i el c cs)
  ]
]

-- Where the browser has no `matches`, the loop finds the element exactly if it is in the list of what the selector finds.
pub matches_listed-is_in : (el : ℕ) (found : List ℕ) → matches_listed el found ≡ is_in el found
unfolding matches_listed matches_below is_in
matches_listed-is_in el [] = refl
matches_listed-is_in el (c ∷ cs) =
    matches_below-cons (length cs) el c cs ∙ ap (λ b. (c == el) || b) (matches_listed-is_in el cs)
