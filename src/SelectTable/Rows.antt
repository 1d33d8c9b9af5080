-- ===== src/SelectTable/Rows.antt =====
-- Rows stand in their groups. assets/js/table-select.js.
use serve.Base.{
  ◌≡◌, ℕ, Bool, ◌&&◌, List, [], ◌∷◌, if◌then◌else◌, ◌==◌, Bool-cases, Option-cases, inl, inr, All,
  Option, none, some,
}
use serve.SelectTable.{
  Row, Table, Key, find_row, unselect, mark, selected_row, target, is_set, next_row, previous_row,
  last_child, first_row,
}

-- `parent` tells in which group the row with a key stands.
module _ (parent : ℕ → ℕ) where
  abbrev pub Placed : Row → Type 0
  Placed r = r.group ≡ parent r.key

  pub mark-Placed : (k : ℕ) (rs : List Row) → All Placed rs → All Placed (mark k rs)
  unfolding mark
  mark-Placed k [] f = f
  mark-Placed k (r ∷ rs) f = elim (Bool-cases (r.key == k)) [
    | inl e ↦ rw (e) f
    | inr e ↦ rw (e) (f.0, mark-Placed k rs (f.1))
  ]

  pub unselect-Placed : (g : ℕ) (rs : List Row) → All Placed rs → All Placed (unselect g rs)
  unfolding unselect
  unselect-Placed g [] f = f
  unselect-Placed g (r ∷ rs) f = elim (Bool-cases (r.group == g && r.selected)) [
    | inl e ↦ rw (e) f
    | inr e ↦ rw (e) (f.0, unselect-Placed g rs (f.1))
  ]

  -- A row that was found, if one was, stands in its group.
  abbrev pub Found : Option Row → Type 0
  Found none = Unit
  Found (some r) = Placed r

  pub find_row-Found : (p : Row → Bool) (rs : List Row) → All Placed rs → Found (find_row p rs)
  unfolding find_row
  find_row-Found p [] f = tt
  find_row-Found p (s ∷ rs) f = elim (Bool-cases (p s)) [
    | inl e ↦ rw (e) (f.0)
    | inr e ↦ rw (e) (find_row-Found p rs (f.1))
  ]

  pub next_row-Found : (row : Row) (rs : List Row) → All Placed rs → Found (next_row row rs)
  unfolding next_row
  next_row-Found row [] f = tt
  next_row-Found row (s ∷ rs) f = elim (Bool-cases (s.key == row.key)) [
    | inl e ↦ rw (e) (find_row-Found (λ r. r.group == row.group) rs (f.1))
    | inr e ↦ rw (e) (next_row-Found row rs (f.1))
  ]

  pub previous_row-Found :
      (row : Row) (last : Option Row) (rs : List Row)
      → Found last
      → All Placed rs
      → Found (previous_row row last rs)
  unfolding previous_row
  previous_row-Found row last [] l f = tt
  previous_row-Found row last (s ∷ rs) l f = elim (Bool-cases (s.key == row.key)) [
    | inl e ↦ rw (e) l
    | inr e ↦ rw (e) (
        previous_row-Found row (if s.group == row.group then some s else last) rs
          (elim (Bool-cases (s.group == row.group)) [ inl d ↦ rw (d) (f.0) | inr d ↦ rw (d) l ])
          (f.1))
  ]

  pub last_child-Found : (rs : List Row) → All Placed rs → Found (last_child rs)
  unfolding last_child
  last_child-Found [] f = tt
  last_child-Found (s ∷ rs) f = elim (Option-cases (find_row (λ r. r.group == s.group) rs)) [
    | inl e ↦ rw (last_child, e) (f.0)
    | inr (r, e) ↦ rw (last_child, e) (last_child-Found rs (f.1))
  ]

  pub target-Found :
      (key : Key) (row : Row) (rs : List Row) → All Placed rs → Found (target key row rs)
  unfolding target first_row
  target-Found Key.up row rs f = previous_row-Found row none rs tt f
  target-Found Key.down row rs f = next_row-Found row rs f
  target-Found Key.end row rs f = last_child-Found rs f
  target-Found Key.home row [] f = tt
  target-Found Key.home row (r ∷ rs) f = f.0
  target-Found Key.other row rs f = tt

  pub selected_row-Found : (t : Table) → All Placed t.rows → Found (selected_row t)
  unfolding selected_row
  selected_row-Found t f = elim (Bool-cases (is_set t.selected_id)) [
    | inl e ↦ rw (e) (find_row-Found _ t.rows f)
    | inr e ↦ rw (e) tt
  ]
