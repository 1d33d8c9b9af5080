-- ===== src/Dom/Columns.antt =====
-- `columnId` of assets/js/goradd.js: the column of a table in which an element stands. Rows are taken to
-- have no children but their cells; how deep the tree is below a table is given as fuel.
use serve.Base.{
  ◌≡◌, refl, ap, ◌∙◌, ℕ, zero, suc, String, str_eq, Bool, false, ◌||◌, List, [], ◌∷◌, ◌++◌,
  if◌then◌else◌, ◌==◌, Bool-cases, Option-cases, inl, inr, Option, none, some, get_elem?, keep_if,
}
use serve.Dom.{Dom, children_of, parent_of, closest}

-- The place of an element in a list
unfoldable pub index_in : ℕ → List ℕ → Option ℕ
index_in x [] = none
index_in x (c ∷ cs) =
    if c == x then some 0 else (elim (index_in x cs) [ none ↦ none | some i ↦ some (suc i) ])

-- `cellIndex`, `none` where the cell stands in no row
unfoldable pub cell_index : ℕ → Dom → Option ℕ
cell_index x d = elim (parent_of x d) [ none ↦ none | some p ↦ index_in x (children_of p d) ]

unfoldable pub index_at : Dom → Option ℕ → Option ℕ
index_at d none = none
index_at d (some cell) = cell_index cell d

unfoldable pub each_below : (ℕ → List ℕ) → List ℕ → List ℕ
each_below f [] = []
each_below f (c ∷ cs) = (c ∷ f c) ++ each_below f cs

-- The elements below one, in the order of the document
unfoldable pub below : ℕ → ℕ → Dom → List ℕ
below zero x d = []
below (suc depth) x d = each_below (λ c. below depth c d) (children_of x d)

unfoldable pub first_of : List ℕ → Option ℕ
first_of [] = none
first_of (x ∷ xs) = some x

-- The id of the column under an index
unfoldable pub column_of : (ℕ → String) → Option ℕ → Option (List ℕ) → Option String
column_of ids (some i) (some columns) = elim (get_elem? columns i) [
  | none ↦ none
  | some column ↦ some (ids column)
]
column_of ids _ _ = none

-- `tagName` of the elements
module _ (tag : ℕ → String) where
  unfoldable pub is_cell : ℕ → Bool
  is_cell x = str_eq (tag x) "TH" || str_eq (tag x) "TD"

  unfoldable pub has_tag : String → ℕ → Bool
  has_tag name x = str_eq (tag x) name

  -- The cell whose index is asked for
  unfoldable pub cell_of : ℕ → ℕ → Dom → Option ℕ
  cell_of fuel el d = if is_cell el then some el else closest fuel is_cell el d

  -- The columns of the first column group of a table
  unfoldable pub columns_of : ℕ → ℕ → Dom → Option (List ℕ)
  columns_of depth table d = elim (first_of (keep_if (has_tag "COLGROUP") (below depth table d))) [
    | none ↦ none
    | some group ↦ some (keep_if (has_tag "COL") (below depth group d))
  ]

  unfoldable pub index_of : ℕ → ℕ → Dom → Option ℕ
  index_of fuel el d = index_at d (cell_of fuel el d)

  -- `columnId`, with the ids of the elements, `none` where it throws
  unfoldable pub column_id : (ℕ → String) → ℕ → ℕ → ℕ → Dom → Option String
  column_id ids fuel depth el d =
      column_of ids (index_of fuel el d) (elim (closest fuel (has_tag "TABLE") el d) [
        | none ↦ none
        | some table ↦ columns_of depth table d
      ])

  -- The way from an element up to one around it, with no cell and no table before that: the fuel
  -- before the way, and what is left of it, which is not 0.
  pub data Within (d : Dom) : ℕ → ℕ → ℕ → ℕ → Type 0 where
    here : {n c : ℕ} → Within d (suc n) c (suc n) c
    up :
        {n el p m c : ℕ}
        → parent_of el d ≡ some p
        → is_cell el ≡ false
        → has_tag "TABLE" el ≡ false
        → Within d (suc n) p m c
        → Within d (suc (suc n)) el m c

  closest-up :
      (matches : ℕ → Bool) (fuel el p : ℕ) (d : Dom)
      → parent_of el d ≡ some p
      → matches el ≡ false
      → closest (suc fuel) matches el d ≡ closest fuel matches p d
  unfolding closest
  closest-up matches fuel el p d e m = rw (closest, e, m) refl

  -- A cell without a parent has no index, whether it is found or not.
  index_closest :
      (fuel p : ℕ) (d : Dom) → index_at d (closest (suc fuel) is_cell p d) ≡ index_of (suc fuel) p d
  unfolding closest index_of index_at cell_of cell_index
  index_closest fuel p d = elim (Bool-cases (is_cell p)) [
    | inr other ↦ rw (index_of, cell_of, other) refl
    | inl cell ↦ elim (Option-cases (parent_of p d)) [
      | inl top ↦ simp (index_of, cell_of, cell, closest, top, index_at, cell_index)
      | inr (q, f) ↦ simp (index_of, cell_of, cell, closest, f)
    ]
  ]

  index_up :
      (fuel el p : ℕ) (d : Dom)
      → parent_of el d ≡ some p
      → is_cell el ≡ false
      → index_of (suc (suc fuel)) el d ≡ index_of (suc fuel) p d
  unfolding index_of cell_of
  index_up fuel el p d e m =
      rw (index_of, cell_of, m) (ap (index_at d) (closest-up is_cell (suc fuel) el p d e m))
      ∙ index_closest fuel p d

  -- `columnId` of an element inside a cell, with no other cell and no table between them, is that of
  -- the cell, with the fuel that the way leaves.
  pub column_id-Within :
      (ids : ℕ → String) (depth : ℕ) (d : Dom) {n el m c : ℕ}
      → Within d n el m c
      → column_id ids n depth el d ≡ column_id ids m depth c d
  unfolding column_id
  column_id-Within ids depth d here = refl
  column_id-Within ids depth d (up {n} {el} {p} e m t w) =
      rw (index_up n el p d e m, closest-up (has_tag "TABLE") (suc n) el p d e t)
        (column_id-Within ids depth d w)
