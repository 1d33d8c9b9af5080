-- ===== src/Tests/Trees.antt =====
-- Runs of the tree of elements of assets/js/goradd.js.
use serve.Base.{◌≡◌, refl, ◌||◌, String, ℕ, [], ◌∷◌, arith, if◌then◌else◌, ◌==◌, some, String, none}
use serve.Dom.{
  Dom, children_of, parent_of, next, prev, first_child, is_in, next_in, prev_in, closest,
}
use serve.Dom.Count.{places, IsPlacedOnce, count}
use serve.Dom.Upward.{IsRanked}
use serve.Dom.Columns.{
  column_id, column_of, columns_of, index_of, index_at, cell_of, cell_index, index_in, below,
  each_below, first_of, is_cell, has_tag,
}

-- A page 1 with a form 2, in which a box 4 stands, and a table 3; 9 is a new tag.
abbrev tree : Dom
tree = (1, 2 ∷ 3 ∷ []) ∷ (2, 4 ∷ []) ∷ []

next_run : next 2 tree ≡ some 3
unfolding next next_in parent_of children_of is_in
next_run = refl

prev_run : prev 3 tree ≡ some 2
unfolding prev prev_in parent_of children_of is_in
prev_run = refl

first_child_run : first_child 1 tree ≡ some 2
unfolding first_child children_of
first_child_run = refl

tree-IsPlacedOnce : IsPlacedOnce tree
unfolding places count
tree-IsPlacedOnce n = ground arith

abbrev depth : ℕ → ℕ
depth x = if x == 4 then 2 else if x == 1 then 0 else 1

tree-IsRanked : IsRanked depth tree
unfolding parent_of is_in
tree-IsRanked x p e = ground (arith, e)

-- A table 1 with two columns 3 and 4 and one row 5, in whose second cell 7 a text 9 and a table 8 stand
abbrev table : Dom
table = (0, 1 ∷ []) ∷ (1, 2 ∷ 5 ∷ []) ∷ (2, 3 ∷ 4 ∷ []) ∷ (5, 6 ∷ 7 ∷ []) ∷ (7, 9 ∷ 8 ∷ []) ∷ []

abbrev tag_name : ℕ → String
tag_name x =
    if x == 1 || x == 8
    then "TABLE"
    else if x == 2
    then "COLGROUP"
    else if x == 3 || x == 4
    then "COL"
    else if x == 6 || x == 7
    then "TD"
    else "SPAN"

abbrev column_name : ℕ → String
column_name x = if x == 3 then "left" else if x == 4 then "right" else ""

column_run : column_id tag_name column_name 5 3 9 table ≡ some "right"
unfolding column_id column_of columns_of index_of index_at cell_of cell_index index_in below
    each_below first_of is_cell has_tag parent_of is_in children_of closest
column_run = refl

-- A table in a cell looks for the columns in itself.
nested_table_run : column_id tag_name column_name 5 3 8 table ≡ none
unfolding column_id column_of columns_of index_of index_at cell_of cell_index index_in below
    each_below first_of is_cell has_tag parent_of is_in children_of closest
nested_table_run = refl
