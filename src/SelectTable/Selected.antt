-- ===== src/SelectTable/Selected.antt =====
-- How many rows are selected. assets/js/table-select.js.
use serve.Base.{
  ◌≡◌, refl, sym, ℕ, suc, ◌≤◌, String, not, ◌&&◌, List, [], ◌∷◌, arith, if◌then◌else◌, ◌==◌,
  Bool-cases, Option-cases, inl, inr, All, Option, none, some, subst,
}
use serve.SelectTable.Rows.{
  Placed, Found, mark-Placed, unselect-Placed, target-Found, selected_row-Found,
}
use serve.SelectTable.{
  id_eq, Row, Table, Key, unselect, mark, select_row, selected_row, emit, show_selected_item,
  init_selected_id, open_table, handle_row_click, handle_key_down, target,
}

-- How many rows of a group are selected
unfoldable pub count_selected : ℕ → List Row → ℕ
count_selected g [] = 0
count_selected g (r ∷ rs) =
    if r.group == g && r.selected then suc (count_selected g rs) else count_selected g rs

-- In no group are two rows selected.
abbrev pub IsSingle : Table → Type 0
IsSingle t = (g : ℕ) → count_selected g t.rows ≤ 1

count-unselect :
    (g h : ℕ) (rs : List Row)
    → (count_selected h (unselect g rs) ≤ count_selected h rs)
      × (count_selected g rs ≤ suc (count_selected g (unselect g rs)))
      × (1 ≤ count_selected g rs → suc (count_selected g (unselect g rs)) ≡ count_selected g rs)
unfolding count_selected unselect
count-unselect g h [] = ground arith
count-unselect g h (r ∷ rs) = ground (arith, count-unselect g h rs)

unselect_clears :
    (g : ℕ) (rs : List Row) → count_selected g rs ≤ 1 → count_selected g (unselect g rs) ≤ 0
unselect_clears g rs h = (let q = count-unselect g g rs in ground arith)

rows-show : (t : Table) → (show_selected_item t).rows ≡ t.rows
unfolding show_selected_item emit
rows-show t = elim (Option-cases (selected_row t)) [
  | inl e ↦ rw (show_selected_item, e) refl
  | inr (r, e) ↦ rw (show_selected_item, e) refl
]

rows-click :
    (row : Row) (t : Table) → (handle_row_click row t).rows ≡ (select_row (some row) t).rows
unfolding handle_row_click emit
rows-click row t = ground arith

pub data Event : Type 0 where
  clicks : Row → Event
  presses : Key → Event
  opens : Option String → Event

unfoldable pub act : Event → Table → Table
act (clicks row) t = handle_row_click row t
act (presses key) t = handle_key_down key t
act (opens id) t = open_table id t

unfoldable pub run : List Event → Table → Table
run [] t = t
run (e ∷ es) t = run es (act e t)

-- `parent` tells in which group the row with a key stands.
module _ (parent : ℕ → ℕ) where
  -- Every row stands in its group, and in no group are two rows selected.
  abbrev pub IsOkRows : List Row → Type 0
  IsOkRows rows = All (Placed parent) rows × ((g : ℕ) → count_selected g rows ≤ 1)

  abbrev pub IsOk : Table → Type 0
  IsOk t = IsOkRows t.rows

  count-mark :
      (k h : ℕ) (rs : List Row)
      → All (Placed parent) rs
      → (count_selected h (mark k rs) ≤ suc (count_selected h rs))
        × ((h ≡ parent k → ⊥) → count_selected h (mark k rs) ≤ count_selected h rs)
  unfolding count_selected mark
  count-mark k h [] f = ground arith
  count-mark k h (r ∷ rs) f = ground (arith, count-mark k h rs)

  mark_after_unselect :
      (row : Row) (rs : List Row)
      → Placed parent row
      → All (Placed parent) rs
      → ((h : ℕ) → count_selected h rs ≤ 1)
      → (h : ℕ) → count_selected h (mark row.key (unselect row.group rs)) ≤ 1
  mark_after_unselect row rs p f s h =
      let m =
        count-mark row.key h (unselect row.group rs) (unselect-Placed parent row.group rs f) in
      let u = count-unselect row.group h rs in
      let c = unselect_clears row.group rs (s row.group) in
      let here = s h in
      elim (Bool-cases (h == row.group)) [
        | inl e ↦
            (let same : h ≡ row.group = ground arith in
              let d : count_selected h (unselect row.group rs) ≤ 0 = rw (same) c in ground arith)
        | inr e ↦ ground arith
      ]

  select_row-IsOk :
      (row : Row) (t : Table) → Placed parent row → IsOk t → IsOk (select_row (some row) t)
  unfolding select_row
  select_row-IsOk row t p h = elim (Bool-cases (not row.nosel)) [
    | inl e ↦ rw (e) (
      mark-Placed parent row.key _ (unselect-Placed parent row.group t.rows (h.0)),
      mark_after_unselect row t.rows p (h.0) (h.1),
    )
    | inr e ↦ rw (e) (
      unselect-Placed parent row.group t.rows (h.0),
      λ g. (let u = count-unselect row.group g t.rows in let s = h.1 g in ground arith),
    )
  ]

  select-Found : (o : Option Row) (t : Table) → Found parent o → IsOk t → IsOk (select_row o t)
  unfolding select_row
  select-Found none t p h = h
  select-Found (some row) t p h = select_row-IsOk row t p h

  click-IsOk : (row : Row) (t : Table) → Placed parent row → IsOk t → IsOk (handle_row_click row t)
  click-IsOk row t p h = subst IsOkRows (sym (rows-click row t)) (select_row-IsOk row t p h)

  key-IsOk : (key : Key) (t : Table) → IsOk t → IsOk (handle_key_down key t)
  unfolding handle_key_down emit select_row
  key-IsOk key t h = elim (Option-cases (selected_row t)) [
    | inl e ↦ subst IsOkRows (rw (handle_key_down, e) refl) h
    | inr (row, e) ↦ elim (Option-cases (target key row t.rows)) [
      | inl d ↦ subst IsOkRows (rw (handle_key_down, e, d) refl) h
      | inr (new_row, d) ↦
          (let p : Found parent (some new_row) =
              subst (Found parent) d (target-Found parent key row t.rows (h.0)) in
            elim (Bool-cases (not (id_eq new_row.id t.selected_id))) [
              | inl b ↦
                  subst IsOkRows (rw (handle_key_down, e, d, b, rows-show) refl)
                    (select_row-IsOk new_row t p h)
              | inr b ↦ subst IsOkRows (rw (handle_key_down, e, d, b) refl) h
            ])
    ]
  ]

  open-IsOk : (id : Option String) (t : Table) → IsOk t → IsOk (open_table id t)
  unfolding open_table init_selected_id
  open-IsOk id t h =
      let t1 : Table = record t { selected_id = id } in
      subst IsOkRows (sym (rows-show (select_row (selected_row t1) t1)))
        (select-Found (selected_row t1) t1 (selected_row-Found parent t1 (h.0)) h)

  abbrev pub Proper : Event → Type 0
  Proper (clicks row) = Placed parent row
  Proper _ = Unit

  -- In no history of openings of the table, clicks on its rows and keys are two rows of one
  -- group selected, if there are none at the start and every row stands in its group.
  pub run-IsSingle :
      (es : List Event) (t : Table)
      → All (Placed parent) t.rows
      → All Proper es
      → IsSingle t
      → IsSingle (run es t)
  unfolding run act
  run-IsSingle es t p q s = (from es t q (p, s)).1
    where
      from : (es : List Event) (t : Table) → All Proper es → IsOk t → IsOk (run es t)
      from [] t q h = h
      from (clicks row ∷ es) t q h =
          from es (handle_row_click row t) (q.1) (click-IsOk row t (q.0) h)
      from (presses key ∷ es) t q h = from es (handle_key_down key t) (q.1) (key-IsOk key t h)
      from (opens id ∷ es) t q h = from es (open_table id t) (q.1) (open-IsOk id t h)
