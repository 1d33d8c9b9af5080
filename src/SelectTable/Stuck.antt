-- ===== src/SelectTable/Stuck.antt =====
-- Rows that cannot be selected. assets/js/table-select.js.
use serve.Base.{
  ◌≡◌, refl, ap, ◌∙◌, true, false, List, [], ◌∷◌, ◌++◌, Option-cases, inl, inr, some, append-nil,
  append_assoc,
}
use serve.SelectTable.{
  id_eq, Row, Table, Key, select_row, selected_row, emit, show_selected_item, handle_key_down,
  target, Effect, tells, shows, id_eq,
}

show_keeps : (t : Table) → (show_selected_item t).selected_id ≡ t.selected_id
unfolding show_selected_item emit
show_keeps t = elim (Option-cases (selected_row t)) [
  | inl e ↦ rw (show_selected_item, e) refl
  | inr (r, e) ↦ rw (show_selected_item, e) refl
]

select_keeps :
    (row : Row) (t : Table)
    → row.nosel ≡ true
    → (select_row (some row) t).selected_id ≡ t.selected_id
unfolding select_row
select_keeps row t n = rw (n) refl

show_emits :
    (t : Table) → (more : List Effect) × ((show_selected_item t).effects ≡ t.effects ++ more)
unfolding show_selected_item emit
show_emits t = elim (Option-cases (selected_row t)) [
  | inl e ↦ ([], rw (show_selected_item, e, append-nil) refl)
  | inr (r, e) ↦ (shows r.key ∷ [], rw (show_selected_item, e) refl)
]

told :
    (row : Row) (t : Table)
    → row.nosel ≡ true
    → (emit (tells (select_row (some row) t).selected_id) (select_row (some row) t)).effects
      ≡ t.effects ++ tells t.selected_id ∷ []
unfolding select_row emit
told row t n = rw (n) refl

-- A key that leads to a row with the class `nosel`, whose id is not the selected one, leaves the
-- selected id as it is, and yet tells that id as if it were selected anew.
pub handle_key_down_nosel :
    (key : Key) (t : Table) (row new_row : Row)
    → selected_row t ≡ some row
    → target key row t.rows ≡ some new_row
    → new_row.nosel ≡ true
    → id_eq new_row.id t.selected_id ≡ false
    → ((handle_key_down key t).selected_id ≡ t.selected_id)
      × ((more : List Effect) × ((handle_key_down key t).effects
            ≡ t.effects ++ tells t.selected_id ∷ more))
unfolding handle_key_down select_row emit
handle_key_down_nosel key t row new_row h k n d =
    let t1 : Table = select_row (some new_row) t in
    let t2 : Table = emit (tells t1.selected_id) t1 in
    let (more, m) = show_emits t2 in
    rw (handle_key_down, h, k, d)
      (
        show_keeps t2 ∙ select_keeps new_row t n,
        (
          more,
          m
              ∙ ap (λ xs. xs ++ more) (told new_row t n)
              ∙ append_assoc t.effects (tells t.selected_id ∷ []) more,
        ),
      )
