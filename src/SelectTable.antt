-- ===== src/SelectTable.antt =====
-- The widget of assets/js/table-select.js: selecting a row of a table with the mouse and the keys.
-- A row stands in a group (a head, a body), whose children are its rows; no cell of a row has the
-- class `selected`.
pub mod Rows
pub mod Selected
pub mod Stuck
pub mod Opening
use serve.Base.{
  ◌≡◌, refl, ◌≢◌, sym, ap, ◌∙◌, ℕ, zero, suc, ◌+◌, ◌-◌, ◌≤◌, ◌<◌, max, String, str_eq, str_append,
  eq_iff, eq_refl, Bool, true, false, not, ◌&&◌, ◌||◌, List, [], ◌∷◌, ◌++◌, arith, if◌then◌else◌,
  ◌==◌, ==_iff, ltb, leb, Bool-cases, Option-cases, inl, inr, ◌⊎◌, ◌↔◌, All, All-append, Option,
  none, some, append-nil, append_assoc, map, reverse, length,
}

pub record Row : Type 0 where
  -- which element it is, and which is its parent
  pub key : ℕ
  pub group : ℕ
  -- `data("id")`, `none` for `undefined`
  pub id : Option String
  -- the classes `nosel` and `selected`
  pub nosel : Bool
  pub selected : Bool

-- `setControlValue` and `trigger('gr-rowselected')`, `scrollIntoView` of a row
pub data Effect : Type 0 where
  tells : Option String → Effect
  shows : ℕ → Effect

pub record Table : Type 0 where
  -- all rows, in the order of the document
  pub rows : List Row
  -- `options.selectedId` and `options.reselect`
  pub selected_id : Option String
  pub reselect : Bool
  -- `aria-activedescendant`
  pub active : Option ℕ
  pub effects : List Effect

unfoldable pub id_eq : Option String → Option String → Bool
id_eq none none = true
id_eq (some a) (some b) = str_eq a b
id_eq _ _ = false

-- `!!id`
unfoldable pub is_set : Option String → Bool
is_set none = false
is_set (some s) = not (str_eq s "")

unfoldable pub find_row : (Row → Bool) → List Row → Option Row
find_row p [] = none
find_row p (r ∷ rs) = if p r then some r else find_row p rs

-- `this.qs("tr[data-id='" + this.options.selectedId + "']")`, if an id is set
unfoldable pub selected_row : Table → Option Row
selected_row t =
    if is_set t.selected_id then find_row (λ r. id_eq r.id t.selected_id) t.rows else none

-- `class('-selected')` on the first selected row of a group
unfoldable pub unselect : ℕ → List Row → List Row
unselect g [] = []
unselect g (r ∷ rs) =
    if r.group == g && r.selected then record r { selected = false } ∷ rs else r ∷ unselect g rs

-- `class('+selected')` on a row
unfoldable pub mark : ℕ → List Row → List Row
mark k [] = []
mark k (r ∷ rs) = if r.key == k then record r { selected = true } ∷ rs else r ∷ mark k rs

unfoldable pub has_selected : ℕ → List Row → Bool
has_selected g [] = false
has_selected g (r ∷ rs) = (r.group == g && r.selected) || has_selected g rs

-- `_selectRow`
unfoldable pub select_row : Option Row → Table → Table
select_row none t = t
select_row (some row) t =
    let t1 : Table = record t {
      rows = unselect row.group t.rows;
      active = if has_selected row.group t.rows then none else t.active;
    } in
    if not row.nosel
    then record t1 { rows = mark row.key t1.rows; active = some row.key; selected_id = row.id }
    else t1

unfoldable pub emit : Effect → Table → Table
emit x t = record t { effects = t.effects ++ x ∷ [] }

-- `showSelectedItem`
unfoldable pub show_selected_item : Table → Table
show_selected_item t = elim (selected_row t) [ none ↦ t | some r ↦ emit (shows r.key) t ]

-- `_initSelectedId`
unfoldable pub init_selected_id : Table → Table
init_selected_id t = show_selected_item (select_row (selected_row t) t)

-- The constructor, with the option `selectedId`, up to the attributes and handlers
unfoldable pub open_table : Option String → Table → Table
open_table id t = init_selected_id (record t { selected_id = id })

-- `this._super._setOption`: `extendWidget` makes `_super` the constructor of the base, which has no
-- such function.
unfoldable pub super_set_option : Option (String → Option String → Table → Table)
super_set_option = none

-- `_setOption`, `none` where it throws
unfoldable pub set_option : String → Option String → Table → Option Table
unfolding super_set_option
set_option key value t = elim super_set_option [
  | none ↦ none
  | some f ↦
      (let t1 = f key value t in some (if str_eq key "selectedId" then init_selected_id t1 else t1))
]

-- `_handleRowClick`, with the row that was clicked
unfoldable pub handle_row_click : Row → Table → Table
handle_row_click row t =
    let t1 = select_row (some row) t in
    let is_selected : Bool = elim (find_row (λ r. r.key == row.key) t1.rows) [
      | none ↦ false
      | some r ↦ r.selected
    ] in
    if (t.reselect || not (id_eq t1.selected_id t.selected_id)) && is_selected
    then emit (tells t1.selected_id) t1
    else t1

-- `nextElementSibling` and `previousElementSibling` of a row
unfoldable pub next_row : Row → List Row → Option Row
next_row row [] = none
next_row row (r ∷ rs) =
    if r.key == row.key then find_row (λ s. s.group == row.group) rs else next_row row rs

unfoldable pub previous_row : Row → Option Row → List Row → Option Row
previous_row row last [] = none
previous_row row last (r ∷ rs) =
    if r.key == row.key
    then last
    else previous_row row (if r.group == row.group then some r else last) rs

-- `this.qs("tr:last-child")`: the first row that is the last of its group
unfoldable pub last_child : List Row → Option Row
last_child [] = none
last_child (r ∷ rs) = elim (find_row (λ s. s.group == r.group) rs) [
  | none ↦ some r
  | some s ↦ last_child rs
]

unfoldable pub first_row : List Row → Option Row
first_row [] = none
first_row (r ∷ rs) = some r

pub data Key : Type 0 where
  up : Key
  down : Key
  end : Key
  home : Key
  other : Key

-- The row that a key leads to
unfoldable pub target : Key → Row → List Row → Option Row
target up row rows = previous_row row none rows
target down row rows = next_row row rows
target end row rows = last_child rows
target home row rows = first_row rows
target other row rows = none

-- `_handleKeyDown`
unfoldable pub handle_key_down : Key → Table → Table
handle_key_down key t = elim (selected_row t) [
  | none ↦ t
  | some row ↦ elim (target key row t.rows) [
    | none ↦ t
    | some new_row ↦
        if not (id_eq new_row.id t.selected_id)
        then (let t1 = select_row (some new_row) t in
            show_selected_item (emit (tells t1.selected_id) t1))
        else t
  ]
]
