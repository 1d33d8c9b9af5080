-- ===== src/Tests/Tables.antt =====
-- Runs of the select table of assets/js/table-select.js and of commands of assets/js/goradd.js.
use serve.Base.{
  ◌≡◌, refl, ℕ, str_eq, true, false, [], ◌∷◌, arith, if◌then◌else◌, ◌==◌, none, some, String,
  str_append,
}
use serve.Base.Words.{split, push_char}
use serve.Value.{null}
use serve.Responses.Invoke.{
  World, Command, general, no_selector, did, calls, calls_method, process_command, call_each,
  call_path, walk, origin, member_of,
}
use serve.Base.Dict.{lookup}
use serve.Dom.{children_of, parent_of, is_in, has_parent, put_instead}
use serve.Elements.{Element, ElementType}
use serve.Value.{Value}
use serve.SelectTable.Opening.{Opened, open_keys, make_scroller, open_keys_lem}
use serve.SelectTable.{
  Row, Table, down, tells, shows, selected_row, target, is_set, id_eq, find_row, next_row,
  handle_key_down, select_row, unselect, mark, emit, show_selected_item,
}
use serve.SelectTable.Selected.{clicks, presses, opens, run, IsSingle, count_selected, run-IsSingle}

abbrev first : Row
first = record { key = 1; group = 0; id = some "a"; nosel = false; selected = true }

abbrev second : Row
second = record { key = 2; group = 0; id = some "b"; nosel = false; selected = false }

abbrev blocked : Row
blocked = record { key = 3; group = 0; id = some "c"; nosel = true; selected = false }

abbrev table : Table
table = record {
  rows = first ∷ second ∷ blocked ∷ [];
  selected_id = some "a";
  reselect = false;
  active = some 1;
  effects = [];
}

abbrev moved : Table
moved = record {
  rows = first ∷ record second { selected = true } ∷ blocked ∷ [];
  selected_id = some "b";
  reselect = false;
  active = some 2;
  effects = [];
}

down_run : (handle_key_down down table).selected_id ≡ some "b"
unfolding handle_key_down selected_row target is_set find_row next_row id_eq select_row
    show_selected_item emit mark unselect
down_run = refl

down_effects_run : (handle_key_down down table).effects ≡ tells (some "b") ∷ shows 2 ∷ []
unfolding handle_key_down selected_row target is_set find_row next_row id_eq select_row
    show_selected_item emit unselect mark
down_effects_run = refl

one_selected : IsSingle table
unfolding count_selected
one_selected g = ground arith

run-IsSingle_example : IsSingle (run (presses down ∷ clicks first ∷ opens (some "b") ∷ []) table)
run-IsSingle_example =
    run-IsSingle (λ k. 0) (presses down ∷ clicks first ∷ opens (some "b") ∷ []) table
      (refl, (refl, (refl, tt))) (tt, (refl, (tt, tt))) one_selected

-- A page whose objects are numbers: the window is 0, and `app` and `app.save` are 1 and 2.
abbrev world : World ℕ
world = record {
  window = 0;
  query = λ s. 5 ∷ 6 ∷ [];
  query_in = λ o s. [];
  control = λ id. none;
  jquery = λ id. none;
  member = λ o v. if str_eq v "app" then some 1 else if str_eq v "save" then some 2 else none;
  proto_member = λ o v. none;
  has_function = λ o f. o == 6;
}

abbrev saving : Command
saving = record {
  script = "";
  selector = no_selector;
  func = "app.save";
  id = "";
  jquery_id = "";
  params = null;
}

path_run : process_command world (λ v. v) saving ≡ did (calls 2 1 null ∷ [])
unfolding process_command origin call_path walk member_of split push_char
path_run = refl

each_run :
    process_command world (λ v. v) (record saving { selector = general "p" })
    ≡ did (calls_method 6 "app.save" null ∷ [])
unfolding process_command call_each
each_run = refl

-- A table 3 in a page 1 is put into a new element 9.
abbrev plain_table : Element
plain_table = record {
  attributes = ("tabindex", "0") ∷ [];
  classes = [];
  private_data = [];
  dataset = [];
  type = ElementType.other;
  value = none;
  checked = false;
  options = [];
  inline_display = none;
  sheet_display = "table";
  hidden = none;
}

abbrev one_text : Value → String
one_text v = "text"

open_keys_lem_example :
    (o : Opened) × (open_keys one_text true "t" 9 3 plain_table ((1, 3 ∷ []) ∷ []) ≡ some o)
    × ((q : ℕ)
        → children_of q o.dom
          ≡ (if q == 9 then 3 ∷ [] else put_instead 9 3 (children_of q ((1, 3 ∷ []) ∷ []))))
    × (o.key_target ≡ 9)
    × (lookup "tabindex" o.table.attributes ≡ none)
    × (lookup "tabindex" (make_scroller "t").attributes ≡ some "0")
    × (lookup "id" (make_scroller "t").attributes ≡ some (str_append "t" "_scroller"))
unfolding parent_of is_in children_of has_parent
open_keys_lem_example = open_keys_lem one_text "t" 9 3 plain_table ((1, 3 ∷ []) ∷ []) refl refl refl
