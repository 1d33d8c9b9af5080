-- ===== src/Tests/Replies.antt =====
-- Runs of the handling of a reply in assets/js/goradd.js.
use serve.Base.{◌%◌, ◌≡◌, refl, ℕ, Bool, true, false, List, [], ◌∷◌, ◌==◌, some, none}
use serve.Responses.Replace.{
  View, Update, control, item, moves_before, html_before, removes, update_control, removes_items,
  move_ops, html_ops, value_ops, attribute_ops,
}
use serve.Responses.{
  Commands, process_ajax, files_done, file_done, f_wait, load_files, take_out, process_commands,
  process_final_commands, run_command, enqueue_final_command, pop,
}
use serve.Responses.Order.{at_once, waiting, process_commands_lem}

load_run :
    (files_done ("b.js" ∷ "a.css" ∷ []) (process_ajax ("a.css" ∷ []) ("b.js" ∷ []))).processed ≡ 1
unfolding files_done process_ajax file_done f_wait load_files take_out
load_run = refl

wait_run : (files_done ("b.js" ∷ []) (process_ajax ("a.css" ∷ []) ("b.js" ∷ []))).processed ≡ 0
unfolding files_done process_ajax file_done f_wait load_files take_out
wait_run = refl

-- The commands with an odd number are final.
abbrev is_odd : ℕ → Bool
is_odd n = n % 2 == 1

abbrev reply : List (ℕ × Bool)
reply = (1, true) ∷ (2, true) ∷ (3, true) ∷ (5, false) ∷ []

abbrev none_ran : Commands ℕ
none_ran = record { ran = []; final_commands = [] }

final_run :
    (process_final_commands 2 (process_commands is_odd reply none_ran)).ran ≡ 2 ∷ 5 ∷ 3 ∷ 1 ∷ []
unfolding process_final_commands process_commands run_command enqueue_final_command pop
final_run = refl

process_commands_lem_example :
    process_commands is_odd reply none_ran
    ≡ record { ran = 2 ∷ 5 ∷ []; final_commands = 1 ∷ 3 ∷ [] }
unfolding at_once waiting
process_commands_lem_example = process_commands_lem is_odd reply none_ran

-- A control without a wrapper that has a label inside a marked parent.
abbrev bare : View
bare = record {
  has_control = true;
  has_wrapper = false;
  related_parent = some 8;
  related_items = 8 ∷ 9 ∷ [];
}

abbrev redraw : Update
redraw = record { value = none; attributes = none; html = some "<p>" }

replace_run :
    update_control bare redraw
    ≡ moves_before 8
      ∷ removes (item 8)
      ∷ removes (item 9)
      ∷ html_before control "<p>"
      ∷ removes control
      ∷ []
unfolding update_control value_ops attribute_ops html_ops move_ops removes_items
replace_run = refl
