-- ===== src/Tests/Listening.antt =====
-- Runs of the listeners of an element and of the events that assets/js/goradd.js sends.
use serve.Base.{◌≡◌, refl, ◌++◌, true, false, [], ◌∷◌, arith, if◌then◌else◌, ◌==◌, some}
use serve.Base.Words.{split, push_char}
use serve.Value.{num}
use serve.Events.{Filter}
use serve.Events.Listeners.{
  Listeners, Options, EventHandler, text, function, array, absent, object, on, on_sorted, off,
  sort_arguments, read_options, make_handler, bound_to, is_object,
}
use serve.Events.Listeners.Undo.{IsOld, off-on}
use serve.Events.Listeners.Once.{dispatch, called_in, is_named, dispatch-on_sorted}
use serve.Events.Trigger.{Browser}

-- An element with a listener of the handler 0
abbrev listening : Listeners
listening = record {
  made = 1;
  list = (record { name = "change"; handler = 0; capture = false }) ∷ [];
}

-- What `on("click change", "tr", [4, 9])` makes
abbrev rows_handler : EventHandler
rows_handler = record {
  number = 1;
  events = "click" ∷ "change" ∷ [];
  capture = false;
  selector = "tr";
  this = object 4;
  calls = some 9;
}

listening_IsOld : IsOld 1 listening.list
listening_IsOld = (omega arith, tt)

on_run : (on "click change" (text "tr") (array (4 ∷ 9 ∷ [])) absent listening).1 ≡ some rows_handler
unfolding on on_sorted sort_arguments read_options is_object make_handler bound_to split push_char
on_run = refl

off-on_example :
    (off rows_handler (on "click change" (text "tr") (array (4 ∷ 9 ∷ [])) absent listening).0).list
    ≡ listening.list
off-on_example =
    off-on "click change" (text "tr") (array (4 ∷ 9 ∷ [])) absent listening rows_handler
      listening_IsOld on_run

abbrev capturing : Options
capturing = record { capture = true; selector = ""; target_element = false }

dispatch-on_sorted_example :
    dispatch "change"
      (on_sorted "click change change" "" (function 9) (some capturing) listening).0.list
    ≡ (called_in true "change" listening.list
        ++ (if is_named "change" (split 32 "click change change") then 1 ∷ [] else []))
      ++ called_in false "change" listening.list
dispatch-on_sorted_example =
    dispatch-on_sorted "change" "click change change" "" (function 9) capturing listening
      listening_IsOld

-- The selector matches nothing but 4; the data of the options is 1.
abbrev told : Filter
told = record {
  has_selector = true;
  matches = λ x. x == 4;
  bubbles = false;
  data_option = some (num 1);
}

abbrev modern : Browser
modern = record { event_is_object = false; has_custom_event = true; clicks = 1 }
