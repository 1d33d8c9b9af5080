-- ===== src/Tests/Pages.antt =====
-- Runs of the escaping of texts, the events and the registration of controls of assets/js/goradd.js.
use serve.Base.{◌≡◌, refl, true, ◌||◌, [], ◌∷◌, ◌==◌, none, some}
use serve.Base.Dict.{lookup}
use serve.Base.Words.{split, push_char}
use serve.Value.{num, str, end, field, put}
use serve.Watchers.{unwatched, contains}
use serve.Events.{Filter, handled, skipped, handle_event, find_match, extra_data}
use serve.Events.Match.{first_of, called_for, handle_event_lem}
use serve.Escape.{replace_first, text_to_html}
use serve.Registration.{
  Control, Registry, register_control, register_controls, attach_widget, from_kebab, kebab_from,
  is_letter, upper, widget_options, substring, has_key, watch_control, add_watchers,
}
use serve.Registration.Once.{IsOnce, count_listeners, is_offered, register_controls-once}

-- The selector matches the elements 4 and 6, and the data of the options is 1.
abbrev rows_only : Filter
rows_only = record {
  has_selector = true;
  matches = λ x. (x == 4) || (x == 6);
  bubbles = true;
  data_option = some (num 1);
}

handle_event_lem_example :
    handle_event rows_only 5 3 (4 ∷ 5 ∷ 6 ∷ []) none
    ≡ handled (record { match = some 4; extra = some (num 1) })
unfolding first_of called_for extra_data
handle_event_lem_example =
    handle_event_lem rows_only 5 3 (3 ∷ 4 ∷ []) (6 ∷ []) (4 ∷ 5 ∷ 6 ∷ []) none refl refl refl
      (refl, (refl, tt))

-- An element above the one that listens is not looked at.
above_run : handle_event rows_only 5 3 (5 ∷ 6 ∷ []) none ≡ skipped
unfolding handle_event find_match extra_data
above_run = refl

kebab_run : from_kebab "selected-id-2-x" ≡ "selectedId-2X"
unfolding from_kebab kebab_from is_letter upper
kebab_run = refl

abbrev table_control : Control
table_control = record {
  key = 3;
  id = "people";
  tag = "TABLE";
  type = "";
  attributes =
      ("data-gr-watch", "db=a;list")
      ∷ ("data-gr-widget", "goradd.SelectTable")
      ∷ ("data-gr-opt-selected-id", "7")
      ∷ [];
}

abbrev box_control : Control
box_control = record { key = 4; id = "box"; tag = "INPUT"; type = "checkbox"; attributes = [] }

abbrev empty : Registry
empty = record { watch = unwatched; registered = []; listeners = []; widgets = [] }

widget_run :
    (register_control ("goradd.SelectTable" ∷ []) table_control empty).widgets
    ≡ (3, ("goradd.SelectTable", field "selectedId" (str "7") end)) ∷ []
unfolding register_control has_key watch_control add_watchers attach_widget widget_options
    from_kebab kebab_from is_letter upper substring lookup put contains split push_char
widget_run = refl

empty-IsOnce : IsOnce empty
unfolding count_listeners has_key
empty-IsOnce k = refl

register_controls-once_example :
    count_listeners 4 "change"
      (register_controls []
        (table_control ∷ [])
        (box_control ∷ table_control ∷ box_control ∷ [])
        empty).listeners
    ≡ 1
unfolding is_offered has_key
register_controls-once_example =
    register_controls-once [] (table_control ∷ []) (box_control ∷ table_control ∷ box_control ∷ [])
      empty 4 empty-IsOnce

escape_run : text_to_html "<b>&<i>" ≡ "&lt;b&gt;&amp;<i>"
unfolding text_to_html replace_first
escape_run = refl
