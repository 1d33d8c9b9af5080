-- ===== src/Tests/Cameras.antt =====
-- Runs of the widget of assets/js/image-capture.js.
use serve.Base.{
  ◌≡◌, refl, String, Bool, true, false, List, [], ◌∷◌, arith, if◌then◌else◌, Option, none,
}
use serve.Value.{Value, str, num, Fields, end, field}
use serve.Elements.{Element, other}
use serve.Capture.{
  Capture, Drawing, any_video, option_defaults, switch_button_click, without, image_button_click,
  capture, turn_off, stop_timer, stop_device, view, ask_any_of, ask, playing, trigger, take_shot,
}
use serve.Capture.History.{answer_to, Event, clicks, grants, plays, enumerates, step, run, answer}
use serve.Capture.Framing.{IsLargeEnough, measure, measure-IsLargeEnough}
use serve.Capture.Devices.{switch_button_click-run}
use serve.Capture.Phases.{Runs, off}
use serve.Capture.Camera.{IsCalm, Waits, run-Runs, run-granted}

abbrev switch_button : Element
switch_button = record {
  attributes = [];
  classes = [];
  private_data = [];
  dataset = [];
  type = other;
  value = none;
  checked = false;
  options = [];
  inline_display = none;
  sheet_display = "inline";
  hidden = none;
}

-- The widget once it is made, of a canvas of 300 by 150
abbrev camera : Option (List Fields) → Bool → Capture
camera devices viewing = record {
  id = "photo";
  options = option_defaults (str "0.92");
  viewing = viewing;
  devices = devices;
  device_num = 0;
  timer = none;
  video_device = none;
  frame = none;
  button_text = str "New";
  original_text = str "New";
  disabled = false;
  switch_button = switch_button;
  error = none;
  width = 300;
  height = 150;
  drawn = [];
  values = end;
  triggered = "create" ∷ [];
  intervals = [];
  last_handle = 0;
  live = [];
  asked = if viewing then any_video ∷ [] else [];
  loads = [];
  window_devices = none;
}

abbrev to_text : Value → String
to_text v = "jpeg"

abbrev to_data_url : List Drawing → String → Value → Value
to_data_url drawn type quality = str "a shot"

-- A camera is granted and plays, and a shot is taken.
abbrev taken : List Event
taken = clicks ∷ grants 7 ∷ plays ∷ clicks ∷ []

measure-IsLargeEnough_example : IsLargeEnough (measure 50 640 480 300 150) 640 480 300 150
measure-IsLargeEnough_example = measure-IsLargeEnough 50 640 480 300 150 (omega arith) (omega arith)

switch_button_click-run_example :
    switch_button_click
      (run to_text to_data_url (enumerates (end ∷ end ∷ []) ∷ taken) (camera none false))
    ≡ (run to_text to_data_url (enumerates (end ∷ end ∷ []) ∷ taken) (camera none false), true)
switch_button_click-run_example =
    switch_button_click-run to_text to_data_url (enumerates (end ∷ end ∷ []) ∷ taken)
      (camera none false) refl

run-Runs_example :
    Runs (run to_text to_data_url taken (camera none false))
    × ((run to_text to_data_url taken (camera none false)).viewing ≡ false
        → (run to_text to_data_url taken (camera none false)).live ≡ [])
unfolding IsCalm Waits run step image_button_click playing answer answer_to view ask_any_of ask
    serve.Capture.start_viewing serve.Capture.granted serve.Capture.clip serve.Value.get
    serve.Capture.take_track
run-Runs_example =
    run-Runs to_text to_data_url taken (camera none false) (refl, (tt, (tt, (refl, tt))))
      (off refl refl refl)

run-granted_example :
    ((run to_text to_data_url (clicks ∷ grants 7 ∷ []) (camera none true)).viewing ≡ false)
    × ((run to_text to_data_url (clicks ∷ grants 7 ∷ []) (camera none true)).live ≡ 7 ∷ [])
run-granted_example = run-granted to_text to_data_url 7 any_video (camera none true) refl refl refl
