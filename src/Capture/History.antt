-- ===== src/Capture/History.antt =====
-- What can happen to the widget of assets/js/image-capture.js, as events of a history.
use serve.Base.{ℕ, String, List, [], ◌∷◌, ◌++◌}
use serve.Value.{Value, Fields}
use serve.Capture.{
  Capture, Constraint, Drawing, image, image_button_click, switch_button_click, granted, refused,
  playing, load_metadata, tick_of, enumerated, set_option, turn_off,
}

-- What can happen
pub data Event : Type 0 where
  clicks : Event
  switches : Event
  grants : ℕ → Event
  refuses : Value → Event
  plays : Event
  measures : ℕ → ℕ → Event
  ticks : Event
  loads_image : Event
  enumerates : List Fields → Event
  sets_option : String → Value → Event
  turns_off : Event

-- The answer to the first open request, if there is one
unfoldable pub answer_to : List Constraint → (Capture → Capture) → Capture → Capture
answer_to [] f c = c
answer_to (k ∷ ks) f c = f (record c { asked = ks })

unfoldable pub answer : (Capture → Capture) → Capture → Capture
answer f c = answer_to c.asked f c

-- The first image is loaded.
unfoldable pub draw_image : Capture → Capture
draw_image c = elim c.loads [
  | [] ↦ c
  | v ∷ vs ↦ record c { loads = vs; drawn = c.drawn ++ image v ∷ [] }
]

module _ (to_text : Value → String) (to_data_url : List Drawing → String → Value → Value) where
  unfoldable pub step : Event → Capture → Capture
  step clicks c = (image_button_click to_text to_data_url c).0
  step switches c = (switch_button_click c).0
  step (grants t) c = answer (granted t) c
  step (refuses err) c = answer (refused err) c
  step plays c = playing c
  step (measures w h) c = load_metadata w h c
  step ticks c = tick_of c.intervals c
  step loads_image c = draw_image c
  step (enumerates ds) c = enumerated ds c
  step (sets_option k v) c = set_option k v c
  step turns_off c = turn_off c

  unfoldable pub run : List Event → Capture → Capture
  run [] c = c
  run (e ∷ es) c = run es (step e c)
