-- ===== src/Capture/Camera.antt =====
-- When the camera runs. `_view`, `_capture` and `turnOff` of assets/js/image-capture.js.
use serve.Base.{◌≡◌, refl, ap, ◌∙◌, ℕ, String, Bool, true, false, List, [], ◌∷◌, if◌then◌else◌, inl}
use serve.Capture.{
  take_track, trigger, take_shot, Capture, Constraint, Drawing, view, turn_off, playing, tick_of,
  load_metadata, granted, refused, set_option, capture, image_button_click, switch_button_click,
  enumerated,
}
use serve.Capture.History.{
  Event, clicks, switches, grants, refuses, plays, measures, ticks, loads_image, enumerates,
  sets_option, turns_off, step, run, answer, draw_image, answer_to,
}
use serve.Value.{Value, get}
use serve.Capture.Phases.{
  Runs, Phase, kept, phase-Runs, turn_off_lem, turn_off-Phase, view-Phase, clip-Keeps,
  playing-Keeps, draw_image-Keeps, tick-Keeps, set_option-Keeps, answer-Phase, granted-Phase,
  refused-Phase, switch-Phase, phase_dark,
}

-- Clicks wait while a request is open.
unfoldable pub Waits : Event → Capture → Type 0
Waits clicks c = c.asked ≡ []
Waits switches c = c.asked ≡ []
Waits turns_off c = c.asked ≡ []
Waits _ c = Unit

unfoldable pub IsCalm :
    (Value → String) → (List Drawing → String → Value → Value) → List Event → Capture → Type 0
IsCalm to_text to_data_url [] c = Unit
IsCalm to_text to_data_url (e ∷ es) c =
    Waits e c × IsCalm to_text to_data_url es (step to_text to_data_url e c)

module _ (to_text : Value → String) (to_data_url : List Drawing → String → Value → Value) where
  click-Phase :
      (c : Capture) → c.asked ≡ [] → Phase c → Phase (image_button_click to_text to_data_url c).0
  unfolding image_button_click capture trigger take_shot
  click-Phase c q p = clicked c.viewing refl
    where
      clicked :
          (b : Bool)
          → c.viewing ≡ b
          → Phase (if b then (capture to_text to_data_url c, false) else view c).0
      clicked true e =
          let shot = take_shot to_text to_data_url c in
          kept (turn_off shot) (trigger "capture" (turn_off shot)) (refl, refl, refl, refl)
            (turn_off-Phase shot (phase-Runs c p) q)
      clicked false e = view-Phase c q (phase_dark c p e)

  step-Phase :
      (e : Event) (c : Capture) → Waits e c → Phase c → Phase (step to_text to_data_url e c)
  unfolding step Waits switch_button_click load_metadata enumerated answer
  step-Phase clicks c w p = click-Phase c w p
  step-Phase switches c w p = switch-Phase c.devices c (phase-Runs c p) w p
  step-Phase (grants t) c w p = answer-Phase (granted t) (granted-Phase t) c.asked c refl p
  step-Phase (refuses err) c w p = answer-Phase (refused err) (refused-Phase err) c.asked c refl p
  step-Phase plays c w p = kept c (playing c) (playing-Keeps c) p
  step-Phase (measures m n) c w p = kept c _ (refl, refl, refl, refl) p
  step-Phase ticks c w p = kept c (tick_of c.intervals c) (tick-Keeps c.intervals c) p
  step-Phase loads_image c w p = kept c (draw_image c) (draw_image-Keeps c) p
  step-Phase (enumerates ds) c w p = kept c _ (refl, refl, refl, refl) p
  step-Phase (sets_option k v) c w p = kept c (set_option k v c) (set_option-Keeps k v c) p
  step-Phase turns_off c w p = turn_off-Phase c (phase-Runs c p) w

  run-Phase :
      (es : List Event) (c : Capture)
      → IsCalm to_text to_data_url es c
      → Phase c
      → Phase (run to_text to_data_url es c)
  unfolding run IsCalm
  run-Phase [] c w p = p
  run-Phase (e ∷ es) c w p = run-Phase es (step to_text to_data_url e c) w.1 (step-Phase e c w.0 p)

  -- In a history that starts in a phase, in which no button is clicked and nothing is turned off while the camera is
  -- asked for, at most one camera runs at the end, which is the one that is kept, and none if the
  -- widget does not view.
  pub run-Runs :
      (es : List Event) (c : Capture)
      → IsCalm to_text to_data_url es c
      → Phase c
      → Runs (run to_text to_data_url es c)
        × ((run to_text to_data_url es c).viewing ≡ false
            → (run to_text to_data_url es c).live ≡ [])
  run-Runs es c w p =
      let p1 = run-Phase es c w p in
      let c1 = run to_text to_data_url es c in (phase-Runs c1 p1, phase_dark c1 p1)

  -- If the button is clicked while the widget views, one request for the camera is open and none
  -- runs, and the camera is granted then, it runs although the widget does not view.
  pub run-granted :
      (t : ℕ) (k : Constraint) (c : Capture)
      → c.viewing ≡ true
      → c.asked ≡ k ∷ []
      → c.live ≡ []
      → ((run to_text to_data_url (clicks ∷ grants t ∷ []) c).viewing ≡ false)
        × ((run to_text to_data_url (clicks ∷ grants t ∷ []) c).live ≡ t ∷ [])
  unfolding run step answer answer_to granted take_track image_button_click capture trigger
      take_shot
  run-granted t k c v q l = clicked c.viewing v
    where
      shot : Capture
      shot = take_shot to_text to_data_url c

      late :
          (ks : List Constraint) (d : Capture)
          → ks ≡ k ∷ []
          → d.viewing ≡ false
          → d.live ≡ []
          → ((answer_to ks (granted t) d).viewing ≡ false)
            × ((answer_to ks (granted t) d).live ≡ t ∷ [])
      late [] d e f g = cc
      late (j ∷ js) d e f g =
          let d1 = take_track t (record d { asked = js }) in
          let m = clip-Keeps (get "shape" d.options) d1 in (m.0 ∙ f, m.2 ∙ ap (λ ts. t ∷ ts) g)

      clicked :
          (b : Bool)
          → b ≡ true
          → ((answer
                (granted t)
                (if b then (capture to_text to_data_url c, false) else view c).0).viewing
              ≡ false)
            × ((answer
                  (granted t)
                  (if b then (capture to_text to_data_url c, false) else view c).0).live
                ≡ t ∷ [])
      clicked false e = cc
      clicked true e =
          let o = turn_off_lem shot (inl l) in
          late (turn_off shot).asked (capture to_text to_data_url c) (o.1 ∙ q) o.0 o.2
