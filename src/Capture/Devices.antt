-- ===== src/Capture/Devices.antt =====
-- The devices of the widget, and the switch between them. `_switchButtonClick` of
-- assets/js/image-capture.js.
use serve.Base.{
  ◌≡◌, refl, ap, ◌∙◌, ℕ, zero, suc, ◌<◌, String, true, false, List, [], ◌∷◌, arith, if◌then◌else◌,
  ◌==◌, leb, Option-cases, inl, inr, none, some, length, get_elem?,
}
use serve.Capture.{
  ask_any_of, ask_device, start_viewing, next_device, Capture, Drawing, view, turn_off, stop_timer,
  stop_device, switch_button_click, switch_among,
}
use serve.Capture.History.{Event, run}
use serve.Value.{Value, Fields}
use serve.Capture.Clock.{turn_off-IsFine, run-IsFine}

module _ (to_text : Value → String) (to_data_url : List Drawing → String → Value → Value) where
  -- From a widget without devices, no history gives it devices, those that the browser lists
  -- included: the click on the switch button throws and changes nothing.
  pub switch_button_click-run :
      (es : List Event) (c : Capture)
      → c.devices ≡ none
      → switch_button_click (run to_text to_data_url es c) ≡ (run to_text to_data_url es c, true)
  unfolding switch_button_click switch_among
  switch_button_click-run es c h =
      ap (λ o. switch_among o (run to_text to_data_url es c))
        ((run-IsFine to_text to_data_url es c).1 ∙ h)

ask_device-get_elem :
    (ds : List Fields) (n : ℕ) (c : Capture) → (ask_device (get_elem? ds n) c).1 ≡ leb (length ds) n
unfolding ask_device
ask_device-get_elem [] n c = ground arith
ask_device-get_elem (d ∷ ds) zero c = ground arith
ask_device-get_elem (d ∷ ds) (suc n) c = ask_device-get_elem ds n c ∙ ground arith

-- Turning off keeps the number of the device.
turn_off-device_num : (c : Capture) → (turn_off c).device_num ≡ c.device_num
unfolding turn_off
turn_off-device_num c = device (record (stop_timer c) { viewing = false }) ∙ timer c
  where
    device : (d : Capture) → (stop_device d).device_num ≡ d.device_num
    device d =
        unfold stop_device in
        elim (Option-cases d.video_device) [ inl e ↦ rw (e) refl | inr (t, e) ↦ rw (e) refl ]

    timer : (d : Capture) → (stop_timer d).device_num ≡ d.device_num
    timer d =
        unfold stop_timer in
        elim (Option-cases d.timer) [ inl e ↦ rw (e) refl | inr (t, e) ↦ rw (e) refl ]

-- If the widget knew its devices, a click on the switch button would throw exactly if the device in use is
-- the last one.
pub switch_button_click-last :
    (ds : List Fields) (c : Capture)
    → c.devices ≡ some ds
    → c.device_num < length ds
    → (switch_button_click c).1 ≡ (suc c.device_num == length ds)
unfolding switch_button_click switch_among view ask_any_of next_device
switch_button_click-last ds c h less =
    ap (λ o. (switch_among o c).1) h
    ∙ ap (λ o. (ask_any_of o d.device_num (start_viewing d)).1)
        ((turn_off-IsFine (next_device ds c)).1 ∙ h)
    ∙ ask_device-get_elem ds d.device_num (start_viewing d)
    ∙ ap (leb (length ds)) (turn_off-device_num (next_device ds c))
    ∙ overrun (length ds) c.device_num less
  where
    d : Capture
    d = turn_off (next_device ds c)

    overrun : (m n : ℕ) → n < m → leb m (if leb m n then 0 else suc n) ≡ (suc n == m)
    overrun m n k = ground (arith, k)
