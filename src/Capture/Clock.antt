-- ===== src/Capture/Clock.antt =====
-- The interval that draws the video, and the devices that are never known. `_playing`, `turnOff` and
-- `_switchButtonClick` of assets/js/image-capture.js.
use serve.Base.{
  ◌≡◌, refl, sym, ap, ◌∙◌, ℕ, suc, String, str_eq, Bool, true, false, List, [], ◌∷◌, ◌++◌, arith,
  if◌then◌else◌, Bool-cases, Option-cases, inl, inr, Option, none, some, get_elem?, List-cases,
}
use serve.Capture.{
  ask_any_of, ask_device, start_viewing, take_track, put_option, next_device, trigger, take_shot,
  Capture, Constraint, Drawing, view, ask, turn_off, stop_timer, stop_device, playing, tick,
  tick_of, load_metadata, granted, refused, clip, set_option, load_new_data, is_truthy, capture,
  image_button_click, switch_button_click, switch_among, enumerated, show_err, without,
}
use serve.Capture.History.{
  Event, clicks, switches, grants, refuses, plays, measures, ticks, loads_image, enumerates,
  sets_option, turns_off, step, run, answer, answer_to, draw_image,
}
use serve.Value.{Value, undefined, Fields, get, str, bool, num, null, arr, obj, ref}

unfoldable pub handles : Option ℕ → List ℕ
handles none = []
handles (some t) = t ∷ []

-- The interval that is pending, if any, is the one whose handle is kept.
abbrev pub IsTimed : Capture → Type 0
IsTimed c = c.intervals ≡ handles c.timer

-- What a handler keeps: the interval, its handle and the devices
abbrev Keeps : Capture → Capture → Type 0
Keeps c d = (d.intervals ≡ c.intervals) × (d.timer ≡ c.timer) × (d.devices ≡ c.devices)

kept : (c d : Capture) → Keeps c d → IsTimed c → IsTimed d
kept c d (i, t, _) h = i ∙ h ∙ ap handles (sym t)

ask-Keeps : (o : Option (List Fields)) (n : ℕ) (c : Capture) → Keeps c (ask_any_of o n c).0
unfolding ask_any_of ask_device ask
ask-Keeps none n c = (refl, refl, refl)
ask-Keeps (some ds) n c = elim (Option-cases (get_elem? ds n)) [
  | inl e ↦ rw (e) (refl, refl, refl)
  | inr (d, e) ↦ rw (e) (refl, refl, refl)
]

view-Keeps : (c : Capture) → Keeps c (view c).0
unfolding view start_viewing
view-Keeps c = ask-Keeps c.devices c.device_num (start_viewing c)

clip-Keeps : (shape : Value) (c : Capture) → Keeps c (clip shape c)
unfolding clip
clip-Keeps (str s) c = elim (Bool-cases (str_eq s "circle")) [
  | inl e ↦ rw (e) (refl, refl, refl)
  | inr e ↦ rw (e) (refl, refl, refl)
]
clip-Keeps undefined c = (refl, refl, refl)
clip-Keeps null c = (refl, refl, refl)
clip-Keeps (bool b) c = (refl, refl, refl)
clip-Keeps (num n) c = (refl, refl, refl)
clip-Keeps (arr vs) c = (refl, refl, refl)
clip-Keeps (obj fs) c = (refl, refl, refl)
clip-Keeps (ref n) c = (refl, refl, refl)

load-Keeps : (c : Capture) → Keeps c (load_new_data c)
unfolding load_new_data
load-Keeps c = elim (Bool-cases (is_truthy (get "data" c.options))) [
  | inl e ↦ rw (e) (refl, refl, refl)
  | inr e ↦ rw (e) (refl, refl, refl)
]

stop_device-Keeps : (c : Capture) → Keeps c (stop_device c)
unfolding stop_device
stop_device-Keeps c = elim (Option-cases c.video_device) [
  | inl e ↦ rw (e) (refl, refl, refl)
  | inr (t, e) ↦ rw (e) (refl, refl, refl)
]

-- The calls that stop the interval or leave it, and keep the devices
abbrev pub IsFine : Capture → Capture → Type 0
IsFine c d = (IsTimed c → IsTimed d) × (d.devices ≡ c.devices)

fine : (c d : Capture) → Keeps c d → IsFine c d
fine c d k = (kept c d k, k.2)

stop_timer-IsFine : (c : Capture) → IsFine c (stop_timer c)
unfolding stop_timer without handles
stop_timer-IsFine c = elim (Option-cases c.timer) [
  | inl e ↦ rw (e) (λ h. h, refl)
  | inr (t, e) ↦ rw (e) (λ h. ap (without t) h ∙ ground arith, refl)
]

pub turn_off-IsFine : (c : Capture) → IsFine c (turn_off c)
unfolding turn_off
turn_off-IsFine c =
    let stopped = record (stop_timer c) { viewing = false } in
    let first = stop_timer-IsFine c in
    let second = fine stopped (stop_device stopped) (stop_device-Keeps stopped) in
    (λ h. second.0 (first.0 h), second.1 ∙ first.1)

view-IsFine : (c : Capture) → IsFine c (view c).0
view-IsFine c = fine c (view c).0 (view-Keeps c)

playing-IsFine : (c : Capture) → IsFine c (playing c)
unfolding playing handles
playing-IsFine c = elim (Option-cases c.timer) [
  | inl e ↦ rw (e) (λ h. ap (λ is. is ++ suc c.last_handle ∷ []) h, refl)
  | inr (t, e) ↦ rw (e) (λ h. h, refl)
]

-- The answer to the first request, where the answer is fine
answer-IsFine :
    (f : Capture → Capture)
    → ((c : Capture) → IsFine c (f c))
    → (ks : List Constraint) (c : Capture) → IsFine c (answer_to ks f c)
unfolding answer_to
answer-IsFine f h [] c = (λ k. k, refl)
answer-IsFine f h (k ∷ ks) c = h (record c { asked = ks })

draw_image-Keeps : (c : Capture) → Keeps c (draw_image c)
unfolding draw_image
draw_image-Keeps c = elim (List-cases c.loads) [
  | inl e ↦ rw (e) (refl, refl, refl)
  | inr (v, vs, e) ↦ rw (e) (refl, refl, refl)
]

tick-Keeps : (c : Capture) → Keeps c (tick c)
unfolding tick
tick-Keeps c = elim (Option-cases c.frame) [
  | inl e ↦ rw (e) (refl, refl, refl)
  | inr (f, e) ↦ rw (e) (refl, refl, refl)
]

tick_of-Keeps : (ts : List ℕ) (c : Capture) → Keeps c (tick_of ts c)
unfolding tick_of
tick_of-Keeps [] c = (refl, refl, refl)
tick_of-Keeps (t ∷ ts) c = tick-Keeps c

granted-IsFine : (t : ℕ) (c : Capture) → IsFine c (granted t c)
unfolding granted take_track
granted-IsFine t c = fine c (granted t c) (clip-Keeps (get "shape" c.options) (take_track t c))

refused-IsFine : (err : Value) (c : Capture) → IsFine c (refused err c)
unfolding refused show_err
refused-IsFine err c = turn_off-IsFine c

switch-IsFine : (o : Option (List Fields)) (c : Capture) → IsFine c (switch_among o c).0
unfolding switch_among next_device
switch-IsFine none c = (λ h. h, refl)
switch-IsFine (some ds) c =
    let off = turn_off-IsFine (next_device ds c) in
    let on = view-IsFine (turn_off (next_device ds c)) in (λ h. on.0 (off.0 h), on.1 ∙ off.1)

set_option-IsFine : (k : String) (v : Value) (c : Capture) → IsFine c (set_option k v c)
unfolding set_option put_option
set_option-IsFine k v c = elim (Bool-cases (str_eq k "data")) [
  | inl e ↦ rw (e) (fine c (load_new_data (put_option k v c)) (load-Keeps (put_option k v c)))
  | inr e ↦ rw (e) (λ h. h, refl)
]

module _ (to_text : Value → String) (to_data_url : List Drawing → String → Value → Value) where
  capture-IsFine : (c : Capture) → IsFine c (capture to_text to_data_url c)
  unfolding capture trigger take_shot
  capture-IsFine c = turn_off-IsFine (take_shot to_text to_data_url c)

  click-IsFine : (c : Capture) → IsFine c (image_button_click to_text to_data_url c).0
  unfolding image_button_click
  click-IsFine c = chosen c.viewing _ _ (capture-IsFine c) (view-IsFine c)
    where
      chosen :
          (b : Bool) (x y : Capture × Bool)
          → IsFine c x.0
          → IsFine c y.0
          → IsFine c (if b then x else y).0
      chosen true x y h k = h
      chosen false x y h k = k

  step-IsFine : (e : Event) (c : Capture) → IsFine c (step to_text to_data_url e c)
  unfolding step switch_button_click load_metadata enumerated answer
  step-IsFine clicks c = click-IsFine c
  step-IsFine switches c = switch-IsFine c.devices c
  step-IsFine (grants t) c = answer-IsFine (granted t) (granted-IsFine t) c.asked c
  step-IsFine (refuses err) c = answer-IsFine (refused err) (refused-IsFine err) c.asked c
  step-IsFine plays c = playing-IsFine c
  step-IsFine (measures w h) c = (λ k. k, refl)
  step-IsFine ticks c = fine c (tick_of c.intervals c) (tick_of-Keeps c.intervals c)
  step-IsFine loads_image c = fine c (draw_image c) (draw_image-Keeps c)
  step-IsFine (enumerates ds) c = (λ k. k, refl)
  step-IsFine (sets_option k v) c = set_option-IsFine k v c
  step-IsFine turns_off c = turn_off-IsFine c

  pub run-IsFine : (es : List Event) (c : Capture) → IsFine c (run to_text to_data_url es c)
  unfolding run
  run-IsFine [] c = (λ h. h, refl)
  run-IsFine (e ∷ es) c =
      let one = step-IsFine e c in
      let more = run-IsFine es (step to_text to_data_url e c) in
      (λ h. more.0 (one.0 h), more.1 ∙ one.1)

  -- In every history of the widget, whatever is clicked, granted, refused or played, the one interval
  -- that may be pending is that whose handle is kept, if none was pending at the start.
  pub run-IsTimed :
      (es : List Event) (c : Capture) → IsTimed c → IsTimed (run to_text to_data_url es c)
  run-IsTimed es c h = (run-IsFine es c).0 h
