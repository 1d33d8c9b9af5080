-- ===== src/Capture/Phases.antt =====
-- The phases of the camera, and the calls that go from one to another: `_view`, `turnOff` and
-- `_switchButtonClick` of assets/js/image-capture.js.
use serve.Base.{
  ◌≡◌, refl, sym, ap, ◌∙◌, ℕ, String, str_eq, true, false, List, [], ◌∷◌, ◌++◌, arith, Bool-cases,
  Option-cases, inl, inr, ◌⊎◌, Option, none, some, List-cases, get_elem?,
}
use serve.Capture.{
  ask_any_of, ask_device, start_viewing, take_track, put_option, next_device, Capture, Constraint,
  view, ask, turn_off, stop_timer, stop_device, playing, tick, tick_of, granted, refused, clip,
  set_option, load_new_data, is_truthy, switch_among, show_err, without, any_video, exact_video,
}
use serve.Capture.History.{draw_image, answer_to}
use serve.Value.{Value, undefined, Fields, get, str, bool, num, null, arr, obj, ref}

-- No camera runs, or the one that is kept.
abbrev pub Runs : Capture → Type 0
Runs c = (c.live ≡ []) ⊎ ((t : ℕ) × (c.live ≡ t ∷ []) × (c.video_device ≡ some t))

-- With no request open, the camera is off or the widget is viewing; while one is open, the widget is
-- viewing and no camera runs.
pub data Phase (c : Capture) : Type 0 where
  off : c.viewing ≡ false → c.asked ≡ [] → c.live ≡ [] → Phase c
  asking : (k : Constraint) → c.viewing ≡ true → c.asked ≡ k ∷ [] → c.live ≡ [] → Phase c
  on : c.viewing ≡ true → c.asked ≡ [] → Runs c → Phase c

-- What most handlers keep
abbrev pub Keeps : Capture → Capture → Type 0
Keeps c d =
    (d.viewing ≡ c.viewing)
    × (d.asked ≡ c.asked)
    × (d.live ≡ c.live)
    × (d.video_device ≡ c.video_device)

kept-Runs : (c d : Capture) → d.live ≡ c.live → d.video_device ≡ c.video_device → Runs c → Runs d
kept-Runs c d l t (inl e) = inl (l ∙ e)
kept-Runs c d l t (inr (n, e, f)) = inr (n, l ∙ e, t ∙ f)

pub kept : (c d : Capture) → Keeps c d → Phase c → Phase d
kept c d (v, a, l, t) (off e f g) = off (v ∙ e) (a ∙ f) (l ∙ g)
kept c d (v, a, l, t) (asking q e f g) = asking q (v ∙ e) (a ∙ f) (l ∙ g)
kept c d (v, a, l, t) (on e f r) = on (v ∙ e) (a ∙ f) (kept-Runs c d l t r)

pub phase-Runs : (c : Capture) → Phase c → Runs c
phase-Runs c (off e f g) = inl g
phase-Runs c (asking k e f g) = inl g
phase-Runs c (on e f r) = r

stop_timer-Keeps : (c : Capture) → Keeps c (stop_timer c)
unfolding stop_timer
stop_timer-Keeps c = elim (Option-cases c.timer) [
  | inl e ↦ rw (e) (refl, refl, refl, refl)
  | inr (t, e) ↦ rw (e) (refl, refl, refl, refl)
]

stop_device_lem :
    (c : Capture)
    → ((stop_device c).viewing ≡ c.viewing)
      × ((stop_device c).asked ≡ c.asked)
      × (Runs c → (stop_device c).live ≡ [])
unfolding stop_device without
stop_device_lem c = elim (Option-cases c.video_device) [
  | inl e ↦
      rw (e) (refl, refl, λ h. elim h [ inl l ↦ l | inr (t, l, f) ↦ absurd (ground (arith, f)) ])
  | inr (t, e) ↦
      rw (e)
        (refl, refl, λ h. elim h [ inl l ↦ rw (l) refl | inr (u, l, f) ↦ ground (arith, l, f) ])
]

-- Turning off leaves nothing running, where no request is open.
pub turn_off_lem :
    (c : Capture)
    → Runs c
    → ((turn_off c).viewing ≡ false) × ((turn_off c).asked ≡ c.asked) × ((turn_off c).live ≡ [])
unfolding turn_off
turn_off_lem c h =
    let stopped = record (stop_timer c) { viewing = false } in
    let s = stop_device_lem stopped in
    let k = stop_timer-Keeps c in (s.0, s.1 ∙ k.1, s.2 (kept-Runs c stopped k.2 k.3 h))

-- The phases once all is turned off, and once the camera is asked for
pub turn_off-Phase : (c : Capture) → Runs c → c.asked ≡ [] → Phase (turn_off c)
turn_off-Phase c h q = let t = turn_off_lem c h in off t.0 (t.1 ∙ q) t.2

ask-Phase :
    (o : Option (List Fields)) (n : ℕ) (c : Capture)
    → c.viewing ≡ true
    → c.asked ≡ []
    → c.live ≡ []
    → Phase (ask_any_of o n c).0
unfolding ask_any_of ask_device ask
ask-Phase none n c v q l = asking any_video v (ap (λ ks. ks ++ any_video ∷ []) q) l
ask-Phase (some ds) n c v q l = elim (Option-cases (get_elem? ds n)) [
  | inl e ↦ rw (e) (on v q (inl l))
  | inr (d, e) ↦ rw (e) (
      asking (exact_video (get "devicedId" d)) v
        (ap (λ ks. ks ++ exact_video (get "devicedId" d) ∷ []) q) l)
]

pub view-Phase : (c : Capture) → c.asked ≡ [] → c.live ≡ [] → Phase (view c).0
unfolding view start_viewing
view-Phase c q l = ask-Phase c.devices c.device_num (start_viewing c) refl q l

pub clip-Keeps : (shape : Value) (c : Capture) → Keeps c (clip shape c)
unfolding clip
clip-Keeps (str s) c = elim (Bool-cases (str_eq s "circle")) [
  | inl e ↦ rw (e) (refl, refl, refl, refl)
  | inr e ↦ rw (e) (refl, refl, refl, refl)
]
clip-Keeps undefined c = (refl, refl, refl, refl)
clip-Keeps null c = (refl, refl, refl, refl)
clip-Keeps (bool b) c = (refl, refl, refl, refl)
clip-Keeps (num n) c = (refl, refl, refl, refl)
clip-Keeps (arr vs) c = (refl, refl, refl, refl)
clip-Keeps (obj fs) c = (refl, refl, refl, refl)
clip-Keeps (ref n) c = (refl, refl, refl, refl)

pub load-Keeps : (c : Capture) → Keeps c (load_new_data c)
unfolding load_new_data
load-Keeps c = elim (Bool-cases (is_truthy (get "data" c.options))) [
  | inl e ↦ rw (e) (refl, refl, refl, refl)
  | inr e ↦ rw (e) (refl, refl, refl, refl)
]

pub playing-Keeps : (c : Capture) → Keeps c (playing c)
unfolding playing
playing-Keeps c = elim (Option-cases c.timer) [
  | inl e ↦ rw (e) (refl, refl, refl, refl)
  | inr (t, e) ↦ rw (e) (refl, refl, refl, refl)
]

pub draw_image-Keeps : (c : Capture) → Keeps c (draw_image c)
unfolding draw_image
draw_image-Keeps c = elim (List-cases c.loads) [
  | inl e ↦ rw (e) (refl, refl, refl, refl)
  | inr (v, vs, e) ↦ rw (e) (refl, refl, refl, refl)
]

pub tick-Keeps : (ts : List ℕ) (c : Capture) → Keeps c (tick_of ts c)
unfolding tick_of tick
tick-Keeps [] c = (refl, refl, refl, refl)
tick-Keeps (t ∷ ts) c = elim (Option-cases c.frame) [
  | inl e ↦ rw (e) (refl, refl, refl, refl)
  | inr (f, e) ↦ rw (e) (refl, refl, refl, refl)
]

pub set_option-Keeps : (k : String) (v : Value) (c : Capture) → Keeps c (set_option k v c)
unfolding set_option put_option
set_option-Keeps k v c = elim (Bool-cases (str_eq k "data")) [
  | inl e ↦ rw (e) (load-Keeps (put_option k v c))
  | inr e ↦ rw (e) (refl, refl, refl, refl)
]

pub answer-Phase :
    (f : Capture → Capture)
    → ((d : Capture) → d.viewing ≡ true → d.asked ≡ [] → d.live ≡ [] → Phase (f d))
    → (ks : List Constraint) (c : Capture) → c.asked ≡ ks
    → Phase c
    → Phase (answer_to ks f c)
unfolding answer_to
answer-Phase f h [] c q p = p
answer-Phase f h (k ∷ ks) c q (off e a l) = cc
answer-Phase f h (k ∷ ks) c q (on e a r) = cc
answer-Phase f h (k ∷ ks) c q (asking j e a l) =
    h (record c { asked = ks }) e (tail_of (sym q ∙ a)) l
  where
    tail_of : {x y : Constraint} {xs ys : List Constraint} → x ∷ xs ≡ y ∷ ys → xs ≡ ys
    tail_of e = cc

pub granted-Phase :
    (t : ℕ) (c : Capture) → c.viewing ≡ true → c.asked ≡ [] → c.live ≡ [] → Phase (granted t c)
unfolding granted take_track
granted-Phase t c v q l =
    kept (take_track t c) (granted t c) (clip-Keeps (get "shape" c.options) (take_track t c))
      (on v q (inr (t, ap (λ ts. t ∷ ts) l, refl)))

pub refused-Phase :
    (err : Value) (c : Capture)
    → c.viewing ≡ true
    → c.asked ≡ []
    → c.live ≡ []
    → Phase (refused err c)
unfolding refused show_err
refused-Phase err c v q l =
    kept (turn_off c) (refused err c) (refl, refl, refl, refl) (turn_off-Phase c (inl l) q)

pub switch-Phase :
    (o : Option (List Fields)) (c : Capture)
    → Runs c
    → c.asked ≡ []
    → Phase c
    → Phase (switch_among o c).0
unfolding switch_among next_device
switch-Phase none c r q p = p
switch-Phase (some ds) c r q p =
    let t = turn_off_lem (next_device ds c) r in
    view-Phase (turn_off (next_device ds c)) (t.1 ∙ q) t.2

-- Whenever the widget does not view, no camera runs.
pub phase_dark : (c : Capture) → Phase c → c.viewing ≡ false → c.live ≡ []
phase_dark c (off e a l) v = l
phase_dark c (asking k e a l) v = l
phase_dark c (on e a r) v = cc
