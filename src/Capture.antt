-- ===== src/Capture.antt =====
-- The widget `goradd.ImageCapture` of assets/js/image-capture.js: its state, the browser's camera,
-- intervals and open requests, and the handlers as events of a history. A call of `getUserMedia`
-- stays open until the camera is granted or refused. The texts that the browser makes of values and
-- of the canvas are parameters; the browser has `HTMLMediaElement` and `enumerateDevices`.
pub mod Framing
pub mod History
pub mod Phases
pub mod Camera
pub mod Clock
pub mod Devices
use serve.Base.{
  ◌≡◌, refl, ◌≢◌, sym, ap, ◌∙◌, ℕ, zero, suc, ◌+◌, ◌-◌, ◌≤◌, ◌<◌, max, String, str_eq, str_append,
  eq_iff, eq_refl, Bool, true, false, not, ◌&&◌, ◌||◌, List, [], ◌∷◌, ◌++◌, arith, if◌then◌else◌,
  ◌==◌, ==_iff, ltb, leb, Bool-cases, Option-cases, inl, inr, ◌⊎◌, ◌↔◌, All, All-append, Option,
  none, some, append-nil, append_assoc, map, reverse, length, get_elem?,
}
use serve.Value.{Value, undefined, null, bool, num, str, Fields, end, field, get, put}
use serve.Value.Extend.{extend_options}
use serve.Posting.{set_value}
use serve.Elements.{Element, show, hide}
use serve.Capture.Framing.{Frame, measure}

-- The constraints of `getUserMedia`: any camera, or the one with an id
pub data Constraint : Type 0 where
  any_video : Constraint
  exact_video : Value → Constraint

-- What is drawn on the canvas; the center and the radius of the circle are halves of the numbers.
pub data Drawing : Type 0 where
  image : Value → Drawing
  video : Frame → Drawing
  white_rect : ℕ → ℕ → Drawing
  clip_circle : ℕ → ℕ → ℕ → Drawing

pub record Capture : Type 0 where
  pub id : String
  pub options : Fields
  pub viewing : Bool
  -- `_devices`, `_deviceNum`
  pub devices : Option (List Fields)
  pub device_num : ℕ
  -- `_timer`, `_videoDevice`, and `_x`, `_y`, `_w`, `_h`
  pub timer : Option ℕ
  pub video_device : Option ℕ
  pub frame : Option Frame
  -- the buttons, the canvas and the element for errors
  pub button_text : Value
  pub original_text : Value
  pub disabled : Bool
  pub switch_button : Element
  pub error : Option Value
  pub width : ℕ
  pub height : ℕ
  pub drawn : List Drawing
  -- what is posted for the controls, and the events triggered
  pub values : Fields
  pub triggered : List String
  -- the browser: pending intervals, the last handle, the cameras that run, the requests and images
  -- that are open, and the property `_devices` of the window
  pub intervals : List ℕ
  pub last_handle : ℕ
  pub live : List ℕ
  pub asked : List Constraint
  pub loads : List Value
  pub window_devices : Option (List Fields)

-- The defaults of the options, with the number 0.92
abbrev pub option_defaults : Value → Fields
option_defaults quality = field "selectButtonName" (str "Capture") (
    field "shape" (str "rect") (
      field "zoom" (num 0) (
        field "data" (str "data:image/jpeg;base64,")
          (field "mimeType" (str "jpeg") (field "quality" quality end)))))

unfoldable pub is_truthy : Value → Bool
is_truthy undefined = false
is_truthy null = false
is_truthy (bool b) = b
is_truthy (num n) = not (n == 0)
is_truthy (str s) = not (str_eq s "")
is_truthy _ = true

-- `_showErr`
unfoldable pub show_err : Value → Capture → Capture
show_err err c = record c { disabled = true; error = if is_truthy err then some err else c.error }

-- `_loadNewData`: the image is drawn once it is loaded.
unfoldable pub load_new_data : Capture → Capture
load_new_data c =
    let shot = get "data" c.options in
    if is_truthy shot then record c { loads = c.loads ++ shot ∷ [] } else c

-- The constructor where the browser can capture, on a canvas and with the text of the button. Where it
-- cannot, the constructor throws: `_showErr` needs the button, which is not yet there.
unfoldable pub construct : Bool → Value → String → Fields → Value → Element → ℕ → ℕ → Option Capture
construct false quality id user text switch_button width height = none
construct true quality id user text switch_button width height = some (
    load_new_data (record {
      id = id;
      options = extend_options (option_defaults quality) user;
      viewing = false;
      devices = none;
      device_num = 0;
      timer = none;
      video_device = none;
      frame = none;
      button_text = text;
      original_text = text;
      disabled = false;
      switch_button = switch_button;
      error = none;
      width = width;
      height = height;
      drawn = [];
      values = end;
      triggered = "create" ∷ [];
      intervals = [];
      last_handle = 0;
      live = [];
      asked = [];
      loads = [];
      window_devices = none;
    }))

-- `clearInterval`, and `stop` of a track
unfoldable pub without : ℕ → List ℕ → List ℕ
without x [] = []
without x (y ∷ ys) = if y == x then without x ys else y ∷ without x ys

unfoldable pub stop_timer : Capture → Capture
stop_timer c = elim c.timer [
  | none ↦ c
  | some t ↦ record c { timer = none; intervals = without t c.intervals }
]

unfoldable pub stop_device : Capture → Capture
stop_device c = elim c.video_device [ none ↦ c | some t ↦ record c { live = without t c.live } ]

-- `turnOff`
unfoldable pub turn_off : Capture → Capture
turn_off c = stop_device (record (stop_timer c) { viewing = false })

-- `_destroy`, which throws at its end: outside a call through `extendWidget` there is no `_super`.
unfoldable pub destroy : Capture → Capture × Bool
destroy c = (turn_off c, true)

-- `_playing`
unfoldable pub playing : Capture → Capture
playing c = elim c.timer [
  | some t ↦ c
  | none ↦ record c {
    timer = some (suc c.last_handle);
    intervals = c.intervals ++ suc c.last_handle ∷ [];
    last_handle = suc c.last_handle;
  }
]

-- A turn of the interval; without a frame the canvas draws nothing.
unfoldable pub tick : Capture → Capture
tick c = elim c.frame [ none ↦ c | some f ↦ record c { drawn = c.drawn ++ video f ∷ [] } ]

-- The browser calls it only while an interval is pending.
unfoldable pub tick_of : List ℕ → Capture → Capture
tick_of [] c = c
tick_of (t ∷ ts) c = tick c

-- `_loadmetadata`, with the size of the video; the zoom is taken to be a number.
unfoldable pub load_metadata : ℕ → ℕ → Capture → Capture
load_metadata video_width video_height c = record c {
  frame = some (
      measure (elim (get "zoom" c.options) [ num z ↦ z | _ ↦ 0 ]) video_width video_height c.width
        c.height);
}

-- `getUserMedia`
unfoldable pub ask : Constraint → Capture → Capture
ask k c = record c { asked = c.asked ++ k ∷ [] }

unfoldable pub has_several : Option (List Fields) → Bool
has_several none = false
has_several (some ds) = ltb 1 (length ds)

-- `_view`, and whether it throws: it does where there is no device of the number.
unfoldable pub start_viewing : Capture → Capture
start_viewing c = record c {
  viewing = true;
  button_text = get "selectButtonName" c.options;
  switch_button = if has_several c.devices then show c.switch_button else hide c.switch_button;
}

unfoldable pub ask_device : Option Fields → Capture → Capture × Bool
ask_device none c = (c, true)
ask_device (some d) c = (ask (exact_video (get "devicedId" d)) c, false)

unfoldable pub ask_any_of : Option (List Fields) → ℕ → Capture → Capture × Bool
ask_any_of none n c = (ask any_video c, false)
ask_any_of (some ds) n c = ask_device (get_elem? ds n) c

unfoldable pub view : Capture → Capture × Bool
view c = ask_any_of c.devices c.device_num (start_viewing c)

-- The mask of the shape
unfoldable pub clip : Value → Capture → Capture
clip (str shape) c =
    if str_eq shape "circle"
    then record c {
      drawn =
          c.drawn
          ++ white_rect c.width c.height
            ∷ clip_circle c.width c.height (if leb c.height c.width then c.height else c.width)
            ∷ [];
    }
    else c
clip shape c = c

unfoldable pub take_track : ℕ → Capture → Capture
take_track track c = record c { video_device = some track; live = track ∷ c.live }

-- `_view`, once the camera is granted, with its track, and once it is refused
unfoldable pub granted : ℕ → Capture → Capture
granted track c = clip (get "shape" c.options) (take_track track c)

unfoldable pub refused : Value → Capture → Capture
refused err c = show_err err (turn_off c)

-- `_switchButtonClick`, and whether it throws: `null` has no length.
unfoldable pub next_device : List Fields → Capture → Capture
next_device ds c = record c {
  device_num = if leb (length ds) c.device_num then 0 else suc c.device_num;
}

unfoldable pub switch_among : Option (List Fields) → Capture → Capture × Bool
switch_among none c = (c, true)
switch_among (some ds) c = view (turn_off (next_device ds c))

unfoldable pub switch_button_click : Capture → Capture × Bool
switch_button_click c = switch_among c.devices c

-- The answer of `enumerateDevices`: `self` is the window.
unfoldable pub enumerated : List Fields → Capture → Capture
enumerated ds c = record c { window_devices = some ds }

unfoldable pub put_option : String → Value → Capture → Capture
put_option key value c = record c { options = put key value c.options }

-- `_setOption`
unfoldable pub set_option : String → Value → Capture → Capture
set_option key value c =
    if str_eq key "data" then load_new_data (put_option key value c) else put_option key value c

unfoldable pub trigger : String → Capture → Capture
trigger name c = record c { triggered = c.triggered ++ name ∷ [] }

module _ (to_text : Value → String) (to_data_url : List Drawing → String → Value → Value) where
  -- `_capture`: the shot is kept and told, before all is turned off.
  unfoldable pub take_shot : Capture → Capture
  take_shot c =
      let shot =
        to_data_url c.drawn (str_append "image/" (to_text (get "mimeType" c.options)))
          (get "quality" c.options) in
      record c {
        button_text = c.original_text;
        options = put "data" shot c.options;
        values = set_value c.id "data" shot c.values;
      }

  unfoldable pub capture : Capture → Capture
  capture c = trigger "capture" (turn_off (take_shot c))

  -- `_imageButtonClick`
  unfoldable pub image_button_click : Capture → Capture × Bool
  image_button_click c = if c.viewing then (capture c, false) else view c
