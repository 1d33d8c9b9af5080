-- ===== src/Redraw.antt =====
-- From a message of the server to the request that asks for a control to be drawn again: the watchers
-- of Watchers, `updateForm` of assets/js/goradd.js with its timer of Timers, and the page, queue and
-- server of Exchange. `_refresh` is that of the page. Of the named timers only that of `updateForm`
-- is here: no other code uses its name, and the action makes no call of the timers: the handlers of
-- `posting` are taken to call neither `goradd.refresh` nor `updateForm` while the update runs.
pub mod Due
pub mod Asked
pub mod Fired
pub mod Interval
pub mod Spaced
use serve.Base.{
  ◌≡◌, refl, ◌≢◌, sym, ap, subst, ◌∙◌, ℕ, zero, suc, ◌+◌, ◌-◌, ◌≤◌, ◌<◌, max, String, str_eq,
  str_append, eq_iff, eq_refl, Bool, true, false, not, ◌&&◌, ◌||◌, List, [], ◌∷◌, ◌++◌, arith,
  if◌then◌else◌, ◌==◌, ==_iff, ltb, leb, Bool-cases, Option-cases, inl, inr, ◌⊎◌, ◌↔◌, All,
  All-append, Option, none, some, append-nil, append_assoc, map, reverse, length, get_elem?,
}
use serve.Value.{Value, Fields, end}
use serve.Posting.{Page}
use serve.Timers.{Timers, Pending, throttle, pass, fire, IsPending}
use serve.Watchers.{Watch, Message, add_watcher, process_watcher_message, refresh_control, contains}
use serve.Exchange.{World, posts, act, Happening, happen, on_page}

pub record Client : Type 0 where
  -- `_watchers`
  pub watchers : List (String × List String)
  -- the timer of `updateForm`
  pub timers : Timers (Unit {0})
  pub world : World

abbrev pub update_name : String
update_name = "goradd.update"

-- `updateForm`
unfoldable pub update_form : Client → Client
update_form c = record c { timers = throttle update_name 500 tt c.timers }

-- The watchers with the `_refresh` of the page, and what they leave: `updateForm` is called by no
-- function of theirs more than once.
unfoldable pub watch_of : Client → Watch
watch_of c = record { watchers = c.watchers; refresh = c.world.page.refresh; updates = 0 }

unfoldable pub leave : Watch → Client → Client
leave w c =
    let c1 : Client = record c {
      watchers = w.watchers;
      world = on_page (λ page. record page { refresh = w.refresh }) c.world;
    } in
    if ltb 0 w.updates then update_form c1 else c1

module _ (encode : Fields → String) (tz : Value) (posting : Page → Page) where
  -- What the timer runs: `postAjax` with no parameters
  unfoldable pub fire_update : Pending (Unit {0}) → ℕ → Client → Client
  fire_update p spent c = record c {
    timers = fire p [] spent c.timers;
    world = act encode tz posting (posts end) c.world;
  }

-- What happens to the page, but for the timer
pub data Turn : Type 0 where
  watches : String → String → Turn
  hears : (String → Bool) → Message → Turn
  refreshes : String → Turn
  waits : ℕ → Turn
  goes_on : Happening → Turn

-- A turn, or the browser looks for a timer that is due, with the time that its function takes
pub data Beat : Type 0 where
  turns : Turn → Beat
  fires : ℕ → Beat

module _ (encode : Fields → String) (tz : Value) (posting : Page → Page)
    (parses : String → Bool) where
  unfoldable pub turn : Turn → Client → Client
  turn (watches id channel) c = leave (add_watcher id channel (watch_of c)) c
  turn (hears on_page msg) c = leave (process_watcher_message on_page msg (watch_of c)) c
  turn (refreshes id) c = leave (refresh_control id (watch_of c)) c
  turn (waits n) c = record c { timers = pass n c.timers }
  turn (goes_on h) c = record c { world = happen encode tz posting parses h c.world }

  unfoldable pub turn_all : List Turn → Client → Client
  turn_all [] c = c
  turn_all (t ∷ ts) c = turn_all ts (turn t c)

  -- A timer that is due fires.
  unfoldable pub beat : Beat → Client → Client
  beat (turns t) c = turn t c
  beat (fires spent) c = elim c.timers.pending [
    | [] ↦ c
    | p ∷ _ ↦ if leb p.due c.timers.now then fire_update encode tz posting p spent c else c
  ]

  -- When the function of `updateForm` starts, in a history
  unfoldable pub starts_of : Beat → Client → List ℕ
  starts_of (turns t) c = []
  starts_of (fires spent) c = elim c.timers.pending [
    | [] ↦ []
    | p ∷ _ ↦ if leb p.due c.timers.now then c.timers.now ∷ [] else []
  ]

  unfoldable pub starts_of_all : List Beat → Client → List ℕ
  starts_of_all [] c = []
  starts_of_all (b ∷ bs) c = starts_of b c ++ starts_of_all bs (beat b c)
