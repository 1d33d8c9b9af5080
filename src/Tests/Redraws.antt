-- ===== src/Tests/Redraws.antt =====
-- Runs from a message of the server to the request for a control, for assets/js/goradd.js.
use serve.Base.{◌≡◌, refl, String, Bool, true, false, [], ◌∷◌, ◌++◌, arith, eq_iff, inl, List}
use serve.Value.{num}
use serve.Timers.{prev_time, Pending, has_timer}
use serve.Watchers.{Message, contains}
use serve.Watchers.Refresh.{IsUpdate}
use serve.Base.Dict.{lookup}
use serve.Exchange.Refresh.{KeepsRefresh}
use serve.Exchange.Answered.{rounds}
use serve.Redraw.Interval.{IsSpaced}
use serve.Redraw.Spaced.{Spaced, starts-Spaced}
use serve.Redraw.{
  Beat, turns, fires, starts_of_all, Client, hears, waits, turn_all, fire_update, watch_of,
}
use serve.Redraw.Due.{IsPrompt}
use serve.Redraw.Asked.{IsAsked, hears-IsAsked}
use serve.Redraw.Fired.{update, fire_update-rounds, fire_update-blocked}
use serve.Tests.Sessions.{encoded, form}
use serve.Tests.Exchanges.{silent, opened, parses, answered}

-- The control "name" watches the channel "people".
abbrev watching : Client
watching = record {
  watchers = ("people", "name" ∷ []) ∷ [];
  timers = record { table = []; pending = []; next_handle = 1; now = 1000 };
  world = opened;
}

abbrev changed : Message
changed = record { channel = "people"; message = "7" }

abbrev everywhere : String → Bool
everywhere id = true

silent-KeepsRefresh : KeepsRefresh silent
silent-KeepsRefresh page = refl

watching-IsPrompt : IsPrompt watching.timers
unfolding has_timer lookup
watching-IsPrompt e = cc

changed-ne-IsUpdate : ¬ IsUpdate changed
changed-ne-IsUpdate u = ground (arith, eq_iff changed.channel "redraw", u.1)

abbrev asked : Client
asked = turn_all encoded (num 60) silent parses (hears everywhere changed ∷ waits 100 ∷ []) watching

hears-IsAsked_example : IsAsked "name" 1500 asked
unfolding lookup contains watch_of
hears-IsAsked_example =
    hears-IsAsked encoded (num 60) silent parses silent-KeepsRefresh everywhere changed "name"
      watching (waits 100 ∷ []) watching-IsPrompt changed-ne-IsUpdate refl refl

-- The timer that the message has set
abbrev due_timer : Pending (Unit {0})
due_timer = record {
  handle = 1;
  id = "goradd.update";
  action = tt;
  due = 1000;
  interval = 0;
  periodic = false;
}

fire_update-rounds_example :
    let c = fire_update encoded (num 60) silent due_timer 5 asked in
    let t = rounds encoded (num 60) silent parses (answered ∷ []) c.world in
    (t.queue.q ≡ [])
    × (t.queue.current ≡ [])
    × (t.queue.sent ≡ (asked.world.queue.sent ++ asked.world.queue.q) ++ update ∷ [])
    × (contains t.page.refresh "name" ≡ true)
    × (has_timer "goradd.update" c.timers ≡ false)
unfolding turn_all lookup contains watch_of serve.Redraw.turn serve.Redraw.leave
    serve.Exchange.on_page serve.Redraw.update_form serve.Watchers.process_watcher_message
    serve.Watchers.push_present serve.Watchers.update_form serve.Ajaxq.escapes
    serve.Ajaxq.opens_object
fire_update-rounds_example =
    fire_update-rounds encoded (num 60) silent parses silent-KeepsRefresh due_timer 5 1500
      (answered ∷ []) "name" asked ((refl, refl), tt) refl refl refl (omega arith)
      (hears-IsAsked encoded (num 60) silent parses silent-KeepsRefresh everywhere changed "name"
        watching (waits 100 ∷ []) watching-IsPrompt changed-ne-IsUpdate refl refl)

-- An event that blocks the others is waiting for its answer.
abbrev blocked : Client
blocked = record watching { world = record opened { page = record form { block_events = true } } }

fire_update-blocked_example :
    ((fire_update encoded (num 60) silent due_timer 5 blocked).world ≡ blocked.world)
    × (has_timer "goradd.update" (fire_update encoded (num 60) silent due_timer 5 blocked).timers
        ≡ false)
fire_update-blocked_example =
    fire_update-blocked encoded (num 60) silent due_timer 5 blocked refl refl refl

-- Before the first update `throttle` reads that the last one was at the start of the clock.
watching-IsSpaced : IsSpaced 0 watching.timers
unfolding has_timer lookup prev_time
watching-IsSpaced =
    inl (record { unset = refl; none_pending = refl; known = refl; past = omega arith })

abbrev busy : List Beat
busy =
    turns (hears everywhere changed)
    ∷ fires 5
    ∷ turns (hears everywhere changed)
    ∷ fires 5
    ∷ turns (waits 600)
    ∷ fires 5
    ∷ []

starts-Spaced_example : Spaced 0 (starts_of_all encoded (num 60) silent parses busy watching)
starts-Spaced_example =
    starts-Spaced encoded (num 60) silent parses busy 0 watching watching-IsSpaced
