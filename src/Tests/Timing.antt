-- ===== src/Tests/Timing.antt =====
-- Runs of the named timers and of the action queue of assets/js/goradd.js.
use serve.Base.{
  ◌≡◌, ℕ, ◌+◌, ◌<◌, true, false, List, [], ◌∷◌, arith, if◌then◌else◌, ◌==◌, none, some,
}
use serve.Timers.{Timer, Timers, sets, clears, calls, here, next, call}
use serve.Timers.Owned.{Owned, Reach-Owned}
use serve.Actions.{Params, Actions, process_actions}
use serve.Actions.Drain.{process_actions_ends, total}

-- The page, 5000 milliseconds after the start of the clock.
abbrev fresh : Timers ℕ
fresh = record { table = []; pending = []; next_handle = 1; now = 5000 }

abbrev update : Timer
update = record { i = 4000; d = 500; p = false; s = 0; e = 0; t = none }

abbrev updating : Timers ℕ
updating = record { table = ("u", update) ∷ []; pending = []; next_handle = 2; now = 5000 }

Reach-Owned_example :
    Owned (call (clears "a") (call (sets "a" 1 20 true) (call (sets "a" 7 10 false) fresh)))
Reach-Owned_example = Reach-Owned {s = fresh} tt (
    next (next (next here (calls (sets "a" 7 10 false) _)) (calls (sets "a" 1 20 true) _))
      (calls (clears "a") _))

abbrev click : Params ℕ
click = record { k = "c"; f = 3; d = 0; last = false }

abbrev change : Params ℕ
change = record { k = "h"; f = 1; d = 40; last = false }

abbrev final : Params ℕ
final = record { k = "l"; f = 2; d = 0; last = true }

abbrev queued : Actions ℕ
queued = record {
  queue = click ∷ change ∷ [];
  timers = record { table = []; pending = []; next_handle = 1; now = 5000 };
  ran = [];
}

-- Function 3 queues function 1; the others queue nothing.
abbrev reaction : ℕ → List (Params ℕ)
reaction n = if n == 3 then change ∷ [] else []

reaction_lighter : (f : ℕ) → total (λ n. n + 1) (reaction f) < f + 1
reaction_lighter f = ground arith

process_actions_ends_example :
    (t : Actions ℕ) × (process_actions reaction 9 queued ≡ some t) × (t.queue ≡ [])
process_actions_ends_example =
    process_actions_ends (λ n. n + 1) reaction reaction_lighter 9 queued (omega arith)
