-- ===== src/Actions.antt =====
-- The action queue of assets/js/goradd.js: `queueAction` and `processActions`, over the named
-- timers. What an action does to the page is opaque, except for the actions that it queues: those
-- are a parameter. The loop takes fuel; `Drain` shows how much is enough.
pub mod Delay
pub mod Drain
use serve.Base.{
  ◌≡◌, refl, ◌≢◌, sym, ap, ◌∙◌, ℕ, zero, suc, ◌+◌, ◌-◌, ◌≤◌, ◌<◌, max, String, str_eq, str_append,
  eq_iff, eq_refl, Bool, true, false, not, ◌&&◌, ◌||◌, List, [], ◌∷◌, ◌++◌, arith, if◌then◌else◌,
  ◌==◌, ==_iff, ltb, leb, Bool-cases, Option-cases, inl, inr, ◌⊎◌, ◌↔◌, All, All-append, Option,
  none, some, append-nil, append_assoc, map, reverse, length,
}
use serve.Timers.{Timers, has_timer, set_timer}

-- What the timers of the page run: the queue itself, or the function of a delayed action.
pub data Job {ℓ} (F : Type ℓ) : Type ℓ where
  process : Job F
  page : F → Job F

-- The parameters of `queueAction`: `d` is the delay and `k` the name of the timer.
pub record Params {ℓ} (F : Type ℓ) : Type ℓ where
  pub k : String
  pub f : F
  pub d : ℕ
  pub last : Bool

pub record Actions {ℓ} (F : Type ℓ) : Type ℓ where
  -- `_actionQueue`
  pub queue : List (Params F)
  pub timers : Timers (Job F)
  -- the actions that were run at once, latest last
  pub ran : List F

module _ {ℓ} {F : Type ℓ} where
  -- The longest delay in the queue.
  unfoldable pub longest : ℕ → List (Params F) → ℕ
  longest delay [] = delay
  longest delay (item ∷ items) = longest (if ltb delay item.d then item.d else delay) items

  -- `queueAction`
  unfoldable pub with_delay : Params F → List (Params F) → Params F
  with_delay p items = if p.last then record p { d = longest 0 items + 1 } else p

  unfoldable pub queue_action : Params F → Actions F → Actions F
  queue_action p s =
      let s1 : Actions F = record s { queue = s.queue ++ with_delay p s.queue ∷ [] } in
      if not (has_timer "goradd.actions" s1.timers)
      then record s1 { timers = set_timer "goradd.actions" process 10 false s1.timers }
      else s1

  unfoldable pub queue_all : List (Params F) → Actions F → Actions F
  queue_all [] s = s
  queue_all (p ∷ ps) s = queue_all ps (queue_action p s)

  -- One round of `processActions`, for an action that has been taken from the queue.
  unfoldable pub process_action : (F → List (Params F)) → Params F → Actions F → Actions F
  process_action reaction p s =
      if ltb 0 p.d
      then record s { timers = set_timer p.k (page p.f) p.d false s.timers }
      else queue_all (reaction p.f) (record s { ran = s.ran ++ p.f ∷ [] })

  -- `processActions`; `none` means that the fuel ran out.
  unfoldable pub process_actions : (F → List (Params F)) → ℕ → Actions F → Option (Actions F)
  process_actions reaction zero s = none
  process_actions reaction (suc fuel) s = elim s.queue [
    | [] ↦ some s
    | p ∷ rest ↦
        process_actions reaction fuel (process_action reaction p (record s { queue = rest }))
  ]
