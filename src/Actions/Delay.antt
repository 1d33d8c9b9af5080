-- ===== src/Actions/Delay.antt =====
-- The delay of an action that is to be the last, and the timer of the queue in assets/js/goradd.js.
use serve.Base.{
  ◌≡◌, refl, ℕ, ◌≤◌, ◌<◌, String, Bool, true, false, List, [], ◌∷◌, ◌++◌, arith, if◌then◌else◌, ltb,
  Bool-cases, inl, inr, All,
}
use serve.Timers.{Timers, has_timer, set_timer}
use serve.Timers.Owned.{handle_of-insert}
use serve.Actions.{Job, Params, Actions, longest, with_delay, queue_action}

module _ {ℓ} {F : Type ℓ} where
  longest-ge : (delay : ℕ) (items : List (Params F)) → delay ≤ longest delay items
  unfolding longest
  longest-ge delay [] = omega arith
  longest-ge delay (item ∷ items) = ground (arith, longest-ge item.d items, longest-ge delay items)

  longest-bounds :
      (delay : ℕ) (items : List (Params F)) (m : ℕ)
      → longest delay items < m
      → All (λ item. item.d < m) items
  unfolding longest
  longest-bounds delay [] m h = tt
  longest-bounds delay (item ∷ items) m h = (
    ground (arith, longest-ge item.d items, longest-ge delay items),
    longest-bounds (if ltb delay item.d then item.d else delay) items m h,
  )

  -- An action that is to be the last gets a longer delay than every action that is in the queue;
  -- any other action keeps its own.
  pub with_delay_lem :
      (p : Params F) (items : List (Params F))
      → (p.last ≡ true → All (λ item. item.d < (with_delay p items).d) items)
        × (p.last ≡ false → with_delay p items ≡ p)
        × ((with_delay p items).f ≡ p.f)
        × ((with_delay p items).k ≡ p.k)
  unfolding with_delay
  with_delay_lem p items =
      (λ e. rw e (longest-bounds 0 items _ (omega arith)), λ e. rw e, ground arith, ground arith)

  has_timer-set_timer :
      (id : String) (a : Job F) (d : ℕ) (b : Bool) (s : Timers (Job F))
      → has_timer id (set_timer id a d b s) ≡ true
  unfolding has_timer set_timer
  has_timer-set_timer id a d b s = rw (has_timer, handle_of-insert)

  -- Whatever is in the queue, after `queueAction` a timer is set to process it, and the action
  -- stands behind the others.
  pub queue_action_lem :
      (p : Params F) (s : Actions F)
      → (has_timer "goradd.actions" (queue_action p s).timers ≡ true)
        × ((queue_action p s).queue ≡ s.queue ++ with_delay p s.queue ∷ [])
        × ((queue_action p s).ran ≡ s.ran)
  unfolding queue_action
  queue_action_lem p s = elim (Bool-cases (has_timer "goradd.actions" s.timers)) [
    | inl e ↦ rw e (e, refl, refl)
    | inr e ↦ rw e (has_timer-set_timer "goradd.actions" _ _ _ _, refl, refl)
  ]
