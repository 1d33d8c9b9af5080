-- ===== src/Redraw/Interval.antt =====
-- The timer of `updateForm` of assets/js/goradd.js as `throttle` keeps it: idle, or waiting for its turn.
use serve.Base.{
  ◌≡◌, refl, ◌∙◌, ℕ, ◌+◌, ◌-◌, ◌≤◌, ◌<◌, max, String, false, List, [], ◌∷◌, arith, Option-cases,
  inl, inr, ◌⊎◌, some,
}
use serve.Base.Dict.{lookup}
use serve.Timers.{
  Timers, Timer, Pending, throttle, pass, fire, on_timeout, has_timer, handle_of, prev_time,
  set_timer, drop_pending, clear_timer, mark_start, call_all,
}
use serve.Timers.Throttle.{throttle_lem, ended, mark_end-pending}
use serve.Redraw.{update_name}
use serve.Timers.Owned.{handle_of-insert}

-- No timer is pending, and the last start is known to `throttle`.
pub record IsIdle (last : ℕ) (s : Timers (Unit {0})) : Type 0 where
  pub unset : has_timer update_name s ≡ false
  pub none_pending : s.pending ≡ []
  pub known : prev_time update_name s ≡ last
  pub past : last ≤ s.now

-- One timer is pending, that of the entry, due no sooner than half a second after the last start.
pub record IsWaiting (last : ℕ) (s : Timers (Unit {0})) : Type 0 where
  pub timer : Pending (Unit {0})
  pub one_pending : s.pending ≡ timer ∷ []
  pub own : handle_of update_name s.table ≡ some timer.handle
  pub name : timer.id ≡ update_name
  pub once : timer.periodic ≡ false
  pub later : last + 500 ≤ timer.due

abbrev pub IsSpaced : ℕ → Timers (Unit {0}) → Type 0
IsSpaced last s = IsIdle last s ⊎ IsWaiting last s

clear_timer_idle :
    (id : String) (s : Timers (Unit {0})) → has_timer id s ≡ false → clear_timer id s ≡ s
unfolding clear_timer has_timer
clear_timer_idle id s h = elim (Option-cases (lookup id s.table)) [
  | inl e ↦ rw (e, clear_timer) refl
  | inr (r, e) ↦ elim (Option-cases r.t) [
    | inl k ↦ rw (e, clear_timer, k) refl
    | inr (t, k) ↦ ground (arith, e, k, h)
  ]
]

own-throttle :
    (s : Timers (Unit {0}))
    → has_timer update_name s ≡ false
    → handle_of update_name (throttle update_name 500 tt s).table ≡ some s.next_handle
unfolding throttle set_timer
own-throttle s h =
    rw (h, throttle)
      (rw (clear_timer_idle update_name s h) (handle_of-insert update_name _ s.table))

pub throttle-IsWaiting :
    (last : ℕ) (s : Timers (Unit {0}))
    → IsIdle last s
    → IsWaiting last (throttle update_name 500 tt s)
throttle-IsWaiting last s h = record {
  timer = record {
    handle = s.next_handle;
    id = update_name;
    action = tt;
    due = max s.now (prev_time update_name s + 500);
    interval = 500 - (s.now - prev_time update_name s);
    periodic = false;
  };
  one_pending =
      (throttle_lem update_name 500 tt s).1 h.unset (rw h.known h.past) ∙ rw h.none_pending refl;
  own = own-throttle s h.unset;
  name = refl;
  once = refl;
  later = omega (arith, h.known);
}

clear_timer-nil :
    (id : String) (s : Timers (Unit {0})) → s.pending ≡ [] → (clear_timer id s).pending ≡ []
unfolding clear_timer drop_pending
clear_timer-nil id s h = elim (Option-cases (lookup id s.table)) [
  | inl e ↦ rw (e, clear_timer) h
  | inr (r, e) ↦ elim (Option-cases r.t) [
    | inl k ↦ rw (e, clear_timer, k) h
    | inr (t, k) ↦ rw (e, clear_timer, k, h) refl
  ]
]

mark_start-pending : (id : String) (s : Timers (Unit {0})) → (mark_start id s).pending ≡ s.pending
unfolding mark_start
mark_start-pending id s = ground arith

on_timeout-nil :
    (id : String) (spent : ℕ) (s : Timers (Unit {0}))
    → s.pending ≡ []
    → (on_timeout id [] spent s).pending ≡ []
unfolding on_timeout call_all pass
on_timeout-nil id spent s h =
    mark_end-pending id _ ∙ clear_timer-nil id (mark_start id s) (mark_start-pending id s ∙ h)

-- An entry that owns a timer is there.
lookup-own :
    (id : String) (h : ℕ) (table : List (String × Timer))
    → handle_of id table ≡ some h
    → (r : Timer) × (lookup id table ≡ some r)
lookup-own id h table own = elim (Option-cases (lookup id table)) [
  | inl e ↦ cc (rw (e, handle_of) at own)
  | inr (r, e) ↦ (r, e)
]

-- What `ended` says, with no time behind the end.
ended_now :
    (id : String) (spent : ℕ) (r : Timer) (s : Timers (Unit {0}))
    → lookup id s.table ≡ some r
    → 0 < s.now
    → let t = on_timeout id [] spent s in
      (has_timer id t ≡ false) × (prev_time id t ≡ s.now) × (s.now ≤ t.now)
unfolding pass has_timer prev_time
ended_now id spent r s e h =
    let k = ended id spent 0 r s e (omega arith) in (k.0, k.1, omega (arith, k.2))

timeout-IsIdle :
    (p : Pending (Unit {0})) (last spent : ℕ) (s : Timers (Unit {0}))
    → s.pending ≡ p ∷ []
    → handle_of update_name s.table ≡ some p.handle
    → last + 500 ≤ s.now
    → IsIdle s.now
        (on_timeout update_name [] spent (record s { pending = drop_pending p.handle s.pending }))
unfolding drop_pending
timeout-IsIdle p last spent s one own le =
    let s1 : Timers (Unit {0}) = record s { pending = drop_pending p.handle s.pending } in
    let (r, e) = lookup-own update_name p.handle s.table own in
    let k = ended_now update_name spent r s1 e (omega arith) in
    record {
      unset = k.0;
      none_pending = on_timeout-nil update_name spent s1 (rw one (ground arith));
      known = k.1;
      past = k.2;
    }

-- A timer that fires starts half a second after the last start, or later.
pub fire-IsIdle :
    (last spent : ℕ) (s : Timers (Unit {0})) (h : IsWaiting last s)
    → h.timer.due ≤ s.now
    → IsIdle s.now (fire h.timer [] spent s)
unfolding fire
fire-IsIdle last spent s h due =
    simp (h.once, h.name)
      (timeout-IsIdle h.timer last spent s h.one_pending h.own (omega (arith, h.later)))
