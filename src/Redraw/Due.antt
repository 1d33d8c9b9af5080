-- ===== src/Redraw/Due.antt =====
-- When the update that a message of the server leads to is due. `updateForm` of assets/js/goradd.js.
use serve.Base.{
  ◌≡◌, refl, sym, subst, ℕ, ◌+◌, ◌≤◌, String, true, false, List, [], ◌∷◌, ◌++◌, arith, Bool-cases,
  Option-cases, inl, inr,
}
use serve.Timers.{
  Timers, Pending, throttle, pass, fire, IsPending, first, later, has_timer, set_timer, clear_timer,
  on_timeout, call_all, mark_end, mark_start,
}
use serve.Timers.Throttle.{clear_timer_lem}
use serve.Timers.Owned.{handle_of-insert}
use serve.Base.Dict.{lookup, lookup-insert_self}
use serve.Redraw.{update_name}

-- Some timer is pending under the name of `updateForm`, due at a time or before.
pub record IsDue (time : ℕ) (s : Timers (Unit {0})) : Type 0 where
  pub timer : Pending (Unit {0})
  pub pending : IsPending timer s.pending
  pub name : timer.id ≡ update_name
  pub once : timer.periodic ≡ false
  pub soon : timer.due ≤ time
  pub set : has_timer update_name s ≡ true

-- An entry that says so has a timer, due within half a second.
abbrev pub IsPrompt : Timers (Unit {0}) → Type 0
IsPrompt s = has_timer update_name s ≡ true → IsDue (s.now + 500) s

IsPending-append :
    {p x : Pending (Unit {0})} (ps : List (Pending (Unit {0}))) → p ≡ x → IsPending p (ps ++ x ∷ [])
IsPending-append [] e = first e
IsPending-append (y ∷ ps) e = later (IsPending-append ps e)

clear_timer-now : (id : String) (s : Timers (Unit {0})) → (clear_timer id s).now ≡ s.now
unfolding clear_timer
clear_timer-now id s = elim (Option-cases (lookup id s.table)) [
  | inl e ↦ rw (e, clear_timer) refl
  | inr (r, e) ↦ elim (Option-cases r.t) [
    | inl k ↦ rw (e, clear_timer, k) refl
    | inr (h, k) ↦ rw (e, clear_timer, k) refl
  ]
]

set_timer-IsDue :
    (d : ℕ) (s : Timers (Unit {0}))
    → d ≤ 500
    → IsDue (s.now + 500) (set_timer update_name tt d false s)
unfolding set_timer has_timer
set_timer-IsDue d s h = record {
  timer = record {
    handle = (clear_timer update_name s).next_handle;
    id = update_name;
    action = tt;
    due = (clear_timer update_name s).now + d;
    interval = d;
    periodic = false;
  };
  pending = IsPending-append (clear_timer update_name s).pending refl;
  name = refl;
  once = refl;
  soon = omega (arith, clear_timer-now update_name s);
  set = rw (handle_of-insert update_name _ (clear_timer update_name s).table, has_timer) refl;
}

-- With the timer set, `throttle` waits for it; else it sets it.
pub throttle-IsDue :
    (s : Timers (Unit {0})) → IsPrompt s → IsDue (s.now + 500) (throttle update_name 500 tt s)
unfolding throttle
throttle-IsDue s h = elim (Bool-cases (has_timer update_name s)) [
  | inl set ↦ rw set (h set)
  | inr unset ↦ rw unset (set_timer-IsDue _ s (omega arith))
]

throttle-now : (s : Timers (Unit {0})) → (throttle update_name 500 tt s).now ≡ s.now
unfolding throttle set_timer
throttle-now s = elim (Bool-cases (has_timer update_name s)) [
  | inl set ↦ rw set refl
  | inr unset ↦ rw unset (clear_timer-now update_name s)
]

pub throttle-IsPrompt :
    (s : Timers (Unit {0})) → IsPrompt s → IsPrompt (throttle update_name 500 tt s)
throttle-IsPrompt s h e =
    subst (λ n. IsDue (n + 500) (throttle update_name 500 tt s)) (sym (throttle-now s))
      (throttle-IsDue s h)

-- Once the timer is set, further calls of `updateForm` leave all as it is.
pub throttle_set :
    (s : Timers (Unit {0})) → has_timer update_name s ≡ true → throttle update_name 500 tt s ≡ s
unfolding throttle
throttle_set s set = rw (set, throttle) refl

pub pass-IsDue : (n time : ℕ) (s : Timers (Unit {0})) → IsDue time s → IsDue time (pass n s)
unfolding pass has_timer
pass-IsDue n time s h = record {
  timer = h.timer;
  pending = h.pending;
  name = h.name;
  once = h.once;
  soon = h.soon;
  set = h.set;
}

IsDue-mono : {time later : ℕ} (s : Timers (Unit {0})) → time ≤ later → IsDue time s → IsDue later s
IsDue-mono s le h = record {
  timer = h.timer;
  pending = h.pending;
  name = h.name;
  once = h.once;
  soon = omega (arith, h.soon);
  set = h.set;
}

pub pass-IsPrompt : (n : ℕ) (s : Timers (Unit {0})) → IsPrompt s → IsPrompt (pass n s)
unfolding pass has_timer
pass-IsPrompt n s h e = IsDue-mono (pass n s) (omega arith) (pass-IsDue n (s.now + 500) s (h e))

mark_end-unset :
    (id : String) (s : Timers (Unit {0}))
    → has_timer id s ≡ false
    → has_timer id (mark_end id s) ≡ false
unfolding mark_end has_timer
mark_end-unset id s h = elim (Option-cases (lookup id s.table)) [
  | inl e ↦ ground (arith, e, h)
  | inr (r, e) ↦ ground (arith, e, h, lookup-insert_self id (record r { e = s.now }) s.table)
]

pass-unset :
    (id : String) (n : ℕ) (s : Timers (Unit {0}))
    → has_timer id s ≡ false
    → has_timer id (pass n s) ≡ false
unfolding pass has_timer
pass-unset id n s h = h

-- A timeout that has fired is no longer set.
fire-unset_own :
    (p : Pending (Unit {0})) (spent : ℕ) (s : Timers (Unit {0}))
    → p.periodic ≡ false
    → has_timer p.id (fire p [] spent s) ≡ false
unfolding fire on_timeout call_all
fire-unset_own p spent s once = simp once (
    mark_end-unset p.id _
      (pass-unset p.id spent _ (clear_timer_lem p.id p.id (mark_start p.id _)).0))

pub fire-unset :
    (p : Pending (Unit {0})) (spent : ℕ) (s : Timers (Unit {0}))
    → p.periodic ≡ false
    → p.id ≡ update_name
    → has_timer update_name (fire p [] spent s) ≡ false
fire-unset p spent s once name =
    subst (λ id. has_timer id (fire p [] spent s) ≡ false) name (fire-unset_own p spent s once)
