-- ===== src/Timers/Owned.antt =====
-- Who owns the browser's timers that assets/js/goradd.js sets: each belongs to a name.
use serve.Base.{
  refl, ◌≡◌, ℕ, String, false, List, [], ◌∷◌, arith, All, some, eq_iff, str_eq, none, Option-cases,
  Bool, All-append, Bool-cases, inl, inr,
}
use serve.Base.Dict.{lookup, insert, lookup-insert, lookup-insert_self}
use serve.Timers.{
  here, Timer, Pending, Timers, handle_of, drop_pending, clear_timer, set_timer, call, call_all,
  mark_start, mark_end, restart, on_timeout, fire, pass, Reach, throttle, Call, Step, sets, passes,
  next, clears, calls, throttles, fires, has_timer,
}

pub handle_of-insert :
    (id : String) (r : Timer) (table : List (String × Timer))
    → handle_of id (insert id r table) ≡ r.t
handle_of-insert id r table = rw (lookup-insert_self id r table, handle_of)

module _ {ℓ} {A : Type ℓ} where
  -- A timer of the browser is the one that the entry under its name holds the handle of.
  abbrev pub Belongs : List (String × Timer) → Pending A → Type 0
  Belongs table p = handle_of p.id table ≡ some p.handle

  abbrev pub Owned : Timers A → Type 0
  Owned s = All (Belongs s.table) s.pending

  -- Some timer under `id` is pending.
  abbrev pub NonePending : String → List (Pending A) → Type 0
  NonePending id ps = All (λ p. str_eq p.id id ≡ false) ps

  -- An entry that keeps its handle keeps what it owns.
  keep-Owned :
      (id : String) (r r' : Timer) (table : List (String × Timer)) (ps : List (Pending A))
      → lookup id table ≡ some r
      → r'.t ≡ r.t
      → All (Belongs table) ps
      → All (Belongs (insert id r' table)) ps
  keep-Owned id r r' table [] e k h = tt
  keep-Owned id r r' table (p ∷ ps) e k h = (
    ground (arith, lookup-insert id p.id r' table, eq_iff id p.id, h.0),
    keep-Owned id r r' table ps e k h.1,
  )

  clear-pending :
      (id : String) (h : ℕ) (r r' : Timer) (table : List (String × Timer)) (ps : List (Pending A))
      → lookup id table ≡ some r
      → r.t ≡ some h
      → All (Belongs table) ps
      → All (Belongs (insert id r' table)) (drop_pending h ps) × NonePending id (drop_pending h ps)
  unfolding drop_pending
  clear-pending id h r r' table [] e k o = (tt, tt)
  clear-pending id h r r' table (p ∷ ps) e k o = ground (
    arith,
    lookup-insert id p.id r' table,
    eq_iff id p.id,
    eq_iff p.id id,
    clear-pending id h r r' table ps e k o.1,
  )

  none_pending :
      (id : String) (table : List (String × Timer)) (ps : List (Pending A))
      → handle_of id table ≡ none
      → All (Belongs table) ps
      → NonePending id ps
  none_pending id table [] e o = tt
  none_pending id table (p ∷ ps) e o =
      (ground (arith, eq_iff p.id id, o.0), none_pending id table ps e o.1)

  -- After `clearTimer` nothing is pending under the name, and the rest still belongs.
  clear_timer-Owned :
      (id : String) (s : Timers A)
      → Owned s
      → Owned (clear_timer id s) × NonePending id (clear_timer id s).pending
  unfolding clear_timer
  clear_timer-Owned id s o = elim (Option-cases (lookup id s.table)) [
    | inl e ↦ rw (e, clear_timer) (o, none_pending id s.table s.pending (rw (e, handle_of)) o)
    | inr (r, e) ↦ elim (Option-cases r.t) [
      | inl k ↦
          rw (e, clear_timer, k) (o, none_pending id s.table s.pending (rw (e, handle_of, k)) o)
      | inr (h, k) ↦ rw (e, clear_timer, k) (clear-pending id h r _ s.table s.pending e k o)
    ]
  ]

  insert-Owned :
      (id : String) (r : Timer) (table : List (String × Timer)) (ps : List (Pending A))
      → NonePending id ps
      → All (Belongs table) ps
      → All (Belongs (insert id r table)) ps
  insert-Owned id r table [] n o = tt
  insert-Owned id r table (p ∷ ps) n o = (
    ground (arith, lookup-insert id p.id r table, eq_iff id p.id, eq_iff p.id id, n.0, o.0),
    insert-Owned id r table ps n.1 o.1,
  )

  set_timer-Owned :
      (id : String) (a : A) (d : ℕ) (b : Bool) (s : Timers A)
      → Owned s
      → Owned (set_timer id a d b s)
  unfolding set_timer
  set_timer-Owned id a d b s o =
      let cleared = clear_timer-Owned id s o in
      All-append (Belongs (set_timer id a d b s).table) _ _
        (insert-Owned id _ _ _ cleared.1 cleared.0)
        (handle_of-insert id _ (clear_timer id s).table, tt)

  call-Owned : (c : Call A) (s : Timers A) → Owned s → Owned (call c s)
  unfolding call throttle
  call-Owned (sets id a d b) s o = set_timer-Owned id a d b s o
  call-Owned (clears id) s o = (clear_timer-Owned id s o).0
  call-Owned (throttles id n a) s o = elim (Bool-cases (has_timer id s)) [
    | inl e ↦ rw e o
    | inr e ↦ rw e (set_timer-Owned id a _ false s o)
  ]

  call_all-Owned : (cs : List (Call A)) (s : Timers A) → Owned s → Owned (call_all cs s)
  unfolding call_all
  call_all-Owned [] s o = o
  call_all-Owned (c ∷ cs) s o = call_all-Owned cs _ (call-Owned c s o)

  mark_start-Owned : (id : String) (s : Timers A) → Owned s → Owned (mark_start id s)
  unfolding mark_start
  mark_start-Owned id s o = elim (Option-cases (lookup id s.table)) [
    | inl e ↦ rw (e, mark_start) o
    | inr (r, e) ↦ rw (e, mark_start) (keep-Owned id r _ s.table s.pending e refl o)
  ]

  mark_end-Owned : (id : String) (s : Timers A) → Owned s → Owned (mark_end id s)
  unfolding mark_end
  mark_end-Owned id s o = elim (Option-cases (lookup id s.table)) [
    | inl e ↦ rw (e, mark_end) o
    | inr (r, e) ↦ rw (e, mark_end) (keep-Owned id r _ s.table s.pending e refl o)
  ]

  drop-Owned :
      (h : ℕ) (table : List (String × Timer)) (ps : List (Pending A))
      → All (Belongs table) ps
      → All (Belongs table) (drop_pending h ps)
  unfolding drop_pending
  drop-Owned h table [] o = tt
  drop-Owned h table (p ∷ ps) o = ground (arith, drop-Owned h table ps o.1)

  restart-Owned :
      (h now : ℕ) (table : List (String × Timer)) (ps : List (Pending A))
      → All (Belongs table) ps
      → All (Belongs table) (restart h now ps)
  unfolding restart
  restart-Owned h now table [] o = tt
  restart-Owned h now table (p ∷ ps) o = (ground arith, restart-Owned h now table ps o.1)

  on_timeout-Owned :
      (id : String) (cs : List (Call A)) (spent : ℕ) (s : Timers A)
      → Owned s
      → Owned (on_timeout id cs spent s)
  unfolding on_timeout pass
  on_timeout-Owned id cs spent s o =
      mark_end-Owned id _ (call_all-Owned cs _ (clear_timer-Owned id _ (mark_start-Owned id s o)).0)

  fire-Owned :
      (p : Pending A) (cs : List (Call A)) (spent : ℕ) (s : Timers A)
      → Owned s
      → Owned (fire p cs spent s)
  unfolding fire pass
  fire-Owned p cs spent s o = elim (Bool-cases p.periodic) [
    | inl e ↦ rw e (call_all-Owned cs _ (restart-Owned p.handle s.now s.table s.pending o))
    | inr e ↦ rw e (on_timeout-Owned p.id cs spent _ (drop-Owned p.handle s.table s.pending o))
  ]

  Step-Owned : {s t : Timers A} → Step s t → Owned s → Owned t
  unfolding pass
  Step-Owned (passes n s) o = o
  Step-Owned (calls c s) o = call-Owned c s o
  Step-Owned (fires p cs spent s m d) o = fire-Owned p cs spent s o

  -- In every history each timer that the browser has pending is the one whose handle the entry
  -- under its name holds, so that no timer is ever out of reach of `clearTimer`.
  pub Reach-Owned : {s t : Timers A} → Owned s → Reach s t → Owned t
  Reach-Owned o here = o
  Reach-Owned o (next r st) = Step-Owned st (Reach-Owned o r)
