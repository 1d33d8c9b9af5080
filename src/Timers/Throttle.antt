-- ===== src/Timers/Throttle.antt =====
-- What `setTimer`, `clearTimer` and `throttle` of assets/js/goradd.js schedule, and when.
use serve.Base.{
  ◌≡◌, refl, ◌≢◌, ap, ◌∙◌, ℕ, ◌+◌, ◌-◌, ◌≤◌, ◌<◌, max, String, eq_iff, eq_refl, true, false, List,
  [], ◌∷◌, ◌++◌, arith, if◌then◌else◌, ltb, Option-cases, inl, inr, none, some,
}
use serve.Base.Dict.{lookup, insert, lookup-insert, lookup-insert_self}
use serve.Timers.{
  Timers, has_timer, clear_timer, throttle, prev_time, set_timer, Timer, handle_of, drop_pending,
  pass, on_timeout, throttles, mark_start, mark_end, call_all, call, Pending,
}

due_lem : (now prev n : ℕ) → prev ≤ now → now + (n - (now - prev)) ≡ max now (prev + n)
due_lem now prev n h = omega arith

module _ {ℓ} {A : Type ℓ} where
  clear_timer_idle : (id : String) (s : Timers A) → has_timer id s ≡ false → clear_timer id s ≡ s
  unfolding has_timer clear_timer
  clear_timer_idle id s h = elim (Option-cases (lookup id s.table)) [
    | inl e ↦ rw (e, clear_timer)
    | inr (r, e) ↦ elim (Option-cases r.t) [
      | inl k ↦ rw (e, clear_timer, k)
      | inr (t, k) ↦ absurd (busy r t e k)
    ]
  ]
    where
      busy : (r : Timer) (t : ℕ) → lookup id s.table ≡ some r → r.t ≡ some t → ⊥
      busy r t e k = ground arith

  clear_timer_cases {κ} :
      (P : Timers A → Type κ) (id : String) (s : Timers A)
      → (handle_of id s.table ≡ none → P s)
      → ((r : Timer) (h : ℕ)
          → lookup id s.table ≡ some r
          → P (record s {
            pending = drop_pending h s.pending;
            table = insert id (record r { t = none }) s.table;
          }))
      → P (clear_timer id s)
  unfolding clear_timer
  clear_timer_cases P id s over ends = elim (Option-cases (lookup id s.table)) [
    | inl e ↦ rw (e, clear_timer) (over (rw (e, handle_of)))
    | inr (r, e) ↦ elim (Option-cases r.t) [
      | inl k ↦ rw (e, clear_timer, k) (over (rw (e, handle_of, k)))
      | inr (h, k) ↦ rw (e, clear_timer, k) (ends r h e)
    ]
  ]

  abbrev pub Cleared : String → String → Timers A → Timers A → Type 0
  Cleared id j s t =
      (has_timer id t ≡ false)
      × (id ≢ j → lookup j t.table ≡ lookup j s.table)
      × (prev_time id t ≡ prev_time id s)

  -- `clearTimer` ends the timer of its name, whatever was there, and touches no other entry;
  -- of the entry it keeps the history, when the function last started and whether it has ended.
  pub clear_timer_lem : (id j : String) (s : Timers A) → Cleared id j s (clear_timer id s)
  unfolding has_timer prev_time
  clear_timer_lem id j s =
      clear_timer_cases (Cleared id j s) id s (λ e. ground arith)
        (λ r h e. ground (
          arith,
          eq_iff id j,
          eq_refl id,
          lookup-insert id j (record r { t = none }) s.table,
          lookup-insert_self id (record r { t = none }) s.table,
        ))

  -- `throttle` does nothing while the name is scheduled. Otherwise it schedules one call of the
  -- function, at once if `minInterval` has passed since the function last started, and else at the
  -- moment when it has.
  pub throttle_lem :
      (id : String) (n : ℕ) (f : A) (s : Timers A)
      → (has_timer id s ≡ true → throttle id n f s ≡ s)
        × (has_timer id s ≡ false
            → prev_time id s ≤ s.now
            → (throttle id n f s).pending
              ≡ s.pending
                ++ record {
                  handle = s.next_handle;
                  id = id;
                  action = f;
                  due = max s.now (prev_time id s + n);
                  interval = n - (s.now - prev_time id s);
                  periodic = false;
                }
                  ∷ [])
  unfolding throttle set_timer
  throttle_lem id n f s = (
    λ h. rw h,
    λ h le. rw (h, clear_timer_idle id s h) (rw (due_lem s.now (prev_time id s) n le)),
  )

  throttle_after :
      (id : String) (n : ℕ) (f : A) (start : ℕ) (t : Timers A)
      → has_timer id t ≡ false
      → prev_time id t ≡ start
      → start ≤ t.now
      → (throttle id n f t).pending
        ≡ t.pending
          ++ record {
            handle = t.next_handle;
            id = id;
            action = f;
            due = max t.now (start + n);
            interval = n - (t.now - start);
            periodic = false;
          }
            ∷ []
  throttle_after id n f start t idle p le = rw (← p) ((throttle_lem id n f t).1 idle (rw p le))

  -- What `hasTimer` and `throttle` read of an entry that was just written.
  read-insert :
      (id : String) (r : Timer) (m : List (String × Timer)) (ps : List (Pending A)) (h now : ℕ)
      → r.t ≡ none
      → let t : Timers A = record {
        table = insert id r m;
        pending = ps;
        next_handle = h;
        now = now;
      } in
        (has_timer id t ≡ false) × (prev_time id t ≡ (if ltb 0 r.e then r.s else 0))
  unfolding has_timer prev_time
  read-insert id r m ps h now e = (
    rw (has_timer, handle_of, lookup-insert_self id r m, e),
    rw (prev_time, lookup-insert_self id r m),
  )

  -- What the end of a timeout leaves for `throttle` to read.
  pub ended :
      (id : String) (spent k : ℕ) (r : Timer) (s : Timers A)
      → lookup id s.table ≡ some r
      → 0 < s.now + spent
      → let t = pass k (on_timeout id [] spent s) in
        (has_timer id t ≡ false) × (prev_time id t ≡ s.now) × (t.now ≡ s.now + spent + k)
  unfolding on_timeout mark_start mark_end clear_timer call_all pass
  ended id spent k r s e h = elim (Option-cases r.t) [
    | inl o ↦
        simp (e, lookup-insert_self, o, mark_start, mark_end, clear_timer)
          (let r = read-insert id _ _ _ _ _ refl in (r.0, r.1 ∙ ground arith, refl))
    | inr (u, o) ↦
        simp (e, lookup-insert_self, o, mark_start, mark_end, clear_timer)
          (let r = read-insert id _ _ _ _ _ refl in (r.0, r.1 ∙ ground arith, refl))
  ]

  -- After a function that sets no timers has run from `s.now` on, the next `throttle` of its name
  -- schedules it no sooner than `minInterval` after that start.
  pub throttle_gap :
      (id : String) (n spent k : ℕ) (f : A) (r : Timer) (s : Timers A)
      → lookup id s.table ≡ some r
      → 0 < s.now + spent
      → let t = pass k (on_timeout id [] spent s) in
        (throttle id n f t).pending
        ≡ t.pending
          ++ record {
            handle = t.next_handle;
            id = id;
            action = f;
            due = max t.now (s.now + n);
            interval = n - (t.now - s.now);
            periodic = false;
          }
            ∷ []
  throttle_gap id n spent k f r s e h =
      let t = pass k (on_timeout id [] spent s) in
      let before = ended id spent k r s e h in
      throttle_after id n f s.now t before.0 before.1 (omega (arith, before.2))

  -- While a function runs for the first time, nothing tells when it started.
  started :
      (id : String) (r : Timer) (s : Timers A)
      → lookup id s.table ≡ some r
      → r.e ≡ 0
      → let t = clear_timer id (mark_start id s) in
        (has_timer id t ≡ false)
        × (prev_time id t ≡ 0)
        × (t.now ≡ s.now)
        × (t.next_handle ≡ s.next_handle)
  unfolding mark_start clear_timer
  started id r s e z = elim (Option-cases r.t) [
    | inl o ↦
        simp (e, lookup-insert_self, o, mark_start, clear_timer)
          (let r = read-insert id _ _ _ _ _ refl in (r.0, r.1 ∙ ground arith, refl, refl))
    | inr (u, o) ↦
        simp (e, lookup-insert_self, o, mark_start, clear_timer)
          (let r = read-insert id _ _ _ _ _ refl in (r.0, r.1 ∙ ground arith, refl, refl))
  ]

  pub mark_end-pending : (id : String) (s : Timers A) → (mark_end id s).pending ≡ s.pending
  unfolding mark_end
  mark_end-pending id s = ground arith

  -- A function that throttles itself while it runs for the first time is scheduled again at once:
  -- it has not ended, so its start does not count.
  pub throttle_reentrant :
      (id : String) (n spent : ℕ) (f : A) (r : Timer) (s : Timers A)
      → lookup id s.table ≡ some r
      → r.e ≡ 0
      → n ≤ s.now
      → (on_timeout id (throttles id n f ∷ []) spent s).pending
        ≡ (clear_timer id (mark_start id s)).pending
          ++ record {
            handle = s.next_handle;
            id = id;
            action = f;
            due = s.now;
            interval = 0;
            periodic = false;
          }
            ∷ []
  unfolding on_timeout pass call_all call
  throttle_reentrant id n spent f r s e z h =
      let before = started id r s e z in
      mark_end-pending id _
      ∙ throttle_after id n f 0 (clear_timer id (mark_start id s)) before.0 before.1 (omega arith)
      ∙ ap (λ p. (clear_timer id (mark_start id s)).pending ++ p ∷ []) (ground (arith, before))
