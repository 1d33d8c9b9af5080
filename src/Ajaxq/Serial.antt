-- ===== src/Ajaxq/Serial.antt =====
-- How many requests `goradd.ajaxq` of assets/js/goradd.js has in flight at once.
use serve.Base.{
  ◌≡◌, ◌≢◌, ap, ℕ, suc, ◌+◌, ◌≤◌, String, Bool, true, false, List, [], ◌∷◌, ◌++◌, arith, ◌==◌,
  Bool-cases, inl, inr, length, length-append,
}
use serve.Ajaxq.{
  Ajaxq, Event, posts, changes, errs, times_out, Reply, do1, dequeue, enqueue, enqueue_all, tell,
  settle, escapes, complete_queue, is_idle, is_running, release_request, delete_request, advance,
  on_ready_state_change, on_error, on_timeout, step, run,
}

module _ {ℓ} {F : Type ℓ} where
  -- None of the calls of `enqueue` asks for a launch right away.
  abbrev pub NoAsync : List (F × Bool) → Type 0
  NoAsync [] = Unit
  NoAsync ((f, b) ∷ calls) = (b ≡ false) × NoAsync calls

  -- A page that posts no asynchronous request, whose `ajaxQueueComplete` handlers post one request
  -- at most; and a browser that reports the end of the one request in flight.
  abbrev pub IsCalm : Event F → Ajaxq F → Type ℓ
  IsCalm (posts f b) s = Unit × (b ≡ false)
  IsCalm (changes id r calls finals) s =
      NoAsync calls × NoAsync finals × (length finals ≤ 1) × ((f : F) × (s.current ≡ (id, f) ∷ []))
  IsCalm (errs id calls) s = Unit × NoAsync calls
  IsCalm (times_out id calls) s = Unit × NoAsync calls

  abbrev pub AreCalm : (String → Bool) → List (Event F) → Ajaxq F → Type ℓ
  AreCalm parses [] s = Unit
  AreCalm parses (e ∷ es) s = IsCalm e s × AreCalm parses es (step parses e s)

  abbrev pub in_flight : Ajaxq F → ℕ
  in_flight s = length s.current

  -- While a request is in flight, a function that is to wait is only put in the queue.
  pub enqueue_waits :
      (f : F) (s : Ajaxq F)
      → is_running s ≡ true
      → enqueue f false s ≡ record s { q = s.q ++ f ∷ [] }
  unfolding enqueue
  enqueue_waits f s h = rw h

  pub running_of : {r : ℕ × F} (s : Ajaxq F) → s.current ≡ r ∷ [] → is_running s ≡ true
  unfolding is_running
  running_of s h = ground arith

  enqueue_all-current :
      (calls : List (F × Bool)) {r : ℕ × F} (s : Ajaxq F)
      → NoAsync calls
      → s.current ≡ r ∷ []
      → (enqueue_all calls s).current ≡ r ∷ []
  unfolding enqueue_all
  enqueue_all-current [] s n h = h
  enqueue_all-current ((f, true) ∷ calls) s n h = cc
  enqueue_all-current ((f, false) ∷ calls) s n h =
      enqueue_all-current calls (enqueue f false s) n.1 (rw (enqueue_waits f s (running_of s h)) h)

  dequeue-in_flight : (s : Ajaxq F) → in_flight (dequeue s) ≤ in_flight s + 1
  unfolding dequeue do1
  dequeue-in_flight s = from s.q
    where
      from : (q : List F) → in_flight (dequeue (record s { q = q })) ≤ in_flight s + 1
      from [] = omega arith
      from (f ∷ q) = omega (arith, length-append s.current ((suc s.id_counter, f) ∷ []))

  idle-in_flight : (s : Ajaxq F) → is_running s ≡ false → in_flight s ≡ 0
  unfolding is_running
  idle-in_flight s h = ground arith

  -- With nothing in flight and nothing waiting it is sent.
  enqueue-idle-in_flight :
      (f : F) (s : Ajaxq F) → is_running s ≡ false → in_flight (enqueue f false s) ≤ 1
  unfolding enqueue is_running
  enqueue-idle-in_flight f s h =
      rw (enqueue, h)
        (omega (arith, dequeue-in_flight (record s { q = s.q ++ f ∷ [] }), idle-in_flight s h))

  enqueue-in_flight : (f : F) (s : Ajaxq F) → in_flight s ≤ 1 → in_flight (enqueue f false s) ≤ 1
  enqueue-in_flight f s h = elim (Bool-cases (is_running s)) [
    | inl busy ↦ rw (enqueue_waits f s busy) h
    | inr free ↦ enqueue-idle-in_flight f s free
  ]

  enqueue_all-in_flight :
      (calls : List (F × Bool)) (s : Ajaxq F)
      → NoAsync calls
      → in_flight s ≤ 1
      → in_flight (enqueue_all calls s) ≤ 1
  unfolding enqueue_all
  enqueue_all-in_flight [] s n h = h
  enqueue_all-in_flight ((f, true) ∷ calls) s n h = cc
  enqueue_all-in_flight ((f, false) ∷ calls) s n h =
      enqueue_all-in_flight calls _ n.1 (enqueue-in_flight f s h)

  -- The handlers of a complete queue send one request at most, and leave none waiting.
  complete-Settled :
      (finals : List (F × Bool)) (s : Ajaxq F)
      → s.q ≡ []
      → s.current ≡ []
      → NoAsync finals
      → length finals ≤ 1
      → in_flight (dequeue (complete_queue finals s)) ≤ 1
  unfolding complete_queue enqueue_all dequeue enqueue is_running do1
  complete-Settled [] s e k n h = rw (e, dequeue, k) (omega arith)
  complete-Settled ((f, false) ∷ []) s e k n h = rw (k, e) (omega arith)
  complete-Settled ((f, true) ∷ []) s e k n h = cc
  complete-Settled (_ ∷ _ ∷ _) s e k n h = absurd (omega arith)

  idle-q : (s : Ajaxq F) → is_idle s ≡ true → s.q ≡ []
  unfolding is_idle
  idle-q s h = ground arith

  advance-in_flight :
      (finals : List (F × Bool)) (s : Ajaxq F)
      → s.current ≡ []
      → NoAsync finals
      → length finals ≤ 1
      → in_flight (advance finals s) ≤ 1
  unfolding advance
  advance-in_flight finals s k n h = elim (Bool-cases (is_idle s)) [
    | inl idle ↦ rw idle (complete-Settled finals s (idle-q s idle) k n h)
    | inr busy ↦ rw busy (omega (arith, dequeue-in_flight s, ap (length {A = ℕ × F}) k))
  ]

  delete_only : (id : ℕ) (f : F) → delete_request id ((id, f) ∷ []) ≡ []
  unfolding delete_request
  delete_only id f = ground arith

  step-in_flight :
      (parses : String → Bool) (e : Event F) (s : Ajaxq F)
      → IsCalm e s
      → in_flight s ≤ 1
      → in_flight (step parses e s) ≤ 1
  unfolding step on_ready_state_change on_error on_timeout tell release_request
  step-in_flight parses (posts f b) s (_, c) h = rw c (enqueue-in_flight f s h)
  step-in_flight parses (changes id r calls finals) s (n, m, l, (f, k)) h =
      elim (Bool-cases (r.ready_state == 4)) [
        | inl done ↦
            let still = enqueue_all-current calls (tell id (settle parses r) s) n k in
            elim (Bool-cases (escapes parses r)) [
              | inl out ↦ rw (done, out) (omega (arith, ap (length {A = ℕ × F}) still))
              | inr goes_on ↦
                  rw (done, goes_on)
                    (advance-in_flight finals _ (rw (still) (delete_only id f)) m l)
            ]
        | inr not_yet ↦ rw not_yet h
      ]
  step-in_flight parses (errs id calls) s c h = enqueue_all-in_flight calls _ c.1 h
  step-in_flight parses (times_out id calls) s c h = enqueue_all-in_flight calls _ c.1 h

  -- In a history with no asynchronous post, in which the handlers of `ajaxQueueComplete` post one
  -- request at most, and in which ready state 4 is reached only by the request in flight, there is
  -- never more than one request in flight.
  pub run-in_flight :
      (parses : String → Bool) (es : List (Event F)) (s : Ajaxq F)
      → AreCalm parses es s
      → in_flight s ≤ 1
      → in_flight (run parses es s) ≤ 1
  unfolding run
  run-in_flight parses [] s c h = h
  run-in_flight parses (e ∷ es) s c h =
      run-in_flight parses es _ c.1 (step-in_flight parses e s c.0 h)

  -- With two requests in flight, as after an asynchronous post beside a queued one, the end of the
  -- first sends the next waiting function, although the second has not ended.
  pub dequeue_overlaps :
      (parses : String → Bool) (i j : ℕ) (f g h : F) (rest : List F) (r : Reply)
      (finals : List (F × Bool)) (s : Ajaxq F)
      → r.ready_state ≡ 4
      → escapes parses r ≡ false
      → i ≢ j
      → s.current ≡ (i, f) ∷ (j, g) ∷ []
      → s.q ≡ h ∷ rest
      → let t = on_ready_state_change parses i r [] finals s in
        (t.current ≡ (j, g) ∷ (suc s.id_counter, h) ∷ []) × (t.q ≡ rest)
  unfolding on_ready_state_change advance is_idle dequeue do1 release_request tell enqueue_all
      delete_request
  dequeue_overlaps parses i j f g h rest r finals s ready done ne k e = ground arith

  -- When the last request ends and the handlers of `ajaxQueueComplete` post two functions to wait
  -- their turn, both are sent at once.
  pub complete_overlaps :
      (parses : String → Bool) (i : ℕ) (f g h : F) (r : Reply) (s : Ajaxq F)
      → r.ready_state ≡ 4
      → escapes parses r ≡ false
      → s.current ≡ (i, f) ∷ []
      → s.q ≡ []
      → (on_ready_state_change parses i r [] ((g, false) ∷ (h, false) ∷ []) s).current
        ≡ (s.id_counter + 1, g) ∷ (s.id_counter + 2, h) ∷ []
  unfolding on_ready_state_change advance is_idle dequeue do1 release_request tell enqueue_all
      delete_request enqueue is_running complete_queue
  complete_overlaps parses i f g h r s ready done k e = ground arith
