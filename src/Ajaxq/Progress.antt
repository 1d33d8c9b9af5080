-- ===== src/Ajaxq/Progress.antt =====
-- That the queue of `goradd.ajaxq`, assets/js/goradd.js, drains once its requests are answered.
use serve.Base.{
  All, ◌≡◌, refl, ℕ, suc, ◌+◌, ◌≤◌, ◌<◌, String, Bool, true, false, List, [], ◌∷◌, ◌++◌, append-nil,
  append_assoc, arith, ◌==◌, Bool-cases, inl, inr, ◌⊎◌, length, length-append, ==_iff, ◌∙◌,
  nil_of_length,
}
use serve.Ajaxq.{
  Ajaxq, Callback, Event, escapes, posts, changes, errs, times_out, Reply, do1, dequeue, enqueue,
  enqueue_all, tell, complete_queue, is_idle, is_running, release_request, delete_request, advance,
  on_ready_state_change, on_error, on_timeout, step, run,
}

-- The end of a request, at which no exception escapes.
abbrev pub IsAnswer : (String → Bool) → Reply → Type 0
IsAnswer parses r = (r.ready_state ≡ 4) × (escapes parses r ≡ false)

module _ {ℓ} {F : Type ℓ} where
  -- If something waits, some request is in flight.
  abbrev pub IsLive : Ajaxq F → Type ℓ
  IsLive s = (s.q ≡ []) ⊎ (is_running s ≡ true)

  do1-running : (f : F) (s : Ajaxq F) → is_running (do1 f s) ≡ true
  unfolding do1 is_running
  do1-running f s = from s.current
    where
      from :
          (rs : List (ℕ × F))
          → elim (rs ++ (suc s.id_counter, f) ∷ []) as (λ _. Bool) [ [] ↦ false | _ ∷ _ ↦ true ]
            ≡ true
      from [] = refl
      from (r ∷ rs) = refl

  dequeue-IsLive : (s : Ajaxq F) → IsLive (dequeue s)
  unfolding dequeue
  dequeue-IsLive s = from s.q
    where
      from : (q : List F) → IsLive (dequeue (record s { q = q }))
      from [] = inl refl
      from (f ∷ q) = inr (do1-running f _)

  push-running :
      (q : List F) (s : Ajaxq F) → is_running s ≡ true → is_running (record s { q = q }) ≡ true
  unfolding is_running
  push-running q s h = h

  dequeue-running :
      (q : List F) (f : F) (s : Ajaxq F)
      → is_running (dequeue (record s { q = q ++ f ∷ [] })) ≡ true
  unfolding dequeue
  dequeue-running [] f s = do1-running f _
  dequeue-running (g ∷ q) f s = do1-running g _

  -- After any `enqueue` something is in flight.
  pub enqueue-running : (f : F) (b : Bool) (s : Ajaxq F) → is_running (enqueue f b s) ≡ true
  unfolding enqueue
  enqueue-running f true s = do1-running f s
  enqueue-running f false s = elim (Bool-cases (is_running s)) [
    | inl busy ↦ rw busy (push-running _ s busy)
    | inr free ↦ rw free (dequeue-running s.q f s)
  ]

  enqueue_all-IsLive :
      (calls : List (F × Bool)) (s : Ajaxq F) → IsLive s → IsLive (enqueue_all calls s)
  unfolding enqueue_all
  enqueue_all-IsLive [] s h = h
  enqueue_all-IsLive ((f, b) ∷ calls) s h = enqueue_all-IsLive calls _ (inr (enqueue-running f b s))

  -- Every event keeps the queue live.
  pub step-IsLive :
      (parses : String → Bool) (e : Event F) (s : Ajaxq F) → IsLive s → IsLive (step parses e s)
  unfolding step on_ready_state_change on_error on_timeout tell advance is_running
  step-IsLive parses (posts f b) s h = inr (enqueue-running f b s)
  step-IsLive parses (changes id r calls finals) s h = elim (Bool-cases (r.ready_state == 4)) [
    | inl done ↦ elim (Bool-cases (escapes parses r)) [
      | inl out ↦ rw (done, out) (enqueue_all-IsLive calls _ h)
      | inr goes_on ↦ rw (done, goes_on) (dequeue-IsLive _)
    ]
    | inr not_yet ↦ rw not_yet h
  ]
  step-IsLive parses (errs id calls) s h = enqueue_all-IsLive calls _ h
  step-IsLive parses (times_out id calls) s h = enqueue_all-IsLive calls _ h

  -- In no history does a function wait in the queue with no request in flight.
  pub run-IsLive :
      (parses : String → Bool) (es : List (Event F)) (s : Ajaxq F)
      → IsLive s
      → IsLive (run parses es s)
  unfolding run
  run-IsLive parses [] s h = h
  run-IsLive parses (e ∷ es) s h = run-IsLive parses es _ (step-IsLive parses e s h)

  -- The oldest request in flight gets its reply, and the page posts nothing more.
  unfoldable pub answer : (String → Bool) → Reply → Ajaxq F → Ajaxq F
  answer parses r s = elim s.current [
    | [] ↦ s
    | (id, f) ∷ _ ↦ on_ready_state_change parses id r [] [] s
  ]

  -- ... and so on, each with a reply of its own
  unfoldable pub answer_all : (String → Bool) → List Reply → Ajaxq F → Ajaxq F
  answer_all parses [] s = s
  answer_all parses (r ∷ rs) s = answer_all parses rs (answer parses r s)

  abbrev pub load : Ajaxq F → ℕ
  load s = length s.q + length s.current

  -- Everything sent or still waiting, in order.
  abbrev pub all_of : Ajaxq F → List F
  all_of s = s.sent ++ s.q

  length-delete : (id : ℕ) (rs : List (ℕ × F)) → length (delete_request id rs) ≤ length rs
  unfolding delete_request
  length-delete id [] = omega arith
  length-delete id ((i, f) ∷ rs) = ground (arith, length-delete id rs)

  length-delete_head :
      (id : ℕ) (f : F) (rs : List (ℕ × F))
      → length (delete_request id ((id, f) ∷ rs)) < length ((id, f) ∷ rs)
  unfolding delete_request
  length-delete_head id f rs = ground (arith, length-delete id rs)

  -- `_dequeue` moves a function from the queue to the requests in flight.
  pub dequeue_moves : (s : Ajaxq F) → (load (dequeue s) ≡ load s) × (all_of (dequeue s) ≡ all_of s)
  unfolding dequeue do1
  dequeue_moves s = from s.q
    where
      from :
          (q : List F)
          → (load (dequeue (record s { q = q })) ≡ load (record s { q = q }))
            × (all_of (dequeue (record s { q = q })) ≡ all_of (record s { q = q }))
      from [] = (refl, refl)
      from (f ∷ q) = (
        omega (arith, length-append s.current ((suc s.id_counter, f) ∷ [])),
        append_assoc s.sent (f ∷ []) q,
      )

  advance_moves :
      (s : Ajaxq F) → (load (advance [] s) ≡ load s) × (all_of (advance [] s) ≡ all_of s)
  unfolding advance complete_queue enqueue_all
  advance_moves s = elim (Bool-cases (is_idle s)) [
    | inl idle ↦ rw idle (dequeue_moves _)
    | inr busy ↦ rw busy (dequeue_moves s)
  ]

  answered :
      (id : ℕ) (f : F) (rs : List (ℕ × F)) (told : List (ℕ × Callback)) (s : Ajaxq F)
      → let t = advance [] (record s { current = delete_request id ((id, f) ∷ rs); told = told }) in
        (load t < length s.q + length ((id, f) ∷ rs)) × (all_of t ≡ all_of s)
  answered id f rs told s = (omega (arith, moved.0, length-delete_head id f rs), moved.1)
    where
      t : Ajaxq F
      t = record s { current = delete_request id ((id, f) ∷ rs); told = told }

      moved : (load (advance [] t) ≡ load t) × (all_of (advance [] t) ≡ all_of t)
      moved = advance_moves t

  answer_lem :
      (parses : String → Bool) (r : Reply) (s : Ajaxq F)
      → IsAnswer parses r
      → is_running s ≡ true
      → (load (answer parses r s) < load s) × (all_of (answer parses r s) ≡ all_of s)
  unfolding answer on_ready_state_change is_running tell release_request enqueue_all
  answer_lem parses r s (ready, goes_on) running = from s.current running
    where
      from :
          (rs : List (ℕ × F))
          → is_running (record s { current = rs }) ≡ true
          → (load (answer parses r (record s { current = rs })) < load (record s { current = rs }))
            × (all_of (answer parses r (record s { current = rs })) ≡ all_of s)
      from [] e = cc
      from ((id, f) ∷ rs) e = rw ((==_iff _ _).1 ready, goes_on) (answered id f rs _ s)

  answer-IsLive :
      (parses : String → Bool) (r : Reply) (s : Ajaxq F) → IsLive s → IsLive (answer parses r s)
  unfolding answer on_ready_state_change step
  answer-IsLive parses r s h = from s.current h
    where
      from :
          (rs : List (ℕ × F))
          → IsLive (record s { current = rs })
          → IsLive (answer parses r (record s { current = rs }))
      from [] h = h
      from ((id, f) ∷ rs) h = step-IsLive parses (changes id r [] []) _ h

  answer_idle :
      (parses : String → Bool) (r : Reply) (s : Ajaxq F)
      → is_running s ≡ false
      → answer parses r s ≡ s
  unfolding answer is_running
  answer_idle parses r s h = from s.current h
    where
      from :
          (rs : List (ℕ × F))
          → is_running (record s { current = rs }) ≡ false
          → answer parses r (record s { current = rs }) ≡ record s { current = rs }
      from [] h = refl
      from (_ ∷ rs) h = cc

  idle-load : (s : Ajaxq F) → IsLive s → is_running s ≡ false → load s ≤ 0
  unfolding is_running
  idle-load s h idle = ground arith

  -- If requests in flight are answered, the oldest first, each with a reply of its own, whatever it
  -- is, for which no exception of `error` escapes, if whatever waits at the start waits for a request
  -- in flight, and the page posts nothing more, then after as many replies as there are functions
  -- waiting and requests in flight both are empty, and what was waiting has been sent, in order.
  pub answer_all_drains :
      (parses : String → Bool) (rs : List Reply) (s : Ajaxq F)
      → All (IsAnswer parses) rs
      → IsLive s
      → load s ≤ length rs
      → let t = answer_all parses rs s in (t.q ≡ []) × (t.current ≡ []) × (t.sent ≡ s.sent ++ s.q)
  unfolding answer_all
  answer_all_drains parses [] s answers h k =
      let empty : s.q ≡ [] = nil_of_length s.q (omega arith) in
      (empty, nil_of_length s.current (omega arith), rw (empty, append-nil s.sent))
  answer_all_drains parses (r ∷ rs) s answers h k = elim (Bool-cases (is_running s)) [
    | inl running ↦
        let moved = answer_lem parses r s answers.0 running in
        let rest =
          answer_all_drains parses rs (answer parses r s) answers.1 (answer-IsLive parses r s h)
            (omega (arith, moved.0)) in
        (rest.0, rest.1, rest.2 ∙ moved.1)
    | inr idle ↦
        rw (answer_all, answer_idle parses r s idle)
          (answer_all_drains parses rs s answers.1 h (omega (arith, idle-load s h idle)))
  ]
