-- ===== src/Ajaxq/Order.antt =====
-- In which order `goradd.ajaxq` of assets/js/goradd.js sends the requests that wait their turn.
use serve.Base.{
  ◌≡◌, refl, sym, String, Bool, true, false, not, ◌&&◌, List, [], ◌∷◌, ◌++◌, append-nil,
  append_assoc, arith, if◌then◌else◌, ◌==◌, All, All-append, keep_if, keep_if-append, Bool-cases,
  inl, inr,
}
use serve.Ajaxq.{
  Ajaxq, Event, posts, changes, errs, times_out, start, do1, dequeue, enqueue, enqueue_all, tell,
  settle, escapes, complete_queue, is_idle, is_running, release_request, advance,
  on_ready_state_change, on_error, on_timeout, step, run,
}

module _ {ℓ} {F : Type ℓ} where
  -- Of some calls of `enqueue`, the functions that are to wait their turn.
  abbrev pub waiting : List (F × Bool) → List F
  waiting [] = []
  waiting ((f, b) ∷ calls) = if b then waiting calls else f ∷ waiting calls

  module _ (parses : String → Bool) where
    -- The calls of `enqueue` that come about in one event, those that are to wait.
    abbrev pub arrivals : Event F → Ajaxq F → List F
    arrivals (posts f b) s = waiting ((f, b) ∷ [])
    arrivals (changes id r calls finals) s =
        if r.ready_state == 4
        then waiting calls
          ++ (let t = enqueue_all calls (tell id (settle parses r) s) in
              if not (escapes parses r) && is_idle (release_request id t)
              then waiting finals
              else [])
        else []
    arrivals (errs id calls) s = waiting calls
    arrivals (times_out id calls) s = waiting calls

    abbrev pub arrived : List (Event F) → Ajaxq F → List F
    arrived [] s = []
    arrived (e ∷ es) s = arrivals e s ++ arrived es (step parses e s)

  module _ (mode : F → Bool) where
    -- The flag that a function is posted with belongs to it.
    abbrev pub Marked : List (F × Bool) → Type 0
    Marked [] = Unit
    Marked ((f, b) ∷ calls) = (b ≡ mode f) × Marked calls

    abbrev pub MarkedEvent : Event F → Type 0
    MarkedEvent (posts f b) = b ≡ mode f
    MarkedEvent (changes id r calls finals) = Marked calls × Marked finals
    MarkedEvent (errs id calls) = Marked calls
    MarkedEvent (times_out id calls) = Marked calls

    -- What was sent in turn, then what still waits.
    abbrev pub lane : Ajaxq F → List F
    lane s = keep_if (λ f. not (mode f)) s.sent ++ s.q

    module _ (base : List F) where
      record IsLane (s : Ajaxq F) : Type ℓ where
        in_order : lane s ≡ base
        in_turn : All (λ f. mode f ≡ false) s.q

    keep-marked :
        (f : F) (fs : List F)
        → mode f ≡ true
        → keep_if (λ g. not (mode g)) (fs ++ f ∷ []) ≡ keep_if (λ g. not (mode g)) fs
    keep-marked f fs m = ground (
      arith,
      keep_if-append (λ g. not (mode g)) fs (f ∷ []),
      append-nil (keep_if (λ g. not (mode g)) fs),
    )

    keep-waiting :
        (f : F) (fs : List F)
        → mode f ≡ false
        → keep_if (λ g. not (mode g)) (fs ++ f ∷ []) ≡ keep_if (λ g. not (mode g)) fs ++ f ∷ []
    keep-waiting f fs m = ground (arith, keep_if-append (λ g. not (mode g)) fs (f ∷ []))

    -- What starts at once leaves the lane alone.
    do1-IsLane :
        (f : F) (b : List F) (s : Ajaxq F) → mode f ≡ true → IsLane b s → IsLane b (do1 f s)
    unfolding do1
    do1-IsLane f b s m h = record {
      in_order = rw (keep-marked f s.sent m) h.in_order;
      in_turn = h.in_turn;
    }

    take_next-IsLane :
        (f : F) (q b : List F) (s : Ajaxq F)
        → IsLane b (record s { q = f ∷ q })
        → IsLane b (do1 f (record s { q = q }))
    unfolding do1
    take_next-IsLane f q b s h = record {
      in_order = rw (keep-waiting f s.sent h.in_turn.0, append_assoc) h.in_order;
      in_turn = h.in_turn.1;
    }

    dequeue-IsLane : (b : List F) (s : Ajaxq F) → IsLane b s → IsLane b (dequeue s)
    unfolding dequeue
    dequeue-IsLane b s h = from s.q h
      where
        from :
            (q : List F) → IsLane b (record s { q = q }) → IsLane b (dequeue (record s { q = q }))
        from [] h = h
        from (f ∷ q) h = take_next-IsLane f q b s h

    push-IsLane :
        (f : F) (b : List F) (s : Ajaxq F)
        → mode f ≡ false
        → IsLane b s
        → IsLane (b ++ f ∷ []) (record s { q = s.q ++ f ∷ [] })
    push-IsLane f b s m h = record {
      in_order = rw (← h.in_order, append_assoc);
      in_turn = All-append (λ g. mode g ≡ false) s.q (f ∷ []) h.in_turn (m, tt);
    }

    enqueue-IsLane :
        (f : F) (m : Bool) (b : List F) (s : Ajaxq F)
        → m ≡ mode f
        → IsLane b s
        → IsLane (b ++ waiting ((f, m) ∷ [])) (enqueue f m s)
    unfolding enqueue
    enqueue-IsLane f true b s e h = rw (append-nil b) (do1-IsLane f b s (sym e) h)
    enqueue-IsLane f false b s e h = elim (Bool-cases (is_running s)) [
      | inl busy ↦ rw busy (push-IsLane f b s (sym e) h)
      | inr free ↦ rw free (dequeue-IsLane (b ++ f ∷ []) _ (push-IsLane f b s (sym e) h))
    ]

    enqueue_all-IsLane :
        (calls : List (F × Bool)) (b : List F) (s : Ajaxq F)
        → Marked calls
        → IsLane b s
        → IsLane (b ++ waiting calls) (enqueue_all calls s)
    unfolding enqueue_all
    enqueue_all-IsLane [] b s m h = rw (append-nil b) h
    enqueue_all-IsLane ((f, true) ∷ calls) b s m h =
        enqueue_all-IsLane calls b _ m.1 (rw append-nil at (enqueue-IsLane f true b s m.0 h))
    enqueue_all-IsLane ((f, false) ∷ calls) b s m h =
        rw append_assoc at
          (enqueue_all-IsLane calls (b ++ f ∷ []) _ m.1 (enqueue-IsLane f false b s m.0 h))

    advance-IsLane :
        (finals : List (F × Bool)) (b : List F) (s : Ajaxq F)
        → Marked finals
        → IsLane b s
        → IsLane (b ++ (if is_idle s then waiting finals else [])) (advance finals s)
    unfolding advance complete_queue
    advance-IsLane finals b s m h = elim (Bool-cases (is_idle s)) [
      | inl idle ↦ rw idle (
          dequeue-IsLane _ _ (
            enqueue_all-IsLane finals b _ m
              (record { in_order = h.in_order; in_turn = h.in_turn })))
      | inr busy ↦ rw (busy, append-nil b) (dequeue-IsLane _ _ h)
    ]

    same-IsLane :
        (b : List F) (s t : Ajaxq F) → t.q ≡ s.q → t.sent ≡ s.sent → IsLane b s → IsLane b t
    same-IsLane b s t e k h = record { in_order = rw (e, k) h.in_order; in_turn = rw e h.in_turn }

    step-IsLane :
        (parses : String → Bool) (e : Event F) (b : List F) (s : Ajaxq F)
        → MarkedEvent e
        → IsLane b s
        → IsLane (b ++ arrivals parses e s) (step parses e s)
    unfolding step on_ready_state_change on_error on_timeout tell release_request
    step-IsLane parses (posts f m) b s e h = enqueue-IsLane f m b s e h
    step-IsLane parses (changes id r calls finals) b s e h =
        elim (Bool-cases (r.ready_state == 4)) [
          | inl done ↦
              let called =
                enqueue_all-IsLane calls b (tell id (settle parses r) s) e.0
                  (same-IsLane b s _ refl refl h) in
              elim (Bool-cases (escapes parses r)) [
                | inl out ↦ rw (done, out, append-nil (waiting calls)) called
                | inr goes_on ↦
                    rw (done, goes_on, ← append_assoc)
                      (advance-IsLane finals (b ++ waiting calls) _ e.1
                        (same-IsLane _ _ _ refl refl called))
              ]
          | inr not_yet ↦ rw (not_yet, append-nil b) h
        ]
    step-IsLane parses (errs id calls) b s e h =
        enqueue_all-IsLane calls b _ e (same-IsLane b s _ refl refl h)
    step-IsLane parses (times_out id calls) b s e h =
        enqueue_all-IsLane calls b _ e (same-IsLane b s _ refl refl h)

    run-IsLane :
        (parses : String → Bool) (es : List (Event F)) (b : List F) (s : Ajaxq F)
        → All MarkedEvent es
        → IsLane b s
        → IsLane (b ++ arrived parses es s) (run parses es s)
    unfolding run
    run-IsLane parses [] b s m h = rw (append-nil b) h
    run-IsLane parses (e ∷ es) b s m h =
        rw (← append_assoc) (run-IsLane parses es _ _ m.1 (step-IsLane parses e b s m.0 h))

    -- In every history in which a function is always posted with the same flag, the functions
    -- posted to wait their turn are sent in the order in which they were posted: those sent so far,
    -- then those still in the queue, are exactly the arrivals, none lost, repeated or overtaken.
    pub sent-in-order :
        (parses : String → Bool) (es : List (Event F))
        → All MarkedEvent es
        → lane (run parses es start) ≡ arrived parses es start
    sent-in-order parses es m =
        (run-IsLane parses es [] start m (record { in_order = refl; in_turn = tt })).in_order
