-- ===== src/Actions/Drain.antt =====
-- That `processActions` of assets/js/goradd.js ends and leaves the queue empty, and what it runs.
use serve.Base.{
  ◌≡◌, refl, sym, ap, ◌∙◌, ℕ, zero, suc, ◌+◌, ◌<◌, List, [], ◌∷◌, ◌++◌, arith, if◌then◌else◌, ltb,
  Bool-cases, inl, inr, some, append-nil, append_assoc, length,
}
use serve.Actions.{Params, Actions, queue_action, queue_all, process_action, process_actions}
use serve.Actions.Delay.{with_delay_lem, queue_action_lem}

module _ {ℓ} {F : Type ℓ} where
  module _ (weight : F → ℕ) where
    -- The work that a list of actions stands for.
    abbrev pub total : List (Params F) → ℕ
    total [] = 0
    total (p ∷ ps) = weight p.f + total ps

    total-append : (ps qs : List (Params F)) → total (ps ++ qs) ≡ total ps + total qs
    total-append [] qs = omega arith
    total-append (p ∷ ps) qs = omega (arith, total-append ps qs)

    total-queue_action :
        (p : Params F) (s : Actions F) → total (queue_action p s).queue ≡ total s.queue + weight p.f
    total-queue_action p s =
        rw ((queue_action_lem p s).1, total-append, (with_delay_lem p s.queue).2) (omega arith)

    total-queue_all :
        (ps : List (Params F)) (s : Actions F)
        → total (queue_all ps s).queue ≡ total s.queue + total ps
    unfolding queue_all
    total-queue_all [] s = omega arith
    total-queue_all (p ∷ ps) s =
        omega (arith, total-queue_all ps (queue_action p s), total-queue_action p s)

    total-process_action :
        (reaction : F → List (Params F)) (p : Params F) (s : Actions F)
        → total (reaction p.f) < weight p.f
        → total (process_action reaction p s).queue < total s.queue + weight p.f
    unfolding process_action
    total-process_action reaction p s h = elim (Bool-cases (ltb 0 p.d)) [
      | inl delayed ↦ rw delayed (omega arith)
      | inr at_once ↦
          rw at_once
            (omega (arith, total-queue_all (reaction p.f) (record s { ran = s.ran ++ p.f ∷ [] })))
    ]

    -- If every action weighs more than the actions that it queues, the loop ends: the weight of the
    -- queue, plus one, is fuel enough, and the queue is empty then.
    pub process_actions_ends :
        (reaction : F → List (Params F))
        → ((f : F) → total (reaction f) < weight f)
        → (fuel : ℕ) (s : Actions F) → total s.queue < fuel
        → (t : Actions F) × (process_actions reaction fuel s ≡ some t) × (t.queue ≡ [])
    unfolding process_actions
    process_actions_ends reaction lighter zero s h = absurd (omega arith)
    process_actions_ends reaction lighter (suc fuel) s h =
        from (process_actions_ends reaction lighter fuel) s.queue h
      where
        from :
            ((u : Actions F)
              → total u.queue < fuel
              → (t : Actions F) × (process_actions reaction fuel u ≡ some t) × (t.queue ≡ []))
            → (q : List (Params F)) → total q < suc fuel
            → (t : Actions F) × (process_actions reaction (suc fuel) (record s { queue = q })
                ≡ some t)
              × (t.queue ≡ [])
        from rest_ends [] h = (record s { queue = [] }, refl, refl)
        from rest_ends (p ∷ rest) h =
            rest_ends (process_action reaction p (record s { queue = rest })) (
              omega
                (arith, total-process_action reaction p (record s { queue = rest }) (lighter p.f)))

  -- The actions of a list that wait for no timer.
  abbrev pub at_once : List (Params F) → List F
  at_once [] = []
  at_once (p ∷ ps) = if ltb 0 p.d then at_once ps else p.f ∷ at_once ps

  ran-process_action :
      (p : Params F) (s : Actions F)
      → ((process_action (λ f. []) p s).ran ≡ s.ran ++ at_once (p ∷ []))
        × ((process_action (λ f. []) p s).queue ≡ s.queue)
  unfolding process_action queue_all
  ran-process_action p s = ground (arith, append-nil s.ran)

  -- If no action queues others, the loop runs the actions without a delay in the order in which
  -- they were queued, and only those; a round for each action, and one, is fuel enough.
  pub process_actions_quiet :
      (fuel : ℕ) (s : Actions F)
      → length s.queue < fuel
      → (t : Actions F) × (process_actions (λ f. []) fuel s ≡ some t)
        × (t.queue ≡ [])
        × (t.ran ≡ s.ran ++ at_once s.queue)
  unfolding process_actions
  process_actions_quiet zero s h = absurd (omega arith)
  process_actions_quiet (suc fuel) s h = from (process_actions_quiet fuel) s.queue h
    where
      from :
          ((u : Actions F)
            → length u.queue < fuel
            → (t : Actions F) × (process_actions (λ f. []) fuel u ≡ some t)
              × (t.queue ≡ [])
              × (t.ran ≡ u.ran ++ at_once u.queue))
          → (q : List (Params F)) → length q < suc fuel
          → (t : Actions F) × (process_actions (λ f. []) (suc fuel) (record s { queue = q })
              ≡ some t)
            × (t.queue ≡ [])
            × (t.ran ≡ s.ran ++ at_once q)
      from rest_runs [] h = (record s { queue = [] }, refl, refl, sym (append-nil s.ran))
      from rest_runs (p ∷ rest) h =
          let one = ran-process_action p (record s { queue = rest }) in
          let (t, e, k, r) =
            rest_runs (process_action (λ f. []) p (record s { queue = rest }))
              (omega (arith, ap (length {A = Params F}) one.1)) in
          (
            t,
            e,
            k,
            r
                ∙ rw (one.0, one.1)
                    (ground
                      (arith, append_assoc s.ran (p.f ∷ []) (at_once rest), append-nil s.ran)),
          )
