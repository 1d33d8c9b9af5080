-- ===== src/Ajaxq/Callbacks.antt =====
-- What the page is told of the requests of `goradd.ajaxq`, assets/js/goradd.js.
use serve.Base.{
  ◌≡◌, refl, ℕ, String, Bool, true, false, List, [], ◌∷◌, ◌++◌, append_assoc, arith, Bool-cases,
  inl, inr, map, ==_iff, ◌∙◌, str_append,
}
use serve.Ajaxq.{
  Ajaxq, failure, no_detail, status_code, Reply, do1, dequeue, enqueue, enqueue_all, tell, settle,
  escapes, complete_queue, is_idle, is_running, release_request, advance, on_ready_state_change,
  on_error,
}

settle-network :
    (parses : String → Bool) (r : Reply)
    → r.status ≡ 0
    → settle parses r
      ≡ failure (str_append "An ajax error occurred: " r.status_text) (status_code 0) ∷ []
unfolding settle
settle-network parses r e = ground arith

module _ {ℓ} {F : Type ℓ} where
  told-dequeue : (s : Ajaxq F) → (dequeue s).told ≡ s.told
  unfolding dequeue do1
  told-dequeue s = from s.q
    where
      from : (q : List F) → (dequeue (record s { q = q })).told ≡ s.told
      from [] = refl
      from (f ∷ q) = refl

  told-enqueue : (f : F) (b : Bool) (s : Ajaxq F) → (enqueue f b s).told ≡ s.told
  unfolding enqueue do1
  told-enqueue f true s = refl
  told-enqueue f false s = elim (Bool-cases (is_running s)) [
    | inl busy ↦ rw busy
    | inr free ↦ rw free (told-dequeue _)
  ]

  told-enqueue_all : (calls : List (F × Bool)) (s : Ajaxq F) → (enqueue_all calls s).told ≡ s.told
  unfolding enqueue_all
  told-enqueue_all [] s = refl
  told-enqueue_all ((f, b) ∷ calls) s = told-enqueue_all calls _ ∙ told-enqueue f b s

  told-advance : (finals : List (F × Bool)) (s : Ajaxq F) → (advance finals s).told ≡ s.told
  unfolding advance complete_queue
  told-advance finals s = elim (Bool-cases (is_idle s)) [
    | inl idle ↦ rw idle (told-dequeue _ ∙ told-enqueue_all finals _)
    | inr busy ↦ rw busy (told-dequeue s)
  ]

  -- The callbacks of a reply are all that its handling tells the page.
  pub told-on_ready_state_change :
      (parses : String → Bool) (id : ℕ) (r : Reply) (calls finals : List (F × Bool)) (s : Ajaxq F)
      → r.ready_state ≡ 4
      → (on_ready_state_change parses id r calls finals s).told
        ≡ s.told ++ map (λ c. (id, c)) (settle parses r)
  unfolding on_ready_state_change release_request tell
  told-on_ready_state_change parses id r calls finals s ready =
      elim (Bool-cases (escapes parses r)) [
        | inl e ↦ rw ((==_iff r.ready_state 4).1 ready, e) (told-enqueue_all calls _)
        | inr e ↦
            rw ((==_iff r.ready_state 4).1 ready, e)
              (told-advance finals _ ∙ told-enqueue_all calls _)
      ]

  -- A request that fails on the network reaches ready state 4 with status 0, and then its `onerror`
  -- runs: whatever else the page does meanwhile, `error` is called twice for the one request.
  pub network_failure_told_twice :
      (parses : String → Bool) (id : ℕ) (r : Reply) (calls finals more : List (F × Bool))
      (s : Ajaxq F)
      → r.ready_state ≡ 4
      → r.status ≡ 0
      → (on_error id more (on_ready_state_change parses id r calls finals s)).told
        ≡ s.told
          ++ (id, failure (str_append "An ajax error occurred: " r.status_text) (status_code 0))
            ∷ (id, failure "An error occurred" no_detail)
            ∷ []
  unfolding on_error tell
  network_failure_told_twice parses id r calls finals more s ready zero_status =
      told-enqueue_all more _
      ∙ rw (
        told-on_ready_state_change parses id r calls finals s ready,
        settle-network parses r zero_status,
        append_assoc,
      )
