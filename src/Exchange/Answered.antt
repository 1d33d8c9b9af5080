-- ===== src/Exchange/Answered.antt =====
-- That the server comes to hold all of the page, through the queue of assets/js/goradd.js.
use serve.Base.{
  ◌≡◌, refl, ap, ◌∙◌, ℕ, suc, ◌+◌, ◌≤◌, String, Bool, true, false, List, [], ◌∷◌, ◌++◌, arith,
  Bool-cases, inl, inr, length-append, length-append,
}
use serve.Value.{Value, Fields, has}
use serve.Posting.{Page, Request}
use serve.Ajaxq.{
  Ajaxq, Reply, do1, enqueue, is_running, Callback, settle, tell, on_ready_state_change,
}
use serve.Ajaxq.Progress.{load, answer, answer_all, dequeue_moves, enqueue-running}
use serve.Exchange.{World, posts, act, finish, receive_next, on_queue, calls_success}
use serve.Exchange.Queue.{receive_next-queue, put_in-queue, finish-queue, calls_in, calls_of_all}
use serve.Exchange.Kept.{KeepsProper}
use serve.Exchange.Settled.{post_ajax_free}

pub enqueue-load : (f : Request) (b : Bool) (s : Ajaxq Request) → load (enqueue f b s) ≤ load s + 1
unfolding enqueue do1
enqueue-load f true s = omega (arith, length-append s.current ((suc s.id_counter, f) ∷ []))
enqueue-load f false s = elim (Bool-cases (is_running s)) [
  | inl busy ↦ rw busy (omega (arith, length-append s.q (f ∷ [])))
  | inr free ↦ rw free (
      omega (arith, length-append s.q (f ∷ []), (dequeue_moves (record s { q = s.q ++ f ∷ [] })).0))
]

module _ (encode : Fields → String) (tz : Value) (posting : Page → Page)
    (parses : String → Bool) where
  -- The server receives the oldest request on the way, and the oldest in flight is answered.
  unfoldable pub round : Reply → World → World
  round r w = elim w.queue.current [
    | [] ↦ receive_next w
    | (id, f) ∷ _ ↦ finish encode tz posting parses id r [] [] (receive_next w)
  ]

  -- ... and so on, each with a reply of its own
  unfoldable pub rounds : List Reply → World → World
  rounds [] w = w
  rounds (r ∷ rs) w = rounds rs (round r w)

  finish-answers :
      (r : Reply) (id : ℕ) (w : World)
      → (finish encode tz posting parses id r [] [] w).queue
        ≡ on_ready_state_change parses id r [] [] w.queue
  unfolding calls_in calls_of_all
  finish-answers r id w =
      finish-queue encode tz posting parses id r [] [] w
      ∙ ap (λ calls. on_ready_state_change parses id r calls [] w.queue)
          (no_calls (settle parses r))
    where
      no_calls :
          (cs : List Callback)
          → calls_in encode tz posting cs [] (on_queue (tell id (settle parses r)) w) ≡ []
      no_calls cs = elim (Bool-cases (calls_success cs)) [
        | inl s ↦ rw (s, calls_in) refl
        | inr s ↦ rw (s, calls_in) refl
      ]

  round-queue : (r : Reply) (w : World) → (round r w).queue ≡ answer parses r w.queue
  unfolding round answer
  round-queue r w = from w.queue.current
    where
      from :
          (rs : List (ℕ × Request))
          → (elim rs as (λ _. World) [
            | [] ↦ receive_next w
            | (id, f) ∷ _ ↦ finish encode tz posting parses id r [] [] (receive_next w)
          ]).queue
            ≡ elim rs as (λ _. Ajaxq Request) [
              | [] ↦ w.queue
              | (id, f) ∷ _ ↦ on_ready_state_change parses id r [] [] w.queue
            ]
      from [] = receive_next-queue w
      from ((id, f) ∷ rs) =
          finish-answers r id (receive_next w)
          ∙ ap (on_ready_state_change parses id r [] []) (receive_next-queue w)

  pub rounds-queue :
      (rs : List Reply) (w : World) → (rounds rs w).queue ≡ answer_all parses rs w.queue
  unfolding rounds answer_all
  rounds-queue [] w = refl
  rounds-queue (r ∷ rs) w =
      rounds-queue rs (round r w) ∙ ap (answer_all parses rs) (round-queue r w)

  module _ (keeps : KeepsProper posting) where
    pub post_lem :
        (params : Fields) (w : World)
        → w.page.block_events ≡ false
        → let s = (act encode tz posting (posts params) w).queue in
          (load s ≤ load w.queue + 1) × (is_running s ≡ true)
    unfolding act
    post_lem params w free =
        rw (post_ajax_free params w.page free, act)
          (rw (put_in-queue encode tz posting _ (has "async" params) w) (
            enqueue-load _ (has "async" params) w.queue,
            enqueue-running _ (has "async" params) w.queue,
          ))
