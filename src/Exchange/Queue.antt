-- ===== src/Exchange/Queue.antt =====
-- The queue of the page, the server and the requests together goes more that of Ajaxq does.
use serve.Base.{
  ◌≡◌, refl, sym, ap, ◌∙◌, ℕ, String, Bool, true, false, List, [], ◌∷◌, ◌++◌, if◌then◌else◌, ◌==◌,
  Bool-cases, Option-cases, inl, inr, List-cases, none, some, map,
}
use serve.Value.{Value, Fields}
use serve.Posting.{Page, Request, post_ajax}
use serve.Ajaxq.{
  Ajaxq, Reply, Callback, Event, dequeue, enqueue, enqueue_all, is_running, is_idle, settle,
  escapes, tell, release_request, advance, complete_queue, on_ready_state_change, on_error,
  on_timeout, step, run,
}
use serve.Exchange.{
  World, Action, edits, posts, send, send_next, put_in, act, act_all, calls_success, tells_error,
  respond, go_on, count_complete, call_back, finish, on_page, on_queue, Happening, acts, receives,
  loses, draws, draw, replies, breaks, times_out, happen, happen_all, receive_next, lose_next,
}

run-append :
    (parses : String → Bool) (es fs : List (Event Request)) (s : Ajaxq Request)
    → run parses (es ++ fs) s ≡ run parses fs (run parses es s)
unfolding run
run-append parses [] fs s = refl
run-append parses (e ∷ es) fs s = run-append parses es fs (step parses e s)

calls_lem :
    (parses : String → Bool) (calls : List (Request × Bool)) (s : Ajaxq Request)
    → enqueue_all calls s ≡ run parses (map (λ (f, b). Event.posts f b) calls) s
unfolding enqueue_all run step
calls_lem parses [] s = refl
calls_lem parses ((f, b) ∷ calls) s = calls_lem parses calls (enqueue f b s)

pub receive_next-queue : (w : World) → (receive_next w).queue ≡ w.queue
unfolding receive_next
receive_next-queue w = elim (List-cases w.wire) [
  | inl e ↦ rw (e, receive_next) refl
  | inr (x, xs, e) ↦ rw (e, receive_next) refl
]

lose_next-queue : (w : World) → (lose_next w).queue ≡ w.queue
unfolding lose_next
lose_next-queue w = elim (List-cases w.wire) [
  | inl e ↦ rw (e, lose_next) refl
  | inr (x, xs, e) ↦ rw (e, lose_next) refl
]

module _ (encode : Fields → String) (tz : Value) (posting : Page → Page) where
  -- The calls of `enqueue` that an action makes, and those of several.
  unfoldable pub calls_of : Action → World → List (Request × Bool)
  calls_of (edits cs ids) w = []
  calls_of (posts params) w = elim (post_ajax params w.page) [
    | none ↦ []
    | some f ↦ (f, f.is_async) ∷ []
  ]

  unfoldable pub calls_of_all : List Action → World → List (Request × Bool)
  calls_of_all [] w = []
  calls_of_all (a ∷ more) w = calls_of a w ++ calls_of_all more (act encode tz posting a w)

  send_next-queue : (w : World) → (send_next encode tz posting w).queue ≡ dequeue w.queue
  unfolding send_next dequeue send
  send_next-queue w = from w.queue.q
    where
      from :
          (q : List Request)
          → (send_next encode tz posting (record w { queue = record w.queue { q = q } })).queue
            ≡ dequeue (record w.queue { q = q })
      from [] = refl
      from (f ∷ q) = refl

  pub put_in-queue :
      (f : Request) (b : Bool) (w : World)
      → (put_in encode tz posting f b w).queue ≡ enqueue f b w.queue
  unfolding put_in enqueue send
  put_in-queue f true w = refl
  put_in-queue f false w = elim (Bool-cases (is_running w.queue)) [
    | inl busy ↦ rw busy refl
    | inr free ↦ rw free (send_next-queue _)
  ]

  act-queue :
      (a : Action) (w : World)
      → (act encode tz posting a w).queue ≡ enqueue_all (calls_of a w) w.queue
  unfolding act calls_of enqueue_all on_page
  act-queue (edits cs ids) w = refl
  act-queue (posts params) w = elim (Option-cases (post_ajax params w.page)) [
    | inl e ↦ rw (e, act, calls_of) refl
    | inr (f, e) ↦ rw (e, act, calls_of) (put_in-queue f f.is_async w)
  ]

  enqueue_all-append :
      (xs ys : List (Request × Bool)) (s : Ajaxq Request)
      → enqueue_all (xs ++ ys) s ≡ enqueue_all ys (enqueue_all xs s)
  unfolding enqueue_all
  enqueue_all-append [] ys s = refl
  enqueue_all-append ((f, b) ∷ xs) ys s = enqueue_all-append xs ys (enqueue f b s)

  act_all-queue :
      (more : List Action) (w : World)
      → (act_all encode tz posting more w).queue ≡ enqueue_all (calls_of_all more w) w.queue
  unfolding act_all calls_of_all enqueue_all
  act_all-queue [] w = refl
  act_all-queue (a ∷ more) w =
      act_all-queue more (act encode tz posting a w)
      ∙ ap (enqueue_all (calls_of_all more (act encode tz posting a w))) (act-queue a w)
      ∙ sym (enqueue_all-append (calls_of a w) _ w.queue)

  -- The calls that `success` makes, if it is called.
  unfoldable pub calls_in : List Callback → List Action → World → List (Request × Bool)
  calls_in cs actions w = if calls_success cs then calls_of_all actions w else []

  respond-queue :
      (cs : List Callback) (more : List Action) (w : World)
      → (respond encode tz posting cs more w).queue ≡ enqueue_all (calls_in cs more w) w.queue
  unfolding respond calls_in on_page enqueue_all
  respond-queue cs more w = elim (Bool-cases (calls_success cs)) [
    | inl s ↦ elim (Bool-cases (tells_error cs)) [
      | inl e ↦ rw (s, e) (act_all-queue more w)
      | inr e ↦ rw (s, e) (act_all-queue more w)
    ]
    | inr s ↦ elim (Bool-cases (tells_error cs)) [ inl e ↦ rw (s, e) refl | inr e ↦ rw (s, e) refl ]
  ]

  go_on-queue :
      (finals : List Action) (w : World)
      → (go_on encode tz posting finals w).queue
        ≡ advance (calls_of_all finals (count_complete w)) w.queue
  unfolding go_on advance complete_queue on_queue
  go_on-queue finals w = elim (Bool-cases (is_idle w.queue)) [
    | inl idle ↦ rw idle (send_next-queue _ ∙ ap dequeue (act_all-queue finals _))
    | inr busy ↦ rw busy (send_next-queue w)
  ]

  module _ (parses : String → Bool) where
    -- What happens to the queue when something happens to the page.
    unfoldable pub events_of : Happening → World → List (Event Request)
    events_of (acts a) w = map (λ (f, b). Event.posts f b) (calls_of a w)
    events_of receives w = []
    events_of loses w = []
    events_of (draws drawn cs) w = []
    events_of (replies id r actions finals) w =
        Event.changes id r
          (calls_in (settle parses r) actions (on_queue (tell id (settle parses r)) w))
          (calls_of_all finals (count_complete (call_back encode tz posting parses id r actions w)))
        ∷ []
    events_of (breaks id) w = Event.errs id [] ∷ []
    events_of (times_out id) w = Event.times_out id [] ∷ []

    unfoldable pub events_of_all : List Happening → World → List (Event Request)
    events_of_all [] w = []
    events_of_all (h ∷ hs) w =
        events_of h w ++ events_of_all hs (happen encode tz posting parses h w)

    pub finish-queue :
        (id : ℕ) (r : Reply) (actions finals : List Action) (w : World)
        → (finish encode tz posting parses id r actions finals w).queue
          ≡ on_ready_state_change parses id r
              (calls_in (settle parses r) actions (on_queue (tell id (settle parses r)) w))
              (calls_of_all finals
                (count_complete (call_back encode tz posting parses id r actions w)))
              w.queue
    unfolding finish on_ready_state_change on_queue
    finish-queue id r actions finals w = elim (Bool-cases (r.ready_state == 4)) [
      | inr not_yet ↦ rw not_yet refl
      | inl ready ↦
          let answered =
            respond-queue (settle parses r) actions (on_queue (tell id (settle parses r)) w) in
          elim (Bool-cases (escapes parses r)) [
            | inl out ↦ rw (ready, out) answered
            | inr on ↦
                rw (ready, on)
                  (go_on-queue finals (call_back encode tz posting parses id r actions w)
                    ∙ ap
                        (λ s.
                          advance
                            (calls_of_all finals
                              (count_complete (call_back encode tz posting parses id r actions w)))
                            (release_request id s))
                        answered)
          ]
    ]

    happen-queue :
        (h : Happening) (w : World)
        → (happen encode tz posting parses h w).queue ≡ run parses (events_of h w) w.queue
    unfolding happen draw events_of run step on_page on_queue on_error on_timeout enqueue_all
    happen-queue (acts a) w = act-queue a w ∙ calls_lem parses (calls_of a w) w.queue
    happen-queue receives w = receive_next-queue w
    happen-queue loses w = lose_next-queue w
    happen-queue (draws drawn cs) w = refl
    happen-queue (replies id r actions finals) w = finish-queue id r actions finals w
    happen-queue (breaks id) w = refl
    happen-queue (times_out id) w = refl

    -- The queue goes as that of Ajaxq goes in a history of its own events: those that come of what
    -- happens to the page, in order.
    pub happen_all-queue :
        (hs : List Happening) (w : World)
        → (happen_all encode tz posting parses hs w).queue ≡ run parses (events_of_all hs w) w.queue
    unfolding happen_all events_of_all run
    happen_all-queue [] w = refl
    happen_all-queue (h ∷ hs) w =
        happen_all-queue hs (happen encode tz posting parses h w)
        ∙ ap (run parses (events_of_all hs (happen encode tz posting parses h w)))
            (happen-queue h w)
        ∙ sym (run-append parses (events_of h w) _ w.queue)
