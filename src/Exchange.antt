-- ===== src/Exchange.antt =====
-- The page, the ajax queue and the server together: what `postAjax` of assets/js/goradd.js queues, the
-- request that is built when its turn comes, and what the server has of it. The queue is that of
-- Ajaxq, the page that of Posting, what the server holds that of Session. Requests are received in the
-- order of sending; when a request is lost is an event. What a reply changes in the controls is given
-- with it: controls that the server has drawn, whose values it then holds, and edits, with what its
-- commands and the handlers post.
pub mod Queue
pub mod Kept
pub mod Drawn
pub mod Settled
pub mod Refresh
pub mod Answered
use serve.Base.{
  ◌≡◌, refl, ◌≢◌, sym, ap, ◌∙◌, ℕ, zero, suc, ◌+◌, ◌-◌, ◌≤◌, ◌<◌, max, String, str_eq, str_append,
  eq_iff, eq_refl, Bool, true, false, not, ◌&&◌, ◌||◌, List, [], ◌∷◌, ◌++◌, arith, if◌then◌else◌,
  ◌==◌, ==_iff, ltb, leb, Bool-cases, Option-cases, inl, inr, ◌⊎◌, ◌↔◌, All, All-append, Option,
  none, some, append-nil, append_assoc, map, reverse, length, get_elem?,
}
use serve.Value.{Value, Fields}
use serve.Posting.{
  Page, Input, Part, Request, get_ajax_data, post_ajax, on_success, display_ajax_error, post_key,
  posted_value, parts_of,
}
use serve.Session.{ServerView, receive, edit}
use serve.Ajaxq.{
  Ajaxq, Reply, Callback, success, failure, message, no_detail, Event, do1, is_running, is_idle,
  settle, escapes, tell, release_request,
}

pub record World : Type 0 where
  pub page : Page
  -- the queue and the requests in flight
  pub queue : Ajaxq Request
  -- the requests that are sent and not yet received, oldest first
  pub wire : List (List (String × Part))
  pub view : ServerView

-- What code of the page does: it edits controls and tells of them, or it posts.
pub data Action : Type 0 where
  edits : List Input → List String → Action
  posts : Fields → Action

-- The requests on the way are received one after the other.
unfoldable pub receive_all : List (List (String × Part)) → ServerView → ServerView
receive_all [] view = view
receive_all (body ∷ bodies) view = receive_all bodies (receive body view)

-- The callbacks of a finished request: whether `success` is called, and whether an error is told of.
unfoldable pub calls_success : List Callback → Bool
calls_success (success s ∷ cs) = true
calls_success _ = false

unfoldable pub tells_error : List Callback → Bool
tells_error [] = false
tells_error (failure s d ∷ cs) = true
tells_error (success s ∷ cs) = tells_error cs

unfoldable pub on_page : (Page → Page) → World → World
on_page f w = record w { page = f w.page }

unfoldable pub on_queue : (Ajaxq Request → Ajaxq Request) → World → World
on_queue f w = record w { queue = f w.queue }

-- One more `ajaxQueueComplete`
abbrev pub count_complete : World → World
count_complete w = on_queue (λ s. record s { completed = suc s.completed }) w

module _ (encode : Fields → String) (tz : Value) (posting : Page → Page) where
  -- `_do1`: the function that was queued builds the request from the page as it is now.
  unfoldable pub send : Request → World → World
  send f w =
      let sent = get_ajax_data encode tz posting f.params w.page in
      record w { page = sent.1; queue = do1 f w.queue; wire = w.wire ++ sent.0 ∷ [] }

  -- `_dequeue`
  unfoldable pub send_next : World → World
  send_next w = elim w.queue.q [
    | [] ↦ w
    | f ∷ rest ↦ send f (record w { queue = record w.queue { q = rest } })
  ]

  -- `enqueue`
  unfoldable pub put_in : Request → Bool → World → World
  put_in f is_async w =
      if not is_async
      then (let was_running = is_running w.queue in
          let w1 : World = record w { queue = record w.queue { q = w.queue.q ++ f ∷ [] } } in
          if not was_running then send_next w1 else w1)
      else send f w

  -- `postAjax`, and an edit
  unfoldable pub act : Action → World → World
  act (edits cs ids) w = on_page (edit cs ids) w
  act (posts params) w = elim (post_ajax params w.page) [
    | none ↦ w
    | some f ↦ put_in f f.is_async w
  ]

  unfoldable pub act_all : List Action → World → World
  act_all [] w = w
  act_all (a ∷ more) w = act_all more (act a w)

  -- `success` of the options, which does `actions` and may throw, and `error`.
  unfoldable pub respond : List Callback → List Action → World → World
  respond cs actions w =
      let w1 = if calls_success cs then act_all actions w else w in
      if tells_error cs then on_page display_ajax_error w1 else on_page on_success w1

  -- The end of `onreadystatechange`: the handlers of `ajaxQueueComplete`, and `_dequeue`
  unfoldable pub go_on : List Action → World → World
  go_on finals w = send_next (if is_idle w.queue then act_all finals (count_complete w) else w)

  -- The callbacks
  abbrev pub callbacks : (String → Bool) → ℕ → Reply → List Action → World → World
  callbacks parses id r actions w =
      respond (settle parses r) actions (on_queue (tell id (settle parses r)) w)

  -- ... and `delete _currentRequests[ajaxID]`
  abbrev pub call_back : (String → Bool) → ℕ → Reply → List Action → World → World
  call_back parses id r actions w = on_queue (release_request id) (callbacks parses id r actions w)

  -- `onreadystatechange`, which an exception of `error` ends before the request is deleted
  unfoldable pub finish : (String → Bool) → ℕ → Reply → List Action → List Action → World → World
  finish parses id r actions finals w =
      if r.ready_state == 4
      then (if escapes parses r
          then callbacks parses id r actions w
          else go_on finals (call_back parses id r actions w))
      else w

-- What happens to the page, the queue and the server.
pub data Happening : Type 0 where
  acts : Action → Happening
  -- the server receives the oldest request on the way
  receives : Happening
  -- ... which is lost
  loses : Happening
  replies : ℕ → Reply → List Action → List Action → Happening
  -- a reply brings controls that the server has drawn, here by their keys, and these are the controls
  -- of the page then
  draws : (String → Bool) → List Input → Happening
  -- `onerror` and `ontimeout`
  breaks : ℕ → Happening
  times_out : ℕ → Happening

-- The first control under a key
unfoldable pub find_key : String → List Input → Option Input
find_key k [] = none
find_key k (c ∷ cs) = if str_eq (post_key c) k then some c else find_key k cs

-- What the server holds once it has drawn some controls of the page
unfoldable pub hold : (String → Bool) → Page → ServerView → ServerView
hold drawn page view k =
    if drawn k
    then elim (find_key k page.inputs) [ none ↦ view k | some c ↦ parts_of k (posted_value page c) ]
    else view k

unfoldable pub draw : (String → Bool) → List Input → World → World
draw drawn cs w =
    let page : Page = record w.page { inputs = cs } in
    record w { page = page; view = hold drawn page w.view }

unfoldable pub receive_next : World → World
receive_next w = elim w.wire [
  | [] ↦ w
  | body ∷ rest ↦ record w { wire = rest; view = receive body w.view }
]

unfoldable pub lose_next : World → World
lose_next w = elim w.wire [ [] ↦ w | body ∷ rest ↦ record w { wire = rest } ]

module _ (encode : Fields → String) (tz : Value) (posting : Page → Page)
    (parses : String → Bool) where
  unfoldable pub happen : Happening → World → World
  happen (acts a) w = act encode tz posting a w
  happen receives w = receive_next w
  happen loses w = lose_next w
  happen (draws drawn cs) w = draw drawn cs w
  happen (replies id r actions finals) w = finish encode tz posting parses id r actions finals w
  happen (breaks id) w =
      on_page display_ajax_error (on_queue (tell id (failure "An error occurred" no_detail ∷ [])) w)
  happen (times_out id) w =
      on_page display_ajax_error
        (on_queue (tell id (failure "The server did not respond in time" no_detail ∷ [])) w)

  unfoldable pub happen_all : List Happening → World → World
  happen_all [] w = w
  happen_all (h ∷ hs) w = happen_all hs (happen h w)
