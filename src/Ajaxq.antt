-- ===== src/Ajaxq.antt =====
-- The ajax queue, `goradd.ajaxq` in assets/js/goradd.js. An entry of the queue is the function that
-- makes the options of a request; such functions are opaque here, and none of them is taken to call
-- `enqueue` while it makes the options. The browser is the environment: it tells of the replies, and
-- with a reply come the calls of `enqueue` that the page's callbacks make while they handle it.
-- `JSON.parse` is a parameter, known by the texts that it accepts.
pub mod Order
pub mod Progress
pub mod Serial
pub mod Callbacks
pub mod Stalled
use Prim.Native.Char.{code}
use serve.Base.{
  ℕ, suc, String, str_append, Bool, true, false, not, ◌&&◌, List, [], ◌∷◌, ◌++◌, if◌then◌else◌,
  ◌==◌, map,
}

-- The second argument of `error`.
pub data Detail : Type 0 where
  no_detail : Detail
  message : String → Detail
  status_code : ℕ → Detail
  -- what was thrown by `JSON.parse`, or by `success`
  exception : Detail

-- A call of the `success` or of the `error` of a request's options.
pub data Callback : Type 0 where
  -- `success` gets what `JSON.parse` makes of the text
  success : String → Callback
  failure : String → Detail → Callback

-- What the request object shows when its ready state changes.
pub record Reply : Type 0 where
  pub ready_state : ℕ
  pub status : ℕ
  pub status_text : String
  pub response : String
  -- whether `success` throws, if it is called with this reply
  pub throws : Bool
  -- whether `error` throws the first time that it is called for this reply, and the second time
  pub error_throws : Bool
  pub again_throws : Bool

pub record Ajaxq {ℓ} (F : Type ℓ) : Type ℓ where
  -- `_q`
  pub q : List F
  -- `_currentRequests`: the ids in use, with the function that made the request
  pub current : List (ℕ × F)
  -- `_idCounter`
  pub id_counter : ℕ
  -- the requests that were sent, latest last
  pub sent : List F
  -- the callbacks that were made, latest last
  pub told : List (ℕ × Callback)
  -- how often `ajaxQueueComplete` was triggered
  pub completed : ℕ

-- `charAt(0) !== "{"`
unfoldable pub opens_object : String → Bool
opens_object String.[] = false
opens_object (String.◌∷◌ c s) = code c == b'{'

-- The callbacks for a finished request: the branches under `readyState === 4`. In the `try` an
-- exception of `error` comes to the `catch`, as one of `success` does.
unfoldable pub settle : (String → Bool) → Reply → List Callback
settle parses r =
    if r.status == 200
    then (if not (opens_object r.response)
        then failure r.response (message "Json response is not an object.")
          ∷ (if r.error_throws then failure r.response exception ∷ [] else [])
        else if parses r.response
        then (if r.throws
            then success r.response ∷ failure r.response exception ∷ []
            else success r.response ∷ [])
        else failure r.response exception ∷ [])
    else failure (str_append "An ajax error occurred: " r.status_text) (status_code r.status) ∷ []

-- Whether `onreadystatechange` itself throws: whether the last of the callbacks, outside the `try`,
-- does.
unfoldable pub escapes : (String → Bool) → Reply → Bool
escapes parses r =
    if r.status == 200
    then (if not (opens_object r.response)
        then r.error_throws && r.again_throws
        else if parses r.response
        then r.throws && r.error_throws
        else r.error_throws)
    else r.error_throws

module _ {ℓ} {F : Type ℓ} where
  abbrev pub start : Ajaxq F
  start = record { q = []; current = []; id_counter = 0; sent = []; told = []; completed = 0 }

  -- `delete _currentRequests[ajaxID]`
  unfoldable pub delete_request : ℕ → List (ℕ × F) → List (ℕ × F)
  delete_request id [] = []
  delete_request id ((i, f) ∷ rs) =
      if i == id then delete_request id rs else (i, f) ∷ delete_request id rs

  -- `isRunning`
  unfoldable pub is_running : Ajaxq F → Bool
  is_running s = elim s.current [ [] ↦ false | _ ∷ _ ↦ true ]

  -- `_do1`, up to the return of `send`
  unfoldable pub do1 : F → Ajaxq F → Ajaxq F
  do1 f s =
      let ajax_id = suc s.id_counter in
      record s {
        id_counter = ajax_id;
        current = s.current ++ (ajax_id, f) ∷ [];
        sent = s.sent ++ f ∷ [];
      }

  -- `_dequeue`
  unfoldable pub dequeue : Ajaxq F → Ajaxq F
  dequeue s = elim s.q [ [] ↦ s | f ∷ rest ↦ do1 f (record s { q = rest }) ]

  -- `enqueue`
  unfoldable pub enqueue : F → Bool → Ajaxq F → Ajaxq F
  enqueue f is_async s =
      if not is_async
      then (let was_running = is_running s in
          let s1 : Ajaxq F = record s { q = s.q ++ f ∷ [] } in
          if not was_running then dequeue s1 else s1)
      else do1 f s

  -- The calls of `enqueue` that some code of the page makes, in order.
  unfoldable pub enqueue_all : List (F × Bool) → Ajaxq F → Ajaxq F
  enqueue_all [] s = s
  enqueue_all ((f, b) ∷ calls) s = enqueue_all calls (enqueue f b s)

  unfoldable pub tell : ℕ → List Callback → Ajaxq F → Ajaxq F
  tell id cs s = record s { told = s.told ++ map (λ c. (id, c)) cs }

  -- The `ajaxQueueComplete` event of the form: its handlers make the calls `finals`.
  unfoldable pub complete_queue : List (F × Bool) → Ajaxq F → Ajaxq F
  complete_queue finals s = enqueue_all finals (record s { completed = suc s.completed })

  -- `if (_q.length === 0 && !self.isRunning())`
  unfoldable pub is_idle : Ajaxq F → Bool
  is_idle s = elim s.q [ [] ↦ not (is_running s) | _ ∷ _ ↦ false ]

  unfoldable pub release_request : ℕ → Ajaxq F → Ajaxq F
  release_request id s = record s { current = delete_request id s.current }

  -- The end of `onreadystatechange`: the test for an idle queue, and `_dequeue`.
  unfoldable pub advance : List (F × Bool) → Ajaxq F → Ajaxq F
  advance finals s = dequeue (if is_idle s then complete_queue finals s else s)

  -- `onreadystatechange` of the request `id`. While the callbacks of the options run, the page
  -- makes the calls `calls`. An exception that escapes ends it there: the request stays among those
  -- in flight, and `_dequeue` is not called.
  unfoldable pub on_ready_state_change :
      (String → Bool) → ℕ → Reply → List (F × Bool) → List (F × Bool) → Ajaxq F → Ajaxq F
  on_ready_state_change parses id r calls finals s =
      if r.ready_state == 4
      then (let s1 = enqueue_all calls (tell id (settle parses r) s) in
          if escapes parses r then s1 else advance finals (release_request id s1))
      else s

  -- `onerror` and `ontimeout`
  unfoldable pub on_error : ℕ → List (F × Bool) → Ajaxq F → Ajaxq F
  on_error id calls s = enqueue_all calls (tell id (failure "An error occurred" no_detail ∷ []) s)

  unfoldable pub on_timeout : ℕ → List (F × Bool) → Ajaxq F → Ajaxq F
  on_timeout id calls s =
      enqueue_all calls (tell id (failure "The server did not respond in time" no_detail ∷ []) s)

-- What happens to the queue, one event at a time.
pub data Event {ℓ} (F : Type ℓ) : Type ℓ where
  posts : F → Bool → Event F
  changes : ℕ → Reply → List (F × Bool) → List (F × Bool) → Event F
  errs : ℕ → List (F × Bool) → Event F
  times_out : ℕ → List (F × Bool) → Event F

module _ {ℓ} {F : Type ℓ} (parses : String → Bool) where
  unfoldable pub step : Event F → Ajaxq F → Ajaxq F
  step (posts f b) s = enqueue f b s
  step (changes id r calls finals) s = on_ready_state_change parses id r calls finals s
  step (errs id calls) s = on_error id calls s
  step (times_out id calls) s = on_timeout id calls s

  unfoldable pub run : List (Event F) → Ajaxq F → Ajaxq F
  run [] s = s
  run (e ∷ es) s = run es (step e s)
