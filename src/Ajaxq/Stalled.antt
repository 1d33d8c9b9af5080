-- ===== src/Ajaxq/Stalled.antt =====
-- How the queue of `goradd.ajaxq`, assets/js/goradd.js, stalls: an exception of `error` that escapes from
-- `onreadystatechange`, as of `displayAjaxError` of assets/js/goradd-debug.js when no popup opens.
use serve.Base.{
  ◌≡◌, refl, String, Bool, true, false, List, [], ◌∷◌, ◌++◌, append_assoc, append-nil, arith, ℕ,
  ◌==◌, ==_iff, All, ap, ◌∙◌, sym,
}
use serve.Ajaxq.{
  Ajaxq, Event, posts, changes, errs, times_out, Reply, enqueue, enqueue_all, tell, settle, escapes,
  opens_object, is_running, on_ready_state_change, on_error, on_timeout, step, run, failure,
  message, exception, Callback, map,
}
use serve.Ajaxq.Serial.{NoAsync, enqueue_waits, running_of}
use serve.Ajaxq.Callbacks.{told-on_ready_state_change}
use serve.Ajaxq.Order.{waiting}
use Prim.Native.String.append
use text.Mathlib.TextEquality.{starts_with_iff}
use serve.Posting.{is_document, display_throws}

is_document-opens_object : (s : String) → is_document s ≡ true → opens_object s ≡ false
unfolding is_document opens_object
is_document-opens_object s h =
    let (rest, e) = (starts_with_iff s "<!DOCTYPE html>").0 h in
    ap opens_object (sym e ∙ append.cons _ "!DOCTYPE html>" rest)

-- With no popup, an error page in reply makes `error` throw in the `try`, and in the `catch` again.
document-escapes :
    (parses : String → Bool) (r : Reply)
    → r.status ≡ 200
    → is_document r.response ≡ true
    → r.error_throws ≡ display_throws false r.response
    → r.again_throws ≡ display_throws false r.response
    → escapes parses r ≡ true
unfolding escapes display_throws
document-escapes parses r ok page e a =
    let closed = is_document-opens_object r.response page in ground arith

document-settle :
    (parses : String → Bool) (r : Reply)
    → r.status ≡ 200
    → is_document r.response ≡ true
    → r.error_throws ≡ display_throws false r.response
    → settle parses r
      ≡ failure r.response (message "Json response is not an object.")
        ∷ failure r.response exception
        ∷ []
unfolding settle display_throws
document-settle parses r ok page e =
    let closed = is_document-opens_object r.response page in ground arith

module _ {ℓ} {F : Type ℓ} where
  -- Events that end no request, in which nothing is posted to be sent right away.
  abbrev pub IsQuiet : Event F → Type 0
  IsQuiet (posts f b) = b ≡ false
  IsQuiet (changes id r calls finals) = (r.ready_state == 4) ≡ false
  IsQuiet (errs id calls) = NoAsync calls
  IsQuiet (times_out id calls) = NoAsync calls

  -- What is posted in them
  abbrev pub posted : List (Event F) → List F
  posted [] = []
  posted (posts f b ∷ es) = f ∷ posted es
  posted (changes id r calls finals ∷ es) = posted es
  posted (errs id calls ∷ es) = waiting calls ++ posted es
  posted (times_out id calls ∷ es) = waiting calls ++ posted es

  -- Nothing is sent and nothing ends; `more` is put in the queue.
  record IsStuck (more : List F) (s t : Ajaxq F) : Type ℓ where
    sent : t.sent ≡ s.sent
    current : t.current ≡ s.current
    q : t.q ≡ s.q ++ more
    completed : t.completed ≡ s.completed

  stuck-running :
      (more : List F) (s t : Ajaxq F) → IsStuck more s t → is_running s ≡ true → is_running t ≡ true
  unfolding is_running
  stuck-running more s t k h = rw (k.current) h

  IsStuck-append :
      (xs ys : List F) {s t u : Ajaxq F} → IsStuck xs s t → IsStuck ys t u → IsStuck (xs ++ ys) s u
  IsStuck-append xs ys {s} h k = record {
    sent = k.sent ∙ h.sent;
    current = k.current ∙ h.current;
    completed = k.completed ∙ h.completed;
    q = k.q ∙ ap (λ q. q ++ ys) h.q ∙ append_assoc s.q xs ys;
  }

  enqueue_all-IsStuck :
      (calls : List (F × Bool)) (s : Ajaxq F)
      → NoAsync calls
      → is_running s ≡ true
      → IsStuck (waiting calls) s (enqueue_all calls s)
  unfolding enqueue_all
  enqueue_all-IsStuck [] s n h = record {
    sent = refl;
    current = refl;
    completed = refl;
    q = rw (append-nil s.q) refl;
  }
  enqueue_all-IsStuck ((f, true) ∷ calls) s n h = cc
  enqueue_all-IsStuck ((f, false) ∷ calls) s n h =
      let waits = enqueue_waits f s h in
      let one : IsStuck (f ∷ []) s (enqueue f false s) =
        rw waits (record { sent = refl; current = refl; completed = refl; q = refl }) in
      IsStuck-append (f ∷ []) (waiting calls) one
        (enqueue_all-IsStuck calls _ n.1 (stuck-running _ _ _ one h))

  -- So it goes while callbacks are told of.
  tell-IsStuck :
      (id : ℕ) (cs : List Callback) (calls : List (F × Bool)) (s : Ajaxq F)
      → NoAsync calls
      → is_running s ≡ true
      → IsStuck (waiting calls) s (enqueue_all calls (tell id cs s))
  unfolding tell is_running
  tell-IsStuck id cs calls s n h =
      let k = enqueue_all-IsStuck calls (tell id cs s) n h in
      record { sent = k.sent; current = k.current; completed = k.completed; q = k.q }

  step-IsStuck :
      (parses : String → Bool) (e : Event F) (s : Ajaxq F)
      → IsQuiet e
      → is_running s ≡ true
      → IsStuck (posted (e ∷ [])) s (step parses e s)
  unfolding step on_ready_state_change on_error on_timeout enqueue_all
  step-IsStuck parses (posts f true) s q h = cc
  step-IsStuck parses (posts f false) s q h = enqueue_all-IsStuck ((f, false) ∷ []) s (q, tt) h
  step-IsStuck parses (changes id r calls finals) s q h =
      rw q (record { sent = refl; current = refl; completed = refl; q = rw (append-nil s.q) refl })
  step-IsStuck parses (errs id calls) s q h =
      rw (append-nil (waiting calls)) (tell-IsStuck id _ calls s q h)
  step-IsStuck parses (times_out id calls) s q h =
      rw (append-nil (waiting calls)) (tell-IsStuck id _ calls s q h)

  posted-cons : (e : Event F) (es : List (Event F)) → posted (e ∷ es) ≡ posted (e ∷ []) ++ posted es
  posted-cons (posts f b) es = refl
  posted-cons (changes id r calls finals) es = refl
  posted-cons (errs id calls) es = ap (λ q. q ++ posted es) (sym (append-nil (waiting calls)))
  posted-cons (times_out id calls) es = ap (λ q. q ++ posted es) (sym (append-nil (waiting calls)))

  run-IsStuck :
      (parses : String → Bool) (es : List (Event F)) (s : Ajaxq F)
      → All IsQuiet es
      → is_running s ≡ true
      → IsStuck (posted es) s (run parses es s)
  unfolding run
  run-IsStuck parses [] s q h = record {
    sent = refl;
    current = refl;
    completed = refl;
    q = rw (append-nil s.q) refl;
  }
  run-IsStuck parses (e ∷ es) s q h =
      let one = step-IsStuck parses e s q.0 h in
      rw (posted-cons e es) (
        IsStuck-append (posted (e ∷ [])) (posted es) one
          (run-IsStuck parses es _ q.1 (stuck-running _ _ _ one h)))

  -- Where the browser opens no popup, and the one request in flight ends with status 200 and an error
  -- page of the server, `error` is called for it twice, and it stays in flight: whatever is posted
  -- from then on to wait its turn, while the request is handled or in later events that end no
  -- request, is put in the queue behind what waited there and never sent, and `ajaxQueueComplete` is
  -- not triggered.
  pub blocked_popup_stalls :
      (parses : String → Bool) (id : ℕ) (f : F) (r : Reply) (calls finals : List (F × Bool))
      (es : List (Event F)) (s : Ajaxq F)
      → r.ready_state ≡ 4
      → r.status ≡ 200
      → is_document r.response ≡ true
      → r.error_throws ≡ display_throws false r.response
      → r.again_throws ≡ display_throws false r.response
      → s.current ≡ (id, f) ∷ []
      → NoAsync calls
      → All IsQuiet es
      → let t = on_ready_state_change parses id r calls finals s in
        let u = run parses es t in
        (t.told
          ≡ s.told
            ++ (id, failure r.response (message "Json response is not an object."))
              ∷ (id, failure r.response exception)
              ∷ [])
        × (u.sent ≡ s.sent)
        × (u.current ≡ s.current)
        × (u.q ≡ s.q ++ waiting calls ++ posted es)
        × (u.completed ≡ s.completed)
  unfolding on_ready_state_change
  blocked_popup_stalls parses id f r calls finals es s ready ok page e a k n q = (
    told-on_ready_state_change parses id r calls finals s ready
        ∙ ap (λ cs. s.told ++ map (λ c. (id, c)) cs) (document-settle parses r ok page e),
    both.sent,
    both.current,
    both.q ∙ sym (append_assoc s.q (waiting calls) (posted es)),
    both.completed,
  )
    where
      t : Ajaxq F
      t = on_ready_state_change parses id r calls finals s

      first : IsStuck (waiting calls) s t
      first =
          rw ((==_iff r.ready_state 4).1 ready, document-escapes parses r ok page e a)
            (tell-IsStuck id (settle parses r) calls s n (running_of s k))

      both : IsStuck (waiting calls ++ posted es) s (run parses es t)
      both =
          IsStuck-append (waiting calls) (posted es) first
            (run-IsStuck parses es t q (stuck-running _ _ _ first (running_of s k)))
