-- ===== src/Tests/Requests.antt =====
-- Runs of the ajax queue of assets/js/goradd.js.
use serve.Base.{◌≡◌, refl, ℕ, ◌≤◌, String, Bool, true, false, List, [], ◌∷◌, arith, ◌==◌, inr}
use serve.Ajaxq.{
  step, advance, dequeue, is_idle, release_request, enqueue_all, tell, delete_request,
  complete_queue, Ajaxq, Reply, success, failure, exception, Event, posts, changes, start, do1,
  enqueue, settle, on_ready_state_change, run, is_running, escapes, message,
}
use serve.Ajaxq.Order.{sent-in-order, lane, arrived}
use serve.Ajaxq.Serial.{run-in_flight, in_flight}
use serve.Ajaxq.Progress.{answer_all, answer_all_drains}
use serve.Ajaxq.Stalled.{blocked_popup_stalls}
use serve.Posting.{is_document, display_throws}

-- Every text parses; functions are numbers, and 9 is the one posted asynchronously.
abbrev any_text : String → Bool
any_text s = true

abbrev nine : ℕ → Bool
nine n = n == 9

abbrev done : Reply
done = record {
  ready_state = 4;
  status = 200;
  status_text = "OK";
  response = "{}";
  throws = false;
  error_throws = false;
  again_throws = false;
}

abbrev offline : Reply
offline = record {
  ready_state = 4;
  status = 0;
  status_text = "";
  response = "";
  throws = false;
  error_throws = false;
  again_throws = false;
}

abbrev history : List (Event ℕ)
history =
    posts 1 false
    ∷ posts 2 false
    ∷ posts 9 true
    ∷ posts 3 false
    ∷ changes 1 done ((4, false) ∷ []) []
    ∷ []

abbrev calm : List (Event ℕ)
calm =
    posts 1 false ∷ posts 2 false ∷ changes 1 done ((3, false) ∷ []) [] ∷ changes 2 done [] [] ∷ []

-- One request in flight, two functions waiting.
abbrev waiting_two : Ajaxq ℕ
waiting_two = record {
  q = 2 ∷ 3 ∷ [];
  current = (1, 1) ∷ [];
  id_counter = 1;
  sent = 1 ∷ [];
  told = [];
  completed = 0;
}

abbrev beside : Ajaxq ℕ
beside = record {
  q = 2 ∷ [];
  current = (1, 1) ∷ (2, 9) ∷ [];
  id_counter = 2;
  sent = 1 ∷ 9 ∷ [];
  told = [];
  completed = 0;
}

abbrev last_one : Ajaxq ℕ
last_one = record {
  q = [];
  current = (1, 1) ∷ [];
  id_counter = 1;
  sent = 1 ∷ [];
  told = [];
  completed = 0;
}

sent_history : (run any_text history start).sent ≡ 1 ∷ 9 ∷ 2 ∷ []
unfolding run step on_ready_state_change advance dequeue is_idle release_request enqueue_all enqueue
    is_running tell do1 delete_request complete_queue settle escapes serve.Ajaxq.opens_object
sent_history = refl

sent-in-order_example : lane nine (run any_text history start) ≡ arrived any_text history start
sent-in-order_example =
    sent-in-order nine any_text history (refl, (refl, (refl, (refl, (((refl, tt), tt), tt)))))

run-in_flight_example : in_flight (run any_text calm start) ≤ 1
unfolding run step on_ready_state_change advance dequeue is_idle release_request enqueue_all enqueue
    is_running tell do1 delete_request complete_queue settle escapes serve.Ajaxq.opens_object
run-in_flight_example =
    run-in_flight any_text calm start
      (
        (tt, refl),
        (
          (tt, refl),
          (((refl, tt), tt, omega arith, (1, refl)), ((tt, tt, omega arith, (2, refl)), tt)),
        ),
      )
      (omega arith)

-- An error page of the server, where the browser opens no popup
abbrev error_page : Reply
error_page = record {
  ready_state = 4;
  status = 200;
  status_text = "OK";
  response = "<!DOCTYPE html><p>Not found</p>";
  throws = false;
  error_throws = true;
  again_throws = true;
}

blocked_popup_stalls_example :
    let t = on_ready_state_change any_text 1 error_page ((4, false) ∷ []) [] waiting_two in
    let u = run any_text (posts 5 false ∷ []) t in
    (t.told
      ≡ (1, failure "<!DOCTYPE html><p>Not found</p>" (message "Json response is not an object."))
        ∷ (1, failure "<!DOCTYPE html><p>Not found</p>" exception)
        ∷ [])
    × (u.sent ≡ 1 ∷ [])
    × (u.current ≡ (1, 1) ∷ [])
    × (u.q ≡ 2 ∷ 3 ∷ 4 ∷ 5 ∷ [])
    × (u.completed ≡ 0)
unfolding is_document display_throws
blocked_popup_stalls_example =
    blocked_popup_stalls any_text 1 1 error_page ((4, false) ∷ []) [] (posts 5 false ∷ [])
      waiting_two refl refl refl refl refl refl (refl, tt) (refl, tt)

answer_all_drains_example :
    let t = answer_all any_text (done ∷ offline ∷ done ∷ []) waiting_two in
    (t.q ≡ []) × (t.current ≡ []) × (t.sent ≡ 1 ∷ 2 ∷ 3 ∷ [])
unfolding escapes is_running serve.Ajaxq.opens_object
answer_all_drains_example =
    answer_all_drains any_text (done ∷ offline ∷ done ∷ []) waiting_two
      ((refl, refl), ((refl, refl), ((refl, refl), tt))) (inr refl) (omega arith)
