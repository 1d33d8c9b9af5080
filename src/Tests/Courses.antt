-- ===== src/Tests/Courses.antt =====
-- A run of the whole handling of a reply of assets/js/goradd.js.
use serve.Base.{◌≡◌, ℕ, Bool, true, false, [], ◌∷◌, if◌then◌else◌, ◌==◌, none, some, length}
use serve.Responses.{files_done, process_ajax}
use serve.Responses.Whole.{Answers, Reply, process_reply}
use serve.Responses.Whole.Phases.{IsSorted, commands_in}
use serve.Responses.Whole.Course.{process_reply-IsSorted}

-- A page in which every control stands without a wrapper and a request is in flight
abbrev page : Answers ℕ
page = record {
  view_of = λ done u. record {
    has_control = true;
    has_wrapper = false;
    related_parent = none;
    related_items = [];
  };
  is_running = λ done. true;
  has_client = λ done. false;
  has_pane = λ done. false;
}

abbrev reply : Reply ℕ
reply = record {
  alert = "hello" ∷ [];
  ss = "a.css" ∷ [];
  js = "b.js" ∷ [];
  controls = (record { value = none; attributes = none; html = some "<p>" }) ∷ [];
  commands = 1 ∷ 2 ∷ [];
  ending = record { winclose = false; loc = "reload"; profile_html = "" };
}

abbrev is_second : ℕ → Bool
is_second c = c == 2

process_reply-IsSorted_example :
    IsSorted (process_reply page is_second reply ("b.js" ∷ "a.css" ∷ []))
    × (commands_in (process_reply page is_second reply ("b.js" ∷ "a.css" ∷ [])) ≡ (
        if length
            (files_done ("b.js" ∷ "a.css" ∷ []) (process_ajax ("a.css" ∷ []) ("b.js" ∷ []))).loading
          == 0
        then 1 ∷ 2 ∷ []
        else []))
process_reply-IsSorted_example = process_reply-IsSorted page is_second reply ("b.js" ∷ "a.css" ∷ [])
