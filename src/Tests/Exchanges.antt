-- ===== src/Tests/Exchanges.antt =====
-- Runs of the page, the queue and the server, for the posts of assets/js/goradd.js.
use serve.Base.{◌<◌, String, str_eq, Bool, true, false, List, [], ◌∷◌, ◌++◌, All}
use serve.Value.{num, end}
use serve.Posting.{Page, Part}
use serve.Ajaxq.{Reply, start, run}
use serve.Exchange.{World, edits, posts, act, Happening, acts, receives, draws, happen_all}
use serve.Tests.Sessions.{box, params_input, form, drawn, encoded, typing}

-- No handler of `posting`
abbrev pub silent : Page → Page
silent page = page

abbrev pub opened : World
opened = record { page = form; queue = start; wire = []; view = drawn }

abbrev typed : World
typed = record { page = typing form; queue = start; wire = []; view = drawn }

abbrev pub parses : String → Bool
parses s = true

abbrev beginning : List Happening
beginning =
    acts (edits (box "Bob" ∷ params_input ∷ []) ("name" ∷ [])) ∷ acts (posts end) ∷ receives ∷ []

-- The server answers with the box, in which it has put another name.
abbrev story : List Happening
story = beginning ++ draws (λ k. str_eq k "name") (box "Robert" ∷ params_input ∷ []) ∷ []

abbrev pub answered : Reply
answered = record {
  ready_state = 4;
  status = 200;
  status_text = "OK";
  response = "{}";
  throws = false;
  error_throws = false;
  again_throws = false;
}

-- Another answer
abbrev pub refused : Reply
refused = record {
  ready_state = 4;
  status = 500;
  status_text = "Internal Server Error";
  response = "";
  throws = false;
  error_throws = false;
  again_throws = false;
}

-- The page and the server once the request is received
abbrev settled : World
settled =
    happen_all encoded (num 60) silent parses (receives ∷ [])
      (act encoded (num 60) silent (posts end) typed)
