-- ===== src/Tests/Sockets.antt =====
-- Runs of the web socket of messenger/ws/assets/js/goradd-ws.js.
use serve.Base.{refl, String, true, false, [], ◌∷◌, List, Bool}
use serve.Watchers.{unwatched}
use serve.Messages.{Message, Location}
use serve.Messages.Socket.{
  Link, no_socket, Event, connecting, opened, other_brings, other_ends, connects, opens, ends,
  brings, watches, step, run,
}
use serve.Messages.Socket.Unheard.{IsUnheard, step-IsUnheard}
use serve.Messages.Socket.Watched.{IsSubscribed, IsEarly, run-IsSubscribed}

abbrev here : Location
here = record { protocol = "https:"; hostname = "example.org"; port = "" }

-- The page before it has a socket
abbrev fresh : Link
fresh = record {
  client = record { channels = []; connected = false; sent = []; calls = [] };
  socket = no_socket;
  others = [];
  watch = unwatched;
  addresses = [];
  ready = 0;
}

abbrev changed : Message
changed = record { channel = "people"; message = "1" }

abbrev history : List Event
history =
    watches "list" "people"
    ∷ connects here "/ws" "ps"
    ∷ opens
    ∷ connects here "/ws" "ps"
    ∷ other_brings 1 (changed ∷ [])
    ∷ opens
    ∷ brings (changed ∷ [])
    ∷ ends
    ∷ other_ends 1
    ∷ []

abbrev everywhere : String → Bool
everywhere id = true

run-IsSubscribed_example : IsSubscribed (run everywhere history fresh)
unfolding IsEarly step
run-IsSubscribed_example =
    run-IsSubscribed everywhere history fresh ((λ e. cc), ((λ e. cc), (λ e. cc), tt))
      (record { hears = λ e. cc; has_socket = λ e. cc })

-- The page has made a second socket while its first was open.
abbrev reconnecting : Link
reconnecting = record fresh {
  client = record { channels = ("people", 0) ∷ []; connected = true; sent = []; calls = [] };
  socket = connecting;
  others = opened ∷ [];
}

step-IsUnheard_example :
    IsUnheard everywhere (changed ∷ []) reconnecting (step everywhere (other_ends 0) reconnecting)
step-IsUnheard_example =
    step-IsUnheard everywhere 0 opened (changed ∷ []) reconnecting refl refl (λ e. cc)
