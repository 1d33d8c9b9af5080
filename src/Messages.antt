-- ===== src/Messages.antt =====
-- The client of messenger/ws/assets/js/goradd-ws.js: the channels that the page subscribes to, and the routing of
-- the messages that come over the web socket. Functions are numbers; `JSON.parse` and the socket are
-- outside.
pub mod Routing
pub mod Socket
use serve.Base.{
  ◌≡◌, refl, ◌≢◌, sym, ap, ◌∙◌, ℕ, zero, suc, ◌+◌, ◌-◌, ◌≤◌, ◌<◌, max, String, str_eq, str_append,
  eq_iff, eq_refl, Bool, true, false, not, ◌&&◌, ◌||◌, List, [], ◌∷◌, ◌++◌, arith, if◌then◌else◌,
  ◌==◌, ==_iff, ltb, leb, Bool-cases, Option-cases, inl, inr, ◌⊎◌, ◌↔◌, All, All-append, Option,
  none, some, append-nil, append_assoc, map, reverse, length,
}
use serve.Base.Dict.{Dict, lookup, insert}

pub record Message : Type 0 where
  pub channel : String
  pub message : String

pub record Client : Type 0 where
  -- `goradd._channels`: the function of a channel
  pub channels : Dict ℕ
  -- whether `goradd._ws` is a socket
  pub connected : Bool
  -- the lists of channels that were sent over the socket
  pub sent : List (List String)
  -- the calls of the functions with a message, in order
  pub calls : List (ℕ × Message)

-- The address that `initMessagingClient` connects to
pub record Location : Type 0 where
  pub protocol : String
  pub hostname : String
  pub port : String

unfoldable pub socket_address : Location → String → String → String
socket_address l loc page_state =
    let scheme = if str_eq l.protocol "https:" then "wss://" else "ws://" in
    let port = if str_eq l.port "" then "" else str_append ":" l.port in
    str_append scheme
      (str_append l.hostname (str_append port (str_append loc (str_append "?id=" page_state))))

-- The loop of `subscribe` over the channels
unfoldable pub set_channels : List String → ℕ → Dict ℕ → Dict ℕ
set_channels [] f channels = channels
set_channels (c ∷ cs) f channels = set_channels cs f (insert c f channels)

-- `subscribe`, `none` where it throws because there is no socket
unfoldable pub subscribe : List String → ℕ → Client → Option Client
subscribe cs f s =
    if s.connected
    then some (record s { channels = set_channels cs f s.channels; sent = s.sent ++ cs ∷ [] })
    else none

-- `_handleWsMessage`, with the messages that the event carries
unfoldable pub handle_ws_message : List Message → Client → Client
handle_ws_message [] s = s
handle_ws_message (m ∷ ms) s = handle_ws_message ms (elim (lookup m.channel s.channels) [
  | none ↦ s
  | some f ↦ record s { calls = s.calls ++ (f, m) ∷ [] }
])

-- `_handleWsClose`
unfoldable pub handle_ws_close : Client → Client
handle_ws_close s = record s { channels = []; connected = false }
