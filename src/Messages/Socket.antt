-- ===== src/Messages/Socket.antt =====
-- The web sockets of the page from their making to their end, beside the watchers that listen through it:
-- `initMessagingClient`, `_closeWebSocket` and `_handleWsClose` of
-- messenger/ws/assets/js/goradd-ws.js with `subscribeWatchers` of assets/js/goradd.js. The browser and
-- the server decide when a socket opens or ends. The listeners of a socket that another has replaced
-- stay, and act on the same `goradd._ws` and `goradd._channels`. Function 0 is `_processWatcherMessage`.
pub mod Watched
pub mod Unheard
use serve.Base.{
  ◌≡◌, refl, ◌≢◌, sym, ap, ◌∙◌, ℕ, zero, suc, ◌+◌, ◌-◌, ◌≤◌, ◌<◌, max, String, str_eq, str_append,
  eq_iff, eq_refl, Bool, true, false, not, ◌&&◌, ◌||◌, List, [], ◌∷◌, ◌++◌, arith, if◌then◌else◌,
  ◌==◌, ==_iff, ltb, leb, Bool-cases, Option-cases, inl, inr, ◌⊎◌, ◌↔◌, All, All-append, Option,
  none, some, append-nil, append_assoc, map, reverse, length, List-cases, get_elem?,
}
use serve.Base.Dict.{Dict, lookup, insert, keys}
use serve.Watchers.{Watch, add_watcher, watched_channels, process_watcher_message}
use serve.Messages.{
  Message, Client, Location, socket_address, subscribe, handle_ws_message, handle_ws_close,
}
use serve.Messages.Routing.{routed}

pub data Socket : Type 0 where
  no_socket : Socket
  connecting : Socket
  opened : Socket
  closing : Socket

-- The page as far as the socket goes: the addresses that it connected to, and how often it triggered
-- `messengerReady`
pub record Link : Type 0 where
  pub client : Client
  -- the socket made last
  pub socket : Socket
  -- those made before it, oldest first
  pub others : List Socket
  pub watch : Watch
  pub addresses : List String
  pub ready : ℕ

-- `initMessagingClient`
unfoldable pub init_messaging_client : Bool → Location → String → String → Link → Link
init_messaging_client has_web_socket location loc page_state l =
    if has_web_socket
    then record l {
      client = record l.client { connected = true };
      socket = connecting;
      others = l.others ++ l.socket ∷ [];
      addresses = l.addresses ++ socket_address location loc page_state ∷ [];
    }
    else l

unfoldable pub open_with : Option Client → Link → Link
open_with none l = l
open_with (some c) l = record l { client = c; ready = suc l.ready }

-- `onopen`; where `subscribe` throws, nothing more happens.
unfoldable pub on_open : Link → Link
on_open l =
    open_with (subscribe (watched_channels l.watch) 0 l.client) (record l { socket = opened })

-- `onopen` of an older socket: it subscribes over `goradd._ws`, where `send` throws while that one is
-- connecting.
unfoldable pub on_open_other : Socket → Link → Link
on_open_other connecting l = l
on_open_other s l = open_with (subscribe (watched_channels l.watch) 0 l.client) l

-- `_closeWebSocket`
unfoldable pub close_web_socket : Link → Link
close_web_socket l = if l.client.connected then record l { socket = closing } else l

-- What the calls of the functions of the channels do: those of the watchers count.
unfoldable pub call_function : (String → Bool) → ℕ × Message → Watch → Watch
call_function on_page call w =
    if call.0 == 0
    then process_watcher_message on_page
        (record { channel = call.1.channel; message = call.1.message }) w
    else w

unfoldable pub call_watchers : (String → Bool) → List (ℕ × Message) → Watch → Watch
call_watchers on_page [] w = w
call_watchers on_page (call ∷ calls) w = call_watchers on_page calls (call_function on_page call w)

-- Messages come only while the socket is open.
unfoldable pub deliver : (String → Bool) → List Message → Link → Link
deliver on_page ms l = record l {
  client = handle_ws_message ms l.client;
  watch = call_watchers on_page (routed l.client.channels ms) l.watch;
}

-- What can happen: the socket is made, opens, is closed by the page, ends, or brings messages; a
-- control is registered that watches a channel.
pub data Event : Type 0 where
  connects : Location → String → String → Event
  opens : Event
  closes : Event
  ends : Event
  brings : List Message → Event
  watches : String → String → Event
  -- an older socket, by its place, opens, ends or brings messages
  other_opens : ℕ → Event
  other_ends : ℕ → Event
  other_brings : ℕ → List Message → Event

unfoldable pub set_at : ℕ → Socket → List Socket → List Socket
set_at i s [] = []
set_at zero s (t ∷ ts) = s ∷ ts
set_at (suc i) s (t ∷ ts) = t ∷ set_at i s ts

-- A socket opens while it is connecting, and brings messages while it is open.
unfoldable pub open_from : Socket → Link → Link
open_from connecting l = on_open l
open_from s l = l

unfoldable pub deliver_from : Socket → (String → Bool) → List Message → Link → Link
deliver_from opened on_page ms l = deliver on_page ms l
deliver_from s on_page ms l = l

-- What is not there does nothing.
unfoldable pub other_open_from : Option Socket → ℕ → Link → Link
other_open_from (some connecting) i l =
    on_open_other l.socket (record l { others = set_at i opened l.others })
other_open_from s i l = l

unfoldable pub other_end_from : Option Socket → ℕ → Link → Link
other_end_from none i l = l
other_end_from (some no_socket) i l = l
other_end_from (some s) i l = record l {
  client = handle_ws_close l.client;
  others = set_at i no_socket l.others;
}

unfoldable pub other_deliver_from : Option Socket → (String → Bool) → List Message → Link → Link
other_deliver_from (some opened) on_page ms l = deliver on_page ms l
other_deliver_from s on_page ms l = l

unfoldable pub step : (String → Bool) → Event → Link → Link
step on_page (connects location loc page_state) l =
    init_messaging_client true location loc page_state l
step on_page opens l = open_from l.socket l
step on_page closes l = close_web_socket l
step on_page ends l = record l { client = handle_ws_close l.client; socket = no_socket }
step on_page (brings ms) l = deliver_from l.socket on_page ms l
step on_page (watches id channel) l = record l { watch = add_watcher id channel l.watch }
step on_page (other_opens i) l = other_open_from (get_elem? l.others i) i l
step on_page (other_ends i) l = other_end_from (get_elem? l.others i) i l
step on_page (other_brings i ms) l = other_deliver_from (get_elem? l.others i) on_page ms l

unfoldable pub run : (String → Bool) → List Event → Link → Link
run on_page [] l = l
run on_page (e ∷ es) l = run on_page es (step on_page e l)
