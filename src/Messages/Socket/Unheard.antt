-- ===== src/Messages/Socket/Unheard.antt =====
-- What the end of an older socket takes from the page. messenger/ws/assets/js/goradd-ws.js.
use serve.Base.{◌≡◌, ◌≢◌, refl, get_elem?, sym, ap, ℕ, String, Bool, List, [], ◌∷◌, some, subst}
use serve.Base.Dict.{lookup}
use serve.Messages.{Message, Client, subscribe, handle_ws_message, handle_ws_close}
use serve.Messages.Routing.{routed}
use serve.Messages.Socket.{
  Socket, no_socket, connecting, opened, closing, Link, on_open, close_web_socket, call_watchers,
  deliver, opens, closes, brings, step, run, other_ends, other_end_from, open_with, open_from,
  deliver_from, set_at,
}
use serve.Messages.Socket.{set_at}

handle_ws_message-unheard :
    (ms : List Message) (s : Client) → s.channels ≡ [] → handle_ws_message ms s ≡ s
unfolding handle_ws_message lookup
handle_ws_message-unheard [] s h = refl
handle_ws_message-unheard (m ∷ ms) s h =
    rw (ap (lookup m.channel) h) (handle_ws_message-unheard ms s h)

routed-unheard : (ms : List Message) → routed [] ms ≡ []
unfolding routed lookup
routed-unheard [] = refl
routed-unheard (m ∷ ms) = routed-unheard ms

-- The socket opens and nothing comes of it.
abbrev pub IsUnheard : (String → Bool) → List Message → Link → Link → Type 0
IsUnheard on_page ms l start =
    let t = run on_page (opens ∷ brings ms ∷ closes ∷ []) start in
    (t.socket ≡ opened)
    × (t.client.sent ≡ l.client.sent)
    × (t.client.channels ≡ [])
    × (t.watch ≡ l.watch)
    × (t.ready ≡ l.ready)

connecting-IsUnheard :
    (on_page : String → Bool) (ms : List Message) (l : Link) (others : List Socket)
    → IsUnheard on_page ms l
        (record l { client = handle_ws_close l.client; others = others; socket = connecting })
unfolding run step open_from on_open open_with subscribe handle_ws_close deliver_from deliver
    close_web_socket call_watchers
connecting-IsUnheard on_page ms l others =
    rw (handle_ws_message-unheard ms (handle_ws_close l.client) refl, routed-unheard ms)
      (refl, refl, refl, refl, refl)

-- If an older socket ends while the socket made last is connecting, the page loses the new one: when
-- that opens, nothing is subscribed and `messengerReady` is not triggered, no message that it
-- brings is heard, and the page cannot close it.
pub step-IsUnheard :
    (on_page : String → Bool) (i : ℕ) (s : Socket) (ms : List Message) (l : Link)
    → l.socket ≡ connecting
    → get_elem? l.others i ≡ some s
    → s ≢ no_socket
    → IsUnheard on_page ms l (step on_page (other_ends i) l)
unfolding step other_end_from
step-IsUnheard on_page i s ms l c at live = rw (at) (by s live)
  where
    lost :
        IsUnheard on_page ms l
          (record l { client = handle_ws_close l.client; others = set_at i no_socket l.others })
    lost =
        subst
          (λ z. IsUnheard on_page ms l (record l {
            client = handle_ws_close l.client;
            others = set_at i no_socket l.others;
            socket = z;
          }))
          (sym c) (connecting-IsUnheard on_page ms l (set_at i no_socket l.others))

    by : (s : Socket) → s ≢ no_socket → IsUnheard on_page ms l (other_end_from (some s) i l)
    by no_socket live = absurd (live refl)
    by connecting live = lost
    by opened live = lost
    by closing live = lost
