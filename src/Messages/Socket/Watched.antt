-- ===== src/Messages/Socket/Watched.antt =====
-- Which watched channels the page hears of. messenger/ws/assets/js/goradd-ws.js and assets/js/goradd.js.
use serve.Base.{
  ◌≡◌, ◌≢◌, refl, get_elem?, Option, sym, ap, ◌∙◌, ℕ, String, str_eq, eq_iff, Bool, true, false,
  ◌&&◌, ◌||◌, List, [], ◌∷◌, ◌++◌, arith, if◌then◌else◌, ◌==◌, Bool-cases, Option-cases, inl, inr,
  none, some, List-cases, subst,
}
use serve.Base.Dict.{Dict, lookup, insert, keys}
use serve.Watchers.{
  Message as WatchMessage, Watch, add_watcher, watched_channels, process_watcher_message,
  update_form, contains, push_present,
}
use serve.Messages.{Message, Client, subscribe, set_channels, handle_ws_message, handle_ws_close}
use serve.Messages.Routing.{routed, lookup-set_channels, handle_ws_message_lem}
use serve.Messages.Socket.{
  Socket, no_socket, connecting, opened, closing, Link, init_messaging_client, on_open,
  close_web_socket, call_watchers, deliver, Event, connects, opens, closes, ends, brings, watches,
  step, run, other_opens, other_ends, other_brings, on_open_other, other_open_from, other_end_from,
  other_deliver_from, call_function, open_with, open_from, deliver_from,
}

-- While the socket is open, the function of each watched channel is that of the watchers; while it is
-- connecting or open, the page has a socket.
pub record IsSubscribed (l : Link) : Type 0 where
  pub hears :
      l.socket ≡ opened
      → (c : String) → contains (keys l.watch.watchers) c ≡ true
      → lookup c l.client.channels ≡ some 0
  pub has_socket : l.socket ≡ connecting → l.client.connected ≡ true

-- A channel is new to the page only while the socket is not open, and no older socket ends while the
-- socket is connecting or open.
unfoldable pub IsEarly : (String → Bool) → List Event → Link → Type 0
IsEarly on_page [] l = Unit
IsEarly on_page (watches id channel ∷ es) l =
    (l.socket ≡ opened → contains (keys l.watch.watchers) channel ≡ true)
    × IsEarly on_page es (step on_page (watches id channel) l)
IsEarly on_page (other_ends i ∷ es) l =
    (l.socket ≢ connecting)
    × (l.socket ≢ opened)
    × IsEarly on_page es (step on_page (other_ends i) l)
IsEarly on_page (e ∷ es) l = IsEarly on_page es (step on_page e l)

contains-keys-insert :
    {V : Type 0} (key c : String) (v : V) (d : Dict V)
    → contains (keys (insert key v d)) c ≡ (str_eq key c || contains (keys d) c)
unfolding contains insert
contains-keys-insert key c v [] = ground arith
contains-keys-insert key c v (e ∷ d) =
    ground (arith, contains-keys-insert key c v d, eq_iff (e.0) key, eq_iff key c, eq_iff (e.0) c)

contains-add_watcher :
    (id channel c : String) (w : Watch)
    → contains (keys w.watchers) channel ≡ true
    → contains (keys (add_watcher id channel w).watchers) c ≡ contains (keys w.watchers) c
unfolding add_watcher
contains-add_watcher id channel c w h = elim (Option-cases (lookup channel w.watchers)) [
  | inl e ↦ rw (add_watcher, e) (known (id ∷ []))
  | inr (ids, e) ↦ elim (Bool-cases (contains ids id)) [
    | inl b ↦ rw (add_watcher, e, b) refl
    | inr b ↦ rw (add_watcher, e, b) (known (ids ++ id ∷ []))
  ]
]
  where
    known :
        (ids : List String)
        → contains (keys (insert channel ids w.watchers)) c ≡ contains (keys w.watchers) c
    known ids =
        contains-keys-insert channel c ids w.watchers ∙ elim (Bool-cases (str_eq channel c)) [
          | inl q ↦
              rw (q)
                (sym (subst (λ z. contains (keys w.watchers) z ≡ true) ((eq_iff channel c).0 q) h))
          | inr q ↦ rw (q) refl
        ]

process-watchers :
    (on_page : String → Bool) (m : WatchMessage) (w : Watch)
    → (process_watcher_message on_page m w).watchers ≡ w.watchers
unfolding process_watcher_message update_form
process-watchers on_page m w =
    elim (Bool-cases (str_eq m.message "U" && str_eq m.channel "redraw")) [
      | inl b ↦ rw (b) refl
      | inr b ↦ elim (Option-cases (lookup m.channel w.watchers)) [
        | inl e ↦ rw (b, e) refl
        | inr (ids, e) ↦ elim (List-cases (push_present on_page ids w.refresh)) [
          | inl f ↦ rw (b, e, f) refl
          | inr (x, xs, f) ↦ rw (b, e, f) refl
        ]
      ]
    ]

call_function-watchers :
    (on_page : String → Bool) (call : ℕ × Message) (w : Watch)
    → (call_function on_page call w).watchers ≡ w.watchers
unfolding call_function
call_function-watchers on_page call w = elim (Bool-cases (call.0 == 0)) [
  | inl b ↦ rw (b) (process-watchers on_page _ w)
  | inr b ↦ rw (b) refl
]

call_watchers-watchers :
    (on_page : String → Bool) (calls : List (ℕ × Message)) (w : Watch)
    → (call_watchers on_page calls w).watchers ≡ w.watchers
unfolding call_watchers
call_watchers-watchers on_page [] w = refl
call_watchers-watchers on_page (call ∷ calls) w =
    call_watchers-watchers on_page calls _ ∙ call_function-watchers on_page call w

-- The channels stay while messages come.
channels-handle : (ms : List Message) (s : Client) → (handle_ws_message ms s).channels ≡ s.channels
channels-handle ms s = ap (λ t. t.channels) (handle_ws_message_lem ms s)

connected-handle :
    (ms : List Message) (s : Client) → (handle_ws_message ms s).connected ≡ s.connected
connected-handle ms s = ap (λ t. t.connected) (handle_ws_message_lem ms s)

-- What `subscribe` does, if there is a socket to send over
sent-IsSubscribed :
    (l : Link)
    → l.client.connected ≡ true
    → IsSubscribed (open_with (subscribe (watched_channels l.watch) 0 l.client) l)
unfolding open_with subscribe watched_channels
sent-IsSubscribed l h =
    subst (λ o. IsSubscribed (open_with o l)) (sym (ap (λ b. if b then some client else none) h))
      (record {
        hears = λ e c k.
            lookup-set_channels (keys l.watch.watchers) 0 l.client.channels c ∙ rw (k) refl;
        has_socket = λ e. h;
      })
  where
    client : Client
    client = record l.client {
      channels = set_channels (keys l.watch.watchers) 0 l.client.channels;
      sent = l.client.sent ++ keys l.watch.watchers ∷ [];
    }

on_open-IsSubscribed : (l : Link) → l.client.connected ≡ true → IsSubscribed (on_open l)
unfolding on_open
on_open-IsSubscribed l h = sent-IsSubscribed (record l { socket = opened }) h

opened-IsSubscribed :
    (l : Link) (s : Socket) → l.socket ≡ s → IsSubscribed l → IsSubscribed (open_from s l)
unfolding open_from
opened-IsSubscribed l connecting e h = on_open-IsSubscribed l (h.has_socket e)
opened-IsSubscribed l no_socket e h = h
opened-IsSubscribed l opened e h = h
opened-IsSubscribed l closing e h = h

heard-IsSubscribed :
    (on_page : String → Bool) (ms : List Message) (l : Link)
    → IsSubscribed l
    → IsSubscribed (deliver on_page ms l)
unfolding deliver
heard-IsSubscribed on_page ms l h = record {
  hears = λ e c k.
      ap (lookup c) (channels-handle ms l.client)
      ∙ h.hears e c
          (sym (ap (λ w. contains (keys w) c) (call_watchers-watchers on_page _ l.watch)) ∙ k);
  has_socket = λ e. connected-handle ms l.client ∙ h.has_socket e;
}

delivered-IsSubscribed :
    (on_page : String → Bool) (ms : List Message) (l : Link) (s : Socket)
    → IsSubscribed l
    → IsSubscribed (deliver_from s on_page ms l)
unfolding deliver_from deliver
delivered-IsSubscribed on_page ms l opened h = heard-IsSubscribed on_page ms l h
delivered-IsSubscribed on_page ms l connecting h = h
delivered-IsSubscribed on_page ms l no_socket h = h
delivered-IsSubscribed on_page ms l closing h = h

closed-IsSubscribed : (l : Link) → IsSubscribed l → IsSubscribed (close_web_socket l)
unfolding close_web_socket
closed-IsSubscribed l h = by l.client.connected
  where
    by : (b : Bool) → IsSubscribed (if b then record l { socket = closing } else l)
    by true = record { hears = λ e. cc; has_socket = λ e. cc }
    by false = h

again-IsSubscribed :
    (l : Link)
    → IsSubscribed l
    → IsSubscribed (open_with (subscribe (watched_channels l.watch) 0 l.client) l)
unfolding open_with subscribe watched_channels
again-IsSubscribed l h = elim (Bool-cases l.client.connected) [
  | inl b ↦ sent-IsSubscribed l b
  | inr b ↦
      subst (λ o. IsSubscribed (open_with o l)) (sym (ap (λ z. if z then some client else none) b))
        h
]
  where
    client : Client
    client = record l.client {
      channels = set_channels (keys l.watch.watchers) 0 l.client.channels;
      sent = l.client.sent ++ keys l.watch.watchers ∷ [];
    }

-- An older socket that opens subscribes the page once more, or does nothing.
other_opened-IsSubscribed :
    (l : Link) (s : Socket) → IsSubscribed l → IsSubscribed (on_open_other s l)
unfolding on_open_other
other_opened-IsSubscribed l connecting h = h
other_opened-IsSubscribed l no_socket h = again-IsSubscribed l h
other_opened-IsSubscribed l opened h = again-IsSubscribed l h
other_opened-IsSubscribed l closing h = again-IsSubscribed l h

other_open_from-IsSubscribed :
    (o : Option Socket) (i : ℕ) (l : Link) → IsSubscribed l → IsSubscribed (other_open_from o i l)
unfolding other_open_from
other_open_from-IsSubscribed (some connecting) i l h =
    other_opened-IsSubscribed _ l.socket (record { hears = h.hears; has_socket = h.has_socket })
other_open_from-IsSubscribed (some no_socket) i l h = h
other_open_from-IsSubscribed (some opened) i l h = h
other_open_from-IsSubscribed (some closing) i l h = h
other_open_from-IsSubscribed none i l h = h

-- Where the socket is neither connecting nor open, nothing is asked.
idle-IsSubscribed : (l : Link) → l.socket ≢ connecting → l.socket ≢ opened → IsSubscribed l
idle-IsSubscribed l a b = record { hears = λ e. absurd (b e); has_socket = λ e. absurd (a e) }

other_end_from-IsSubscribed :
    (o : Option Socket) (i : ℕ) (l : Link)
    → l.socket ≢ connecting
    → l.socket ≢ opened
    → IsSubscribed (other_end_from o i l)
unfolding other_end_from
other_end_from-IsSubscribed none i l a b = idle-IsSubscribed _ a b
other_end_from-IsSubscribed (some no_socket) i l a b = idle-IsSubscribed _ a b
other_end_from-IsSubscribed (some connecting) i l a b = idle-IsSubscribed _ a b
other_end_from-IsSubscribed (some opened) i l a b = idle-IsSubscribed _ a b
other_end_from-IsSubscribed (some closing) i l a b = idle-IsSubscribed _ a b

other_deliver_from-IsSubscribed :
    (on_page : String → Bool) (ms : List Message) (o : Option Socket) (l : Link)
    → IsSubscribed l
    → IsSubscribed (other_deliver_from o on_page ms l)
unfolding other_deliver_from deliver
other_deliver_from-IsSubscribed on_page ms (some opened) l h = heard-IsSubscribed on_page ms l h
other_deliver_from-IsSubscribed on_page ms (some connecting) l h = h
other_deliver_from-IsSubscribed on_page ms (some no_socket) l h = h
other_deliver_from-IsSubscribed on_page ms (some closing) l h = h
other_deliver_from-IsSubscribed on_page ms none l h = h

-- If every channel that a control comes to watch while the socket is open is watched already, no socket
-- that another has replaced ends while that one is connecting or open, and the page is subscribed at
-- the start, then it is so after every history, in which the page may make sockets while older ones
-- still open, end and bring messages: while the socket made last is open, the function of each
-- watched channel is that of the watchers, and while it is connecting, `goradd._ws` is a socket.
pub run-IsSubscribed :
    (on_page : String → Bool) (es : List Event) (l : Link)
    → IsEarly on_page es l
    → IsSubscribed l
    → IsSubscribed (run on_page es l)
unfolding run IsEarly step init_messaging_client handle_ws_close
run-IsSubscribed on_page [] l early h = h
run-IsSubscribed on_page (connects location loc page_state ∷ es) l early h =
    run-IsSubscribed on_page es _ early (record { hears = λ e. cc; has_socket = λ e. refl })
run-IsSubscribed on_page (opens ∷ es) l early h =
    run-IsSubscribed on_page es _ early (opened-IsSubscribed l l.socket refl h)
run-IsSubscribed on_page (closes ∷ es) l early h =
    run-IsSubscribed on_page es _ early (closed-IsSubscribed l h)
run-IsSubscribed on_page (ends ∷ es) l early h =
    run-IsSubscribed on_page es _ early (record { hears = λ e. cc; has_socket = λ e. cc })
run-IsSubscribed on_page (brings ms ∷ es) l early h =
    run-IsSubscribed on_page es _ early (delivered-IsSubscribed on_page ms l l.socket h)
run-IsSubscribed on_page (watches id channel ∷ es) l (new, early) h =
    run-IsSubscribed on_page es _ early (record {
      hears = λ e c k. h.hears e c (sym (contains-add_watcher id channel c l.watch (new e)) ∙ k);
      has_socket = h.has_socket;
    })
run-IsSubscribed on_page (other_opens i ∷ es) l early h =
    run-IsSubscribed on_page es _ early (other_open_from-IsSubscribed (get_elem? l.others i) i l h)
run-IsSubscribed on_page (other_ends i ∷ es) l (a, b, early) h =
    run-IsSubscribed on_page es _ early (other_end_from-IsSubscribed (get_elem? l.others i) i l a b)
run-IsSubscribed on_page (other_brings i ms ∷ es) l early h =
    run-IsSubscribed on_page es _ early
      (other_deliver_from-IsSubscribed on_page ms (get_elem? l.others i) l h)

-- A channel that has no function has none once a control watches it, so while the socket is open a
-- message on it leads to no call and draws nothing again.
pub deliver-add_watcher :
    (on_page : String → Bool) (id : String) (m : Message) (l : Link)
    → lookup m.channel l.client.channels ≡ none
    → deliver on_page (m ∷ []) (step on_page (watches id m.channel) l)
      ≡ step on_page (watches id m.channel) l
unfolding deliver step routed handle_ws_message call_watchers
deliver-add_watcher on_page id m l e = rw (handle_ws_message, routed, e) refl
