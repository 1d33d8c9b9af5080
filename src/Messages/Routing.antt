-- ===== src/Messages/Routing.antt =====
-- Which function a message reaches. messenger/ws/assets/js/goradd-ws.js.
use serve.Base.{
  ◌≡◌, refl, ℕ, String, List, [], ◌∷◌, ◌++◌, arith, if◌then◌else◌, Option-cases, inl, inr, none,
  some, append-nil, append_assoc,
}
use serve.Base.Dict.{Dict, lookup, insert, lookup-insert}
use serve.Watchers.{contains}
use serve.Messages.{Message, Client, set_channels, handle_ws_message, handle_ws_close}

-- The calls that messages lead to, if the channels have these functions.
unfoldable pub routed : Dict ℕ → List Message → List (ℕ × Message)
routed channels [] = []
routed channels (m ∷ ms) = elim (lookup m.channel channels) [
  | none ↦ routed channels ms
  | some f ↦ (f, m) ∷ routed channels ms
]

-- Each message is passed, in order, to the function of its channel, and dropped if it has none; the
-- channels stay as they are.
pub handle_ws_message_lem :
    (ms : List Message) (s : Client)
    → handle_ws_message ms s ≡ record s { calls = s.calls ++ routed s.channels ms }
unfolding handle_ws_message routed
handle_ws_message_lem [] s = rw (append-nil) refl
handle_ws_message_lem (m ∷ ms) s = elim (Option-cases (lookup m.channel s.channels)) [
  | inl e ↦ rw (routed, e) (handle_ws_message_lem ms s)
  | inr (f, e) ↦ rw (routed, e, handle_ws_message_lem ms, append_assoc) refl
]

-- After a subscription its channels have its function, and all others the one they had.
pub lookup-set_channels :
    (cs : List String) (f : ℕ) (channels : Dict ℕ) (c : String)
    → lookup c (set_channels cs f channels) ≡ (if contains cs c then some f else lookup c channels)
unfolding set_channels contains
lookup-set_channels [] f channels c = refl
lookup-set_channels (d ∷ cs) f channels c =
    ground (arith, lookup-set_channels cs f (insert d f channels) c, lookup-insert d c f channels)

-- Once the socket is closed, no message reaches a function.
pub closed_is_quiet :
    (ms : List Message) (s : Client) → handle_ws_message ms (handle_ws_close s) ≡ handle_ws_close s
unfolding handle_ws_close handle_ws_message lookup
closed_is_quiet [] s = refl
closed_is_quiet (m ∷ ms) s = closed_is_quiet ms s
