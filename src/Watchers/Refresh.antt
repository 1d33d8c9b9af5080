-- ===== src/Watchers/Refresh.antt =====
-- Which controls a watcher message of assets/js/goradd.js asks to draw again, and for how long.
use serve.Base.{
  ◌≡◌, refl, sym, ap, ◌∙◌, String, eq_iff, Bool, List, [], ◌∷◌, ◌++◌, arith, Option-cases, inl, inr,
  ◌⊎◌, append-nil, append_assoc, keep_if,
}
use serve.Base.Dict.{lookup}
use serve.Watchers.{
  Watch, Message, add_watcher, process_watcher_message, push_present, update_form, refresh_control,
}
use serve.Watchers.Lists.{watchers_of}

push_present_lem :
    (on_page : String → Bool) (ids refresh : List String)
    → push_present on_page ids refresh ≡ refresh ++ keep_if on_page ids
unfolding push_present
push_present_lem on_page [] refresh = sym (append-nil refresh)
push_present_lem on_page (id ∷ ids) refresh = ground (
  arith,
  push_present_lem on_page ids refresh,
  push_present_lem on_page ids (refresh ++ id ∷ []),
  append_assoc refresh (id ∷ []) (keep_if on_page ids),
)

-- The message that updates the form and draws nothing again.
abbrev pub IsUpdate : Message → Type 0
IsUpdate msg = (msg.message ≡ "U") × (msg.channel ≡ "redraw")

-- A message asks for the watchers of its channel that are on the page, in the order in which they
-- were added, behind what was asked for before; the update message asks for none.
pub refresh-process_watcher_message :
    (on_page : String → Bool) (msg : Message) (w : Watch)
    → (IsUpdate msg → (process_watcher_message on_page msg w).refresh ≡ w.refresh)
      × ((¬ IsUpdate msg)
          → (process_watcher_message on_page msg w).refresh
            ≡ w.refresh ++ keep_if on_page (watchers_of msg.channel w))
unfolding process_watcher_message update_form
refresh-process_watcher_message on_page msg w =
    elim (Option-cases (lookup msg.channel w.watchers)) [
      | inl e ↦
          ground (arith, eq_iff msg.message "U", eq_iff msg.channel "redraw", append-nil w.refresh)
      | inr (ids, e) ↦ ground (
        arith,
        eq_iff msg.message "U",
        eq_iff msg.channel "redraw",
        push_present_lem on_page ids w.refresh,
      )
    ]

-- What touches the watchers, in the source.
pub data Action : Type 0 where
  adds : String → String → Action
  receives : (String → Bool) → Message → Action
  refreshes : String → Action

unfoldable pub act : Action → Watch → Watch
act (adds id channel) w = add_watcher id channel w
act (receives on_page msg) w = process_watcher_message on_page msg w
act (refreshes id) w = refresh_control id w

unfoldable pub act_all : List Action → Watch → Watch
act_all [] w = w
act_all (a ∷ rest) w = act_all rest (act a w)

IsUpdate-cases : (msg : Message) → IsUpdate msg ⊎ (¬ IsUpdate msg)
IsUpdate-cases msg = ground (arith, eq_iff msg.message "U", eq_iff msg.channel "redraw")

refresh-add_watcher : (id c : String) (w : Watch) → (add_watcher id c w).refresh ≡ w.refresh
unfolding add_watcher
refresh-add_watcher id c w = ground arith

refresh-act :
    (a : Action) (w : Watch) → (more : List String) × ((act a w).refresh ≡ w.refresh ++ more)
unfolding act refresh_control update_form
refresh-act (adds id c) w = ([], refresh-add_watcher id c w ∙ sym (append-nil w.refresh))
refresh-act (receives on_page msg) w = elim (IsUpdate-cases msg) [
  | inl u ↦ ([], (refresh-process_watcher_message on_page msg w).0 u ∙ sym (append-nil w.refresh))
  | inr n ↦ (_, (refresh-process_watcher_message on_page msg w).1 n)
]
refresh-act (refreshes id) w = (id ∷ [], refl)

-- Nothing takes an id out of `_refresh`: after any calls what was there is still there, in front,
-- and so goes with every later request.
pub refresh_grows :
    (actions : List Action) (w : Watch)
    → (more : List String) × ((act_all actions w).refresh ≡ w.refresh ++ more)
unfolding act_all
refresh_grows [] w = ([], sym (append-nil w.refresh))
refresh_grows (a ∷ rest) w =
    let (m, e) = refresh-act a w in
    let (n, f) = refresh_grows rest (act a w) in
    (m ++ n, f ∙ ap (λ r. r ++ n) e ∙ append_assoc w.refresh m n)
