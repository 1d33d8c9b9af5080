-- ===== src/Watchers.antt =====
-- Watchers: which controls are to be drawn again when the server tells of a change on a channel.
-- `_addWatcher`, `_processWatcherMessage`, `refresh` and `subscribeWatchers` of
-- assets/js/goradd.js. Whether a control is still on the page is a parameter, and the calls of
-- `updateForm` are counted.
pub mod Lists
pub mod Refresh
use serve.Base.{
  ◌≡◌, refl, ◌≢◌, sym, ap, ◌∙◌, ℕ, zero, suc, ◌+◌, ◌-◌, ◌≤◌, ◌<◌, max, String, str_eq, str_append,
  eq_iff, eq_refl, Bool, true, false, not, ◌&&◌, ◌||◌, List, [], ◌∷◌, ◌++◌, arith, if◌then◌else◌,
  ◌==◌, ==_iff, ltb, leb, Bool-cases, Option-cases, inl, inr, ◌⊎◌, ◌↔◌, All, All-append, Option,
  none, some, append-nil, append_assoc, map, reverse, length,
}
use serve.Base.Dict.{lookup, insert, keys}

pub record Watch : Type 0 where
  -- `_watchers`: the ids of the controls that watch a channel
  pub watchers : List (String × List String)
  -- `_refresh`
  pub refresh : List String
  -- how often `updateForm` was called
  pub updates : ℕ

abbrev pub unwatched : Watch
unwatched = record { watchers = []; refresh = []; updates = 0 }

-- `contains`: `indexOf` finds the text.
unfoldable pub contains : List String → String → Bool
contains [] needle = false
contains (x ∷ xs) needle = str_eq x needle || contains xs needle

-- `_addWatcher`
unfoldable pub add_watcher : String → String → Watch → Watch
add_watcher id channel w = elim (lookup channel w.watchers) [
  | none ↦ record w { watchers = insert channel (id ∷ []) w.watchers }
  | some ids ↦
      if not (contains ids id)
      then record w { watchers = insert channel (ids ++ id ∷ []) w.watchers }
      else w
]

pub record Message : Type 0 where
  pub channel : String
  pub message : String

unfoldable pub update_form : Watch → Watch
update_form w = record w { updates = suc w.updates }

-- The loop over the watchers of a channel: those that are on the page are to be drawn again.
unfoldable pub push_present : (String → Bool) → List String → List String → List String
push_present on_page [] refresh = refresh
push_present on_page (id ∷ ids) refresh =
    push_present on_page ids (if on_page id then refresh ++ id ∷ [] else refresh)

-- `_processWatcherMessage`
unfoldable pub process_watcher_message : (String → Bool) → Message → Watch → Watch
process_watcher_message on_page msg w =
    if str_eq msg.message "U" && str_eq msg.channel "redraw"
    then update_form w
    else elim (lookup msg.channel w.watchers) [
      | none ↦ w
      | some ids ↦
          (let w1 : Watch = record w { refresh = push_present on_page ids w.refresh } in
            elim w1.refresh [ [] ↦ w1 | _ ∷ _ ↦ update_form w1 ])
    ]

-- `goradd.refresh`
unfoldable pub refresh_control : String → Watch → Watch
refresh_control id w = update_form (record w { refresh = w.refresh ++ id ∷ [] })

-- The channels that `subscribeWatchers` subscribes to.
unfoldable pub watched_channels : Watch → List String
watched_channels w = keys w.watchers
