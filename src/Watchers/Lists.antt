-- ===== src/Watchers/Lists.antt =====
-- The lists of `_watchers` in assets/js/goradd.js hold each control once, in the order of adding.
use serve.Base.{
  ◌≡◌, refl, String, str_eq, eq_iff, Bool, false, not, ◌&&◌, ◌||◌, List, [], ◌∷◌, ◌++◌, arith,
  if◌then◌else◌, Option-cases, inl, inr, none, some,
}
use serve.Base.Dict.{lookup, lookup-insert}
use serve.Watchers.{Watch, unwatched, contains, add_watcher}

-- The watchers of a channel; an unknown channel has none.
abbrev pub watchers_of : String → Watch → List String
watchers_of channel w = elim (lookup channel w.watchers) [ none ↦ [] | some ids ↦ ids ]

unfoldable pub add_all : List (String × String) → Watch → Watch
add_all [] w = w
add_all ((id, channel) ∷ rest) w = add_all rest (add_watcher id channel w)

-- Whether a control was added to a channel.
unfoldable pub was_added : String → String → List (String × String) → Bool
was_added id channel [] = false
was_added id channel ((i, c) ∷ rest) =
    (str_eq i id && str_eq c channel) || was_added id channel rest

-- No text stands twice.
abbrev pub Unique : List String → Type 0
Unique [] = Unit
Unique (x ∷ xs) = (contains xs x ≡ false) × Unique xs

contains-concat :
    (xs : List String) (y id : String)
    → contains (xs ++ y ∷ []) id ≡ (contains xs id || str_eq y id)
unfolding contains
contains-concat [] y id = ground arith
contains-concat (x ∷ xs) y id = ground (arith, contains-concat xs y id)

Unique-concat :
    (xs : List String) (y : String) → Unique xs → contains xs y ≡ false → Unique (xs ++ y ∷ [])
unfolding contains
Unique-concat [] y u n = (refl, tt)
Unique-concat (x ∷ xs) y u n = (
  ground (arith, contains-concat xs y x, eq_iff x y, eq_iff y x),
  Unique-concat xs y u.1 (ground arith),
)

watchers_of-add_watcher :
    (id c channel : String) (w : Watch)
    → watchers_of channel (add_watcher id c w) ≡ (
        if str_eq c channel && not (contains (watchers_of channel w) id)
        then watchers_of channel w ++ id ∷ []
        else watchers_of channel w)
unfolding add_watcher contains
watchers_of-add_watcher id c channel w = elim (Option-cases (lookup c w.watchers)) [
  | inl e ↦ ground (arith, eq_iff c channel, lookup-insert c channel (id ∷ []) w.watchers)
  | inr (ids, e) ↦
      ground (arith, eq_iff c channel, lookup-insert c channel (ids ++ id ∷ []) w.watchers)
]

-- One more control on a channel.
add_watcher_lem :
    (id c channel j : String) (w : Watch)
    → (contains (watchers_of channel (add_watcher id c w)) j
        ≡ (contains (watchers_of channel w) j || (str_eq id j && str_eq c channel)))
      × (Unique (watchers_of channel w) → Unique (watchers_of channel (add_watcher id c w)))
add_watcher_lem id c channel j w = rw watchers_of-add_watcher (
  ground (arith, contains-concat (watchers_of channel w) id j, eq_iff id j),
  λ u. ground (arith, Unique-concat (watchers_of channel w) id u),
)

add_all_lem :
    (pairs : List (String × String)) (channel j : String) (w : Watch)
    → (contains (watchers_of channel (add_all pairs w)) j
        ≡ (contains (watchers_of channel w) j || was_added j channel pairs))
      × (Unique (watchers_of channel w) → Unique (watchers_of channel (add_all pairs w)))
unfolding add_all was_added
add_all_lem [] channel j w = (ground arith, λ u. u)
add_all_lem ((id, c) ∷ rest) channel j w =
    let after = add_all_lem rest channel j (add_watcher id c w) in
    let one = add_watcher_lem id c channel j w in
    (ground (arith, after.0, one.0), λ u. after.1 (one.1 u))

-- After any calls of `_addWatcher` a channel has exactly the controls that were added to it, and
-- has each of them once.
pub add_all-unwatched :
    (pairs : List (String × String)) (channel j : String)
    → (contains (watchers_of channel (add_all pairs unwatched)) j ≡ was_added j channel pairs)
      × Unique (watchers_of channel (add_all pairs unwatched))
unfolding lookup contains
add_all-unwatched pairs channel j =
    let all = add_all_lem pairs channel j unwatched in (all.0, all.1 tt)
