-- ===== src/Events/Listeners/Undo.antt =====
-- What `off` takes away. assets/js/goradd.js.
use serve.Base.{
  ◌≡◌, refl, sym, ap, ◌∙◌, ℕ, ◌<◌, String, str_eq, eq_refl, Bool, true, false, not, ◌||◌, List, [],
  ◌∷◌, ◌++◌, arith, if◌then◌else◌, Bool-cases, inl, inr, All, Option, none, some, append-nil,
  append_assoc, subst,
}
use serve.Events.Listeners.{
  Options, Argument, EventHandler, Listener, Listeners, is_listener, is_listed, add_listener,
  remove_listener, add_all, remove_all, off, on, on_sorted, attach, make_handler, read_options,
  sort_arguments, is_object,
}

-- The listeners of handlers that were made before
abbrev pub IsOld : ℕ → List Listener → Type 0
IsOld made ls = All (λ l. l.handler < made) ls

-- A listener is one of a handler, under one of some names.
unfoldable pub is_among : ℕ → Bool → List String → Listener → Bool
is_among n capture [] l = false
is_among n capture (name ∷ names) l = is_listener name n capture l || is_among n capture names l

abbrev AreAmong : ℕ → Bool → List String → List Listener → Type 0
AreAmong n capture names ls = All (λ l. is_among n capture names l ≡ true) ls

remove_listener-append :
    (n : ℕ) (capture : Bool) (name : String) (xs ys : List Listener)
    → remove_listener n capture (xs ++ ys) name
      ≡ remove_listener n capture xs name ++ remove_listener n capture ys name
unfolding remove_listener
remove_listener-append n capture name [] ys = refl
remove_listener-append n capture name (x ∷ xs) ys =
    ground (arith, remove_listener-append n capture name xs ys)

remove_all-append :
    (n : ℕ) (capture : Bool) (names : List String) (xs ys : List Listener)
    → remove_all n capture names (xs ++ ys)
      ≡ remove_all n capture names xs ++ remove_all n capture names ys
unfolding remove_all
remove_all-append n capture [] xs ys = refl
remove_all-append n capture (name ∷ names) xs ys =
    ap (remove_all n capture names) (remove_listener-append n capture name xs ys)
    ∙ remove_all-append n capture names _ _

remove_listener-old :
    (n : ℕ) (capture : Bool) (name : String) (ls : List Listener)
    → IsOld n ls
    → remove_listener n capture ls name ≡ ls
unfolding remove_listener is_listener
remove_listener-old n capture name [] h = refl
remove_listener-old n capture name (l ∷ ls) h =
    let k = h.0 in ground (arith, remove_listener-old n capture name ls h.1)

-- The listeners of handlers made before stay.
pub remove_all-old :
    (n : ℕ) (capture : Bool) (names : List String) (ls : List Listener)
    → IsOld n ls
    → remove_all n capture names ls ≡ ls
unfolding remove_all
remove_all-old n capture [] ls h = refl
remove_all-old n capture (name ∷ names) ls h =
    ap (remove_all n capture names) (remove_listener-old n capture name ls h)
    ∙ remove_all-old n capture names ls h

remove_listener-among :
    (n : ℕ) (capture : Bool) (name : String) (names : List String) (ls : List Listener)
    → AreAmong n capture (name ∷ names) ls
    → AreAmong n capture names (remove_listener n capture ls name)
unfolding remove_listener is_among
remove_listener-among n capture name names [] h = tt
remove_listener-among n capture name names (l ∷ ls) (k, h) =
    elim (Bool-cases (is_listener name n capture l)) [
      | inl e ↦ rw (e) (remove_listener-among n capture name names ls h)
      | inr e ↦ rw (e) (ground (arith, e, k), remove_listener-among n capture name names ls h)
    ]

remove_all-among :
    (n : ℕ) (capture : Bool) (names : List String) (ls : List Listener)
    → AreAmong n capture names ls
    → remove_all n capture names ls ≡ []
unfolding remove_all is_among
remove_all-among n capture [] [] h = refl
remove_all-among n capture [] (l ∷ ls) h = cc
remove_all-among n capture (name ∷ names) ls h =
    remove_all-among n capture names (remove_listener n capture ls name)
      (remove_listener-among n capture name names ls h)

among_more :
    (n : ℕ) (capture : Bool) (name : String) (names : List String) (ls : List Listener)
    → AreAmong n capture names ls
    → AreAmong n capture (name ∷ names) ls
unfolding is_among
among_more n capture name names [] h = tt
among_more n capture name names (l ∷ ls) (k, h) =
    (ground (arith, k), among_more n capture name names ls h)

self :
    (n : ℕ) (capture : Bool) (name : String)
    → is_listener name n capture (record { name = name; handler = n; capture = capture }) ≡ true
unfolding is_listener
self n true name = ground (arith, eq_refl name)
self n false name = ground (arith, eq_refl name)

-- What is added stands behind what was there, and is of the handler.
pub add_all-grows :
    (n : ℕ) (capture : Bool) (names : List String) (ls : List Listener)
    → (new : List Listener) × (add_all n capture names ls ≡ ls ++ new)
      × AreAmong n capture names new
unfolding add_all add_listener is_among
add_all-grows n capture [] ls = ([], sym (append-nil ls), tt)
add_all-grows n capture (name ∷ names) ls = elim (Bool-cases (is_listed name n capture ls)) [
  | inl e ↦
      rw (add_all, add_listener, e)
        (let rest = add_all-grows n capture names ls in
          (rest.0, rest.1, among_more n capture name names rest.0 rest.2))
  | inr e ↦
      rw (add_all, add_listener, e)
        (let l : Listener = record { name = name; handler = n; capture = capture } in
          let rest = add_all-grows n capture names (ls ++ l ∷ []) in
          (
            l ∷ rest.0,
            rest.1 ∙ append_assoc ls (l ∷ []) rest.0,
            (rw (self n capture name) refl, among_more n capture name names rest.0 rest.2),
          ))
]

off-attach :
    (e : EventHandler) (t : Listeners)
    → e.number ≡ t.made
    → IsOld t.made t.list
    → (off e (attach e t)).list ≡ t.list
unfolding off attach
off-attach e t q h =
    let rest = add_all-grows e.number e.capture e.events t.list in
    ap (remove_all e.number e.capture e.events) rest.1
    ∙ remove_all-append e.number e.capture e.events t.list rest.0
    ∙ ap (λ xs. remove_all e.number e.capture e.events t.list ++ xs)
        (remove_all-among e.number e.capture e.events rest.0 rest.2)
    ∙ append-nil _
    ∙ remove_all-old e.number e.capture e.events t.list (subst (λ n. IsOld n t.list) (sym q) h)

-- If the listeners are of handlers made before, then `off` of the handler that `on` returns brings
-- the listeners of the element back to those before, in their order, whatever names, arguments and
-- options `on` was called with.
pub off-on :
    (names : String) (selector handler opts : Argument) (t : Listeners) (e : EventHandler)
    → IsOld t.made t.list
    → (on names selector handler opts t).1 ≡ some e
    → (off e (on names selector handler opts t).0).list ≡ t.list
unfolding on
off-on names selector handler opts t e h =
    let args = sort_arguments selector handler opts in
    undone (str_eq names "" || not (is_object args.1)) args.0 args.1 (read_options args.2)
  where
    the_same : {x y : EventHandler} → some x ≡ some y → x ≡ y
    the_same q = cc

    undone :
        (b : Bool) (s : String) (a : Argument) (o : Option Options)
        → (if b then (t, none) else on_sorted names s a o t).1 ≡ some e
        → (off e (if b then (t, none) else on_sorted names s a o t).0).list ≡ t.list
    undone true s a o q = cc
    undone false s a none q = unfold on_sorted in cc
    undone false s a (some o) q =
        let made = make_handler t.made names s a o in
        unfold on_sorted make_handler in
        subst (λ x. (off x (attach made t)).list ≡ t.list) (the_same q) (off-attach made t refl h)
