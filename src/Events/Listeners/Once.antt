-- ===== src/Events/Listeners/Once.antt =====
-- How often and in what order handlers are called for an event at the element itself. `on` in assets/js/goradd.js.
use serve.Base.{
  ◌≡◌, refl, sym, ap, ◌∙◌, ℕ, String, str_eq, eq_iff, Bool, true, false, not, ◌&&◌, ◌||◌, List, [],
  ◌∷◌, ◌++◌, arith, if◌then◌else◌, Bool-cases, inl, inr, some, append-nil, subst,
}
use serve.Events.Listeners.{
  Options, Argument, Listener, Listeners, is_listener, is_listed, add_listener, add_all, on_sorted,
  attach, make_handler, split,
}
use serve.Events.Listeners.Undo.{IsOld}

unfoldable pub is_same : Bool → Bool → Bool
is_same true b = b
is_same false b = not b

-- The handlers of the capturing listeners of a name, or of the others, in order
unfoldable pub called_in : Bool → String → List Listener → List ℕ
called_in phase name [] = []
called_in phase name (l ∷ ls) =
    let rest = called_in phase name ls in
    if str_eq l.name name && is_same phase l.capture then l.handler ∷ rest else rest

-- The handlers that an event of a name at the element calls: the browser goes through the capturing
-- listeners first.
unfoldable pub dispatch : String → List Listener → List ℕ
dispatch name ls = called_in true name ls ++ called_in false name ls

unfoldable pub is_named : String → List String → Bool
is_named name [] = false
is_named name (s ∷ ss) = str_eq s name || is_named name ss

called_in-append :
    (phase : Bool) (name : String) (xs ys : List Listener)
    → called_in phase name (xs ++ ys) ≡ called_in phase name xs ++ called_in phase name ys
unfolding called_in
called_in-append phase name [] ys = refl
called_in-append phase name (x ∷ xs) ys = ground (arith, called_in-append phase name xs ys)

is_listed-append :
    (name : String) (n : ℕ) (capture : Bool) (xs ys : List Listener)
    → is_listed name n capture (xs ++ ys)
      ≡ (is_listed name n capture xs || is_listed name n capture ys)
unfolding is_listed
is_listed-append name n capture [] ys = refl
is_listed-append name n capture (x ∷ xs) ys = ground (arith, is_listed-append name n capture xs ys)

is_listed-old :
    (name : String) (n : ℕ) (capture : Bool) (ls : List Listener)
    → IsOld n ls
    → is_listed name n capture ls ≡ false
unfolding is_listed is_listener
is_listed-old name n capture [] h = refl
is_listed-old name n capture (l ∷ ls) h =
    let k = h.0 in ground (arith, is_listed-old name n capture ls h.1)

-- What a listener that is added changes
called_in-new :
    (name s : String) (n : ℕ) (capture : Bool) (ls : List Listener)
    → is_listed s n capture ls ≡ false
    → called_in capture name (add_listener n capture ls s)
      ≡ called_in capture name ls ++ (if str_eq s name then n ∷ [] else [])
unfolding called_in add_listener is_same
called_in-new name s n true ls e = rw (e) (called_in-append true name ls _ ∙ ground arith)
called_in-new name s n false ls e = rw (e) (called_in-append false name ls _ ∙ ground arith)

-- Nor does it change what is called in the other phase.
called_in-other :
    (phase : Bool) (name : String) (n : ℕ) (capture : Bool) (names : List String)
    (ls : List Listener)
    → is_same phase capture ≡ false
    → called_in phase name (add_all n capture names ls) ≡ called_in phase name ls
unfolding add_all called_in
called_in-other phase name n capture [] ls e = refl
called_in-other phase name n capture (s ∷ names) ls e =
    called_in-other phase name n capture names (add_listener n capture ls s) e
    ∙ elim (Bool-cases (is_listed s n capture ls)) [
      | inl b ↦ unfold add_listener in rw (b) refl
      | inr b ↦
          unfold add_listener in
          rw (b) (
            called_in-append phase name ls _ ∙ ground (arith, append-nil (called_in phase name ls)))
    ]

is_listed-new :
    (name s : String) (n : ℕ) (capture : Bool) (ls : List Listener)
    → is_listed s n capture ls ≡ false
    → is_listed name n capture (add_listener n capture ls s)
      ≡ (is_listed name n capture ls || str_eq s name)
unfolding add_listener is_listed is_listener
is_listed-new name s n true ls e = rw (e) (is_listed-append name n true ls _ ∙ ground arith)
is_listed-new name s n false ls e = rw (e) (is_listed-append name n false ls _ ∙ ground arith)

known :
    (name s : String) (b : Bool) (n : ℕ) (capture : Bool) (ls : List Listener)
    → is_listed s n capture ls ≡ b
    → str_eq s name ≡ true
    → is_listed name n capture ls ≡ b
known name s b n capture ls e q = subst (λ z. is_listed z n capture ls ≡ b) ((eq_iff s name).0 q) e

called_in-add_all :
    (name : String) (n : ℕ) (capture : Bool) (names : List String) (ls : List Listener)
    → called_in capture name (add_all n capture names ls)
      ≡ called_in capture name ls
        ++ (if is_named name names && not (is_listed name n capture ls) then n ∷ [] else [])
unfolding add_all is_named
called_in-add_all name n capture [] ls = sym (append-nil _)
called_in-add_all name n capture (s ∷ names) ls =
    called_in-add_all name n capture names (add_listener n capture ls s) ∙ one
  where
    add_none : (b : Bool) (xs : List ℕ) → xs ++ (if b && false then n ∷ [] else []) ≡ xs
    add_none true xs = append-nil xs
    add_none false xs = append-nil xs

    add_same :
        (b c : Bool) (xs : List ℕ)
        → xs ++ [] ++ (if b && not (c || false) then n ∷ [] else [])
          ≡ xs ++ (if b && not c then n ∷ [] else [])
    add_same b true xs = ap (λ ys. ys ++ (if b && false then n ∷ [] else [])) (append-nil xs)
    add_same b false xs = ap (λ ys. ys ++ (if b && true then n ∷ [] else [])) (append-nil xs)

    one :
        called_in capture name (add_listener n capture ls s)
          ++ (if is_named name names && not (is_listed name n capture (add_listener n capture ls s))
              then n ∷ []
              else [])
        ≡ called_in capture name ls
          ++ (if (str_eq s name || is_named name names) && not (is_listed name n capture ls)
              then n ∷ []
              else [])
    one = elim (Bool-cases (is_listed s n capture ls)) [
      | inl e ↦
          unfold add_listener in
          rw (e) (elim (Bool-cases (str_eq s name)) [
            | inl q ↦ rw (q, known name s true n capture ls e q) ground arith
            | inr q ↦ rw (q) refl
          ])
      | inr e ↦
          rw (called_in-new name s n capture ls e, is_listed-new name s n capture ls e)
            (elim (Bool-cases (str_eq s name)) [
              | inl q ↦
                  rw (q, known name s false n capture ls e q) (add_none (is_named name names) _)
              | inr q ↦ rw (q) (add_same (is_named name names) (is_listed name n capture ls) _)
            ])
    ]

-- If the listeners are of handlers made before, then once `on` has made a handler, an event at the
-- element calls the handlers that it called before, in the same order, and the new one exactly if
-- the event is among the names: once, even if the names have it twice, behind all capturing handlers
-- if the options ask for capture, in front of the others then, and else behind all.
pub dispatch-on_sorted :
    (name names selector : String) (handler : Argument) (o : Options) (t : Listeners)
    → IsOld t.made t.list
    → let new = if is_named name (split 32 names) then t.made ∷ [] else [] in
      let before = called_in true name t.list in
      let after = called_in false name t.list in
      dispatch name (on_sorted names selector handler (some o) t).0.list
      ≡ (if o.capture then (before ++ new) ++ after else before ++ (after ++ new))
unfolding on_sorted attach make_handler dispatch is_same
dispatch-on_sorted name names selector handler o t h = by o.capture
  where
    and_true : (b : Bool) → b && true ≡ b
    and_true true = refl
    and_true false = refl

    new : List ℕ
    new = if is_named name (split 32 names) then t.made ∷ [] else []

    added :
        (capture : Bool)
        → called_in capture name (add_all t.made capture (split 32 names) t.list)
          ≡ called_in capture name t.list ++ new
    added capture =
        called_in-add_all name t.made capture (split 32 names) t.list
        ∙ rw (is_listed-old name t.made capture t.list h, and_true (is_named name (split 32 names)))
            refl

    by :
        (capture : Bool)
        → dispatch name (add_all t.made capture (split 32 names) t.list) ≡ (
            if capture
            then (called_in true name t.list ++ new) ++ called_in false name t.list
            else called_in true name t.list ++ (called_in false name t.list ++ new))
    by true =
        rw (added true, called_in-other false name t.made true (split 32 names) t.list refl) refl
    by false =
        rw (called_in-other true name t.made false (split 32 names) t.list refl, added false) refl
