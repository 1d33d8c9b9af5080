-- ===== src/Registration/Once.antt =====
-- A control is registered once. `_registerControl` of assets/js/goradd.js.
use serve.Base.{
  ◌≡◌, refl, ap, ◌∙◌, ℕ, suc, ◌+◌, String, str_eq, Bool, false, not, ◌&&◌, ◌||◌, List, [], ◌∷◌,
  ◌++◌, arith, if◌then◌else◌, ◌==◌, Bool-cases, Option-cases, inl, inr, subst,
}
use serve.Registration.{
  register_controls, Control, Registry, has_key, own_listeners, is_button, attach_widget,
  register_control, register_all, lookup,
}

-- How many handlers of an event an element has
unfoldable pub count_listeners : ℕ → String → List (ℕ × (String × Bool)) → ℕ
count_listeners k e [] = 0
count_listeners k e (l ∷ ls) =
    if (l.0 == k) && str_eq (l.1.0) e then suc (count_listeners k e ls) else count_listeners k e ls

count-append :
    (k : ℕ) (e : String) (xs ys : List (ℕ × (String × Bool)))
    → count_listeners k e (xs ++ ys) ≡ count_listeners k e xs + count_listeners k e ys
unfolding count_listeners
count-append k e [] ys = omega arith
count-append k e (x ∷ xs) ys = ground (arith, count-append k e xs ys)

-- Every element that is registered has one handler of `change`, and the others none.
abbrev pub IsOnce : Registry → Type 0
IsOnce s =
    (k : ℕ) → count_listeners k "change" s.listeners ≡ (if has_key k s.registered then 1 else 0)

own-count :
    (c : Control) (k : ℕ)
    → count_listeners k "change" (own_listeners c) ≡ (if c.key == k then 1 else 0)
unfolding count_listeners own_listeners
own-count c k = elim (Bool-cases (is_button c)) [
  | inl b ↦ rw (own_listeners, b) (ground arith)
  | inr b ↦ rw (own_listeners, b) (ground arith)
]

attach_keeps :
    (known : List String) (c : Control) (s : Registry)
    → ((attach_widget known c s).listeners ≡ s.listeners)
      × ((attach_widget known c s).registered ≡ s.registered)
unfolding attach_widget
attach_keeps known c s = elim (Option-cases (lookup "data-gr-widget" c.attributes)) [
  | inl e ↦ rw (attach_widget, e) (refl, refl)
  | inr (name, e) ↦ rw (attach_widget, e) (ground arith)
]

-- Registering a control keeps that every registered element has one handler of `change`, and
-- registers the control unless it is a form.
register_control-IsOnce :
    (known : List String) (c : Control) (s : Registry)
    → IsOnce s
    → IsOnce (register_control known c s)
unfolding register_control has_key
register_control-IsOnce known c s h k =
    let seen = h k in
    let own = own-count c k in
    let grown = count-append k "change" s.listeners (own_listeners c) in
    elim (Bool-cases (has_key c.key s.registered || str_eq c.tag "FORM")) [
      | inl e ↦ rw (e) seen
      | inr e ↦
          rw (e, (attach_keeps known c _).0, (attach_keeps known c _).1)
            (elim (Bool-cases (c.key == k)) [
              | inl q ↦
                  (let same : c.key ≡ k = ground arith in
                    let new : has_key c.key s.registered ≡ false = ground arith in
                    let here : has_key k s.registered ≡ false =
                      subst (λ x. has_key x s.registered ≡ false) same new in
                    ground arith)
              | inr q ↦ ground arith
            ])
    ]

register_all-IsOnce :
    (known : List String) (cs : List Control) (s : Registry)
    → IsOnce s
    → IsOnce (register_all known cs s)
unfolding register_all
register_all-IsOnce known [] s h = h
register_all-IsOnce known (c ∷ cs) s h =
    register_all-IsOnce known cs (register_control known c s) (register_control-IsOnce known c s h)

has_key-register_control :
    (known : List String) (c : Control) (s : Registry) (k : ℕ)
    → has_key k (register_control known c s).registered
      ≡ (has_key k s.registered || ((c.key == k) && not (str_eq c.tag "FORM")))
unfolding register_control has_key
has_key-register_control known c s k =
    elim (Bool-cases (has_key c.key s.registered || str_eq c.tag "FORM")) [
      | inl e ↦ rw (e) (elim (Bool-cases (c.key == k)) [
        | inl q ↦
            (let same : c.key ≡ k = ground arith in
              let both : has_key c.key s.registered ≡ has_key k s.registered =
                ap (λ x. has_key x s.registered) same in
              ground arith)
        | inr q ↦ ground arith
      ])
      | inr e ↦ rw (e, (attach_keeps known c _).1) (ground arith)
    ]

-- Whether a control that is no form, with this key, is among those of a list
unfoldable pub is_offered : ℕ → List Control → Bool
is_offered k [] = false
is_offered k (c ∷ cs) = ((c.key == k) && not (str_eq c.tag "FORM")) || is_offered k cs

has_key-register_all :
    (known : List String) (cs : List Control) (s : Registry) (k : ℕ)
    → has_key k (register_all known cs s).registered ≡ (has_key k s.registered || is_offered k cs)
unfolding register_all is_offered
has_key-register_all known [] s k = ground arith
has_key-register_all known (c ∷ cs) s k =
    rw
      (
        has_key-register_all known cs (register_control known c s) k,
        has_key-register_control known c s k,
      )
      (ground arith)

-- If every registered element has one handler of the event `change` and every other none, then after
-- the controls of the page are registered, once more or for the first time, an element has one
-- handler if it was registered before or belongs to a control that is no form, and else none.
pub register_controls-once :
    (known : List String) (high low : List Control) (s : Registry) (k : ℕ)
    → IsOnce s
    → count_listeners k "change" (register_controls known high low s).listeners
      ≡ (if (has_key k s.registered || is_offered k high) || is_offered k low then 1 else 0)
unfolding register_controls
register_controls-once known high low s k h =
    let s1 : Registry = register_all known high s in
    register_all-IsOnce known low s1 (register_all-IsOnce known high s h) k
    ∙ ap (λ b. if b then 1 else 0)
        (has_key-register_all known low s1 k
          ∙ ap (λ b. b || is_offered k low) (has_key-register_all known high s k))
