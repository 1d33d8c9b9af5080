-- ===== src/Wrappers/Once.antt =====
-- An element has one control. `goradd.g` in assets/js/goradd.js.
use serve.Base.{
  ◌≡◌, refl, sym, ap, ◌∙◌, ℕ, ◌<◌, true, false, arith, if◌then◌else◌, ◌==◌, Bool-cases, inl, inr,
  Option, none, some, subst,
}
use serve.Base.Dict.{lookup}
use serve.Wrappers.{
  Target, nothing, id, element, control, Wrappers, find, el, make_control, control_of, wrap_element,
  g,
}

-- The control that an element has is kept with that element, and is one of those made.
pub record IsPaired (s : Wrappers) : Type 0 where
  pub paired : (e c : ℕ) → find e s.widgets ≡ some c → find c s.elements ≡ some e
  pub old : (e c : ℕ) → find e s.widgets ≡ some c → c < s.made

same_of : {a b : ℕ} → some a ≡ some b → a ≡ b
same_of q = cc

made-IsPaired : (e : ℕ) (s : Wrappers) → IsPaired s → IsPaired (make_control e s).1
unfolding make_control find
made-IsPaired e s h = record {
  paired = λ d c q. elim (Bool-cases (e == d)) [
    | inl b ↦ first d c b (sym (ap (λ z. if z then some s.made else find d s.widgets) b) ∙ q)
    | inr b ↦ later d c (sym (ap (λ z. if z then some s.made else find d s.widgets) b) ∙ q)
  ];
  old = λ d c q. elim (Bool-cases (e == d)) [
    | inl b ↦
        (let k = same_of (sym (ap (λ z. if z then some s.made else find d s.widgets) b) ∙ q) in
          omega arith)
    | inr b ↦
        (let k = h.old d c (sym (ap (λ z. if z then some s.made else find d s.widgets) b) ∙ q) in
          omega arith)
  ];
}
  where
    first :
        (d c : ℕ)
        → (e == d) ≡ true
        → some s.made ≡ some c
        → (if s.made == c then some e else find c s.elements) ≡ some d
    first d c b q = let k = same_of q in ground (arith, b, k)

    later :
        (d c : ℕ)
        → find d s.widgets ≡ some c
        → (if s.made == c then some e else find c s.elements) ≡ some d
    later d c q =
        let k = h.old d c q in
        let p = h.paired d c q in
        let apart : (s.made == c) ≡ false = ground (arith, k) in rw (apart) p

-- The control of an element is kept with it, and is the one that is found again.
control_of-kept :
    (o : Option ℕ) (e : ℕ) (s : Wrappers)
    → find e s.widgets ≡ o
    → IsPaired s
    → (find e (control_of o e s).1.widgets ≡ some (control_of o e s).0)
      × (find (control_of o e s).0 (control_of o e s).1.elements ≡ some e)
      × IsPaired (control_of o e s).1
unfolding control_of make_control
control_of-kept (some w) e s q h = (q, h.paired e w q, h)
control_of-kept none e s q h = (found, kept, made-IsPaired e s h)
  where
    found : find e (make_control e s).1.widgets ≡ some s.made
    found = unfold make_control find in ground arith

    kept : find s.made (make_control e s).1.elements ≡ some e
    kept = unfold make_control find in ground arith

wrap_element-el :
    (o : Option ℕ) (s : Wrappers) (c : ℕ)
    → IsPaired s
    → (wrap_element o s).0 ≡ some c
    → (find c (wrap_element o s).1.elements ≡ o)
      × (wrap_element o (wrap_element o s).1 ≡ (some c, (wrap_element o s).1))
      × IsPaired (wrap_element o s).1
unfolding wrap_element
wrap_element-el none s c h q = cc
wrap_element-el (some e) s c h q =
    let k = control_of-kept (find e s.widgets) e s refl h in
    let r = control_of (find e s.widgets) e s in
    let n = same_of q in
    (
      subst (λ z. find z r.1.elements ≡ some e) n k.1,
      ap (λ o. (some (control_of o e r.1).0, (control_of o e r.1).1)) k.0 ∙ again r.0 r.1 n,
      k.2,
    )
  where
    again :
        (w : ℕ) (t : Wrappers)
        → w ≡ c
        → ◌≡◌ {A = Option ℕ × Wrappers}
            (some (control_of (some w) e t).0, (control_of (some w) e t).1)
            (some c, t)
    again w t n = unfold control_of in ap (λ z. (some z, t)) n

ids-wrap_element : (o : Option ℕ) (s : Wrappers) → (wrap_element o s).1.ids ≡ s.ids
unfolding wrap_element
ids-wrap_element none s = refl
ids-wrap_element (some e) s = by (find e s.widgets)
  where
    by : (o : Option ℕ) → (control_of o e s).1.ids ≡ s.ids
    by none = unfold control_of make_control in refl
    by (some w) = unfold control_of in refl

-- If controls and elements are paired, then whatever `g` is called with, if it answers with a control
-- and `el` finds an element, that is the element of the control, the same call answers with the
-- same control and makes no other, and controls and elements stay paired.
pub el-g :
    (t : Target) (s : Wrappers) (c e : ℕ)
    → IsPaired s
    → (g t s).0 ≡ some c
    → el t s ≡ some e
    → (el (control c) (g t s).1 ≡ some e)
      × (g t (g t s).1 ≡ (some c, (g t s).1))
      × IsPaired (g t s).1
unfolding g el
el-g nothing s c e h q p = cc
el-g (control d) s c e h q p =
    (subst (λ z. find z s.elements ≡ some e) (same_of q) p, ap (λ z. (z, s)) q, h)
el-g (id i) s c e h q p =
    let k = wrap_element-el (lookup i s.ids) s c h q in
    (
      k.0 ∙ p,
      ap (λ d. wrap_element (lookup i d) (wrap_element (lookup i s.ids) s).1)
            (ids-wrap_element (lookup i s.ids) s)
          ∙ k.1,
      k.2,
    )
el-g (element d) s c e h q p = let k = wrap_element-el (some d) s c h q in (k.0 ∙ p, k.1, k.2)
