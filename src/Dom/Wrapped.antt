-- ===== src/Dom/Wrapped.antt =====
-- Where an element stands once it is wrapped. `wrap` of the tag builder of assets/js/goradd.js.
use serve.Base.{
  ◌≡◌, refl, sym, ap, ◌∙◌, ℕ, true, false, List, [], ◌∷◌, ◌++◌, arith, if◌then◌else◌, ◌==◌,
  Bool-cases, inl, inr, none, some,
}
use serve.Dom.{
  Dom, children_of, is_in, parent_of, has_parent, on_children, on_children_of, without, put_instead,
  detach, replace_child, append_child, wrap,
}

children_of-on_children :
    (f : List ℕ → List ℕ)
    → f [] ≡ []
    → (q : ℕ) (d : Dom) → children_of q (on_children f d) ≡ f (children_of q d)
unfolding children_of on_children
children_of-on_children f h q [] = sym h
children_of-on_children f h q (e ∷ d) = elim (Bool-cases (e.0 == q)) [
  | inl b ↦ rw (b) refl
  | inr b ↦ rw (b) (children_of-on_children f h q d)
]

children_of-on_children_of :
    (p : ℕ) (f : List ℕ → List ℕ) (q : ℕ) (d : Dom)
    → children_of q (on_children_of p f d)
      ≡ (if q == p then f (children_of p d) else children_of q d)
unfolding children_of on_children_of
children_of-on_children_of p f q [] = ground arith
children_of-on_children_of p f q (e ∷ d) = ground (arith, children_of-on_children_of p f q d)

is_in-children_of : (x q : ℕ) (d : Dom) → parent_of x d ≡ none → is_in x (children_of q d) ≡ false
unfolding parent_of children_of is_in
is_in-children_of x q [] h = refl
is_in-children_of x q (e ∷ d) h = elim (Bool-cases (is_in x (e.1))) [
  | inl b ↦ absurd (ground (arith, h, b))
  | inr b ↦ ground (arith, h, b, is_in-children_of x q d)
]

without-same : (x : ℕ) (cs : List ℕ) → is_in x cs ≡ false → without x cs ≡ cs
unfolding without is_in
without-same x [] h = refl
without-same x (c ∷ cs) h = ground (arith, h, without-same x cs)

without-put_instead :
    (x r : ℕ) (cs : List ℕ) → (x == r) ≡ false → without r (put_instead x r cs) ≡ put_instead x r cs
unfolding without put_instead
without-put_instead x r [] h = refl
without-put_instead x r (c ∷ cs) h = ground (arith, h, without-put_instead x r cs)

-- The tree once an element is replaced and put into the one that replaces it
abbrev wrapped : ℕ → ℕ → Dom → Dom
wrapped tag el d = append_child tag el (on_children (put_instead tag el) (detach tag d))

children_of-wrapped :
    (tag el q : ℕ) (d : Dom)
    → parent_of tag d ≡ none
    → children_of tag d ≡ []
    → (tag == el) ≡ false
    → children_of q (wrapped tag el d)
      ≡ (if q == tag then el ∷ [] else put_instead tag el (children_of q d))
unfolding append_child detach put_instead without
children_of-wrapped tag el q d new empty other =
    children_of-on_children_of tag (λ cs. cs ++ el ∷ []) q (detach el replaced)
    ∙ elim (Bool-cases (q == tag)) [
      | inl b ↦ rw (b, at tag, empty) refl
      | inr b ↦ rw (b, at q) refl
    ]
  where
    replaced : Dom
    replaced = on_children (put_instead tag el) (detach tag d)

    at : (r : ℕ) → children_of r (detach el replaced) ≡ put_instead tag el (children_of r d)
    at r =
        children_of-on_children (without el) refl r replaced
        ∙ ap (without el) (
            children_of-on_children (put_instead tag el) refl r (detach tag d)
            ∙ ap (put_instead tag el) (
                children_of-on_children (without tag) refl r d
                ∙ without-same tag (children_of r d) (is_in-children_of tag r d new)))
        ∙ without-put_instead tag el (children_of r d) other

-- If an element has a parent and the tag is new and empty, `wrap` ends with the tag in the place of
-- the element, the element as the only child of the tag, and the children of all others unchanged.
pub wrap_lem :
    (tag el : ℕ) (d : Dom)
    → parent_of tag d ≡ none
    → children_of tag d ≡ []
    → has_parent el d ≡ true
    → (e : Dom) × (wrap tag el d ≡ some e)
      × ((q : ℕ)
          → children_of q e ≡ (if q == tag then el ∷ [] else put_instead tag el (children_of q d)))
unfolding wrap replace_child has_parent
wrap_lem tag el d new empty placed = (
  wrapped tag el d,
  rw (wrap, replace_child, placed, other) refl,
  λ q. children_of-wrapped tag el q d new empty other,
)
  where
    unplaced : has_parent tag d ≡ false
    unplaced = rw (has_parent, new) refl

    other : (tag == el) ≡ false
    other = elim (Bool-cases (tag == el)) [
      | inl b ↦ absurd (ground (arith, b, placed, unplaced))
      | inr b ↦ b
    ]
