-- ===== src/Dom/Shape.antt =====
-- The tree stays a tree, whatever is moved, put in or taken out. assets/js/goradd.js.
use serve.Base.{
  ℕ, List, [], ◌∷◌, arith, ◌==◌, Bool-cases, Option-cases, inl, inr, Option, none, some, subst,
}
use serve.Dom.{
  Dom, append_child, append_to, insert_into, move_after, after_begin, before_begin, after_end,
  insert_before, replace_child, remove, wrap, detach, on_children, has_parent, put_instead,
}
use serve.Dom.Count.{
  IsPlacedOnce, places-detach, places-put_before, places-put_after, places-put_instead,
  places-append, places-cons,
}

append-IsPlacedOnce : (p x : ℕ) (d : Dom) → IsPlacedOnce d → IsPlacedOnce (append_child p x d)
unfolding append_child
append-IsPlacedOnce p x d h n =
    let here = h n in ground (arith, places-append n p x (detach x d), places-detach n x d)

begin-IsPlacedOnce : (p x : ℕ) (d : Dom) → IsPlacedOnce d → IsPlacedOnce (after_begin p x d)
unfolding after_begin
begin-IsPlacedOnce p x d h n =
    let here = h n in ground (arith, places-cons n p x (detach x d), places-detach n x d)

before-IsPlacedOnce : (r x : ℕ) (d : Dom) → IsPlacedOnce d → IsPlacedOnce (before_begin r x d)
unfolding before_begin
before-IsPlacedOnce r x d h n =
    let here = h n in
    let there = h r in
    ground (arith, places-put_before n x r (detach x d), places-detach n x d, places-detach r x d)

after-IsPlacedOnce : (r x : ℕ) (d : Dom) → IsPlacedOnce d → IsPlacedOnce (after_end r x d)
unfolding after_end
after-IsPlacedOnce r x d h n =
    let here = h n in
    let there = h r in
    ground (arith, places-put_after n x r (detach x d), places-detach n x d, places-detach r x d)

detach-IsPlacedOnce : (x : ℕ) (d : Dom) → IsPlacedOnce d → IsPlacedOnce (detach x d)
detach-IsPlacedOnce x d h n = let here = h n in ground (arith, places-detach n x d)

instead-IsPlacedOnce :
    (x r : ℕ) (d : Dom) → IsPlacedOnce d → IsPlacedOnce (on_children (put_instead x r) (detach x d))
instead-IsPlacedOnce x r d h n =
    let here = h n in
    let there = h r in
    ground (arith, places-put_instead n x r (detach x d), places-detach n x d, places-detach r x d)

-- The calls that change the tree: those of the tag builder, which first make an element, and those of
-- a control.
pub data Change : Type 0 where
  appends : ℕ → ℕ → Change
  inserts_into : ℕ → ℕ → Change
  moves_before : ℕ → ℕ → Change
  moves_after : ℕ → ℕ → Change
  inserts_before : ℕ → ℕ → Change
  replaces : ℕ → ℕ → Change
  wraps : ℕ → ℕ → Change
  removes : ℕ → Change

-- The tree after a call; a call that throws leaves it as it is.
unfoldable pub or_else : Option Dom → Dom → Dom
or_else none d = d
or_else (some e) d = e

unfoldable pub change : Change → Dom → Dom
change (appends p x) d = append_to x p d
change (inserts_into p x) d = insert_into x p d
change (moves_before r x) d = before_begin r x d
change (moves_after r x) d = move_after x r d
change (inserts_before r x) d = or_else (insert_before x r d) d
change (replaces r x) d = or_else (replace_child x r d) d
change (wraps r x) d = or_else (wrap x r d) d
change (removes x) d = or_else (remove x d) d

unfoldable pub change_all : List Change → Dom → Dom
change_all [] d = d
change_all (c ∷ cs) d = change_all cs (change c d)

replace-IsPlacedOnce :
    (x r : ℕ) (d : Dom) → IsPlacedOnce d → IsPlacedOnce (or_else (replace_child x r d) d)
unfolding replace_child or_else
replace-IsPlacedOnce x r d h = elim (Bool-cases (has_parent r d)) [
  | inl e ↦ elim (Bool-cases (x == r)) [
    | inl q ↦ rw (e, q) h
    | inr q ↦ rw (e, q) (instead-IsPlacedOnce x r d h)
  ]
  | inr e ↦ rw (e) h
]

wrap-IsPlacedOnce : (x r : ℕ) (d : Dom) → IsPlacedOnce d → IsPlacedOnce (or_else (wrap x r d) d)
unfolding wrap or_else
wrap-IsPlacedOnce x r d h = elim (Option-cases (replace_child x r d)) [
  | inl e ↦ rw (wrap, e) h
  | inr (d1, e) ↦
      rw (wrap, e)
        (append-IsPlacedOnce x r d1
          (subst (λ o. IsPlacedOnce (or_else o d)) e (replace-IsPlacedOnce x r d h)))
]

change-IsPlacedOnce : (c : Change) (d : Dom) → IsPlacedOnce d → IsPlacedOnce (change c d)
unfolding change insert_before remove or_else append_to insert_into move_after
change-IsPlacedOnce (appends p x) d h = append-IsPlacedOnce p x d h
change-IsPlacedOnce (inserts_into p x) d h = begin-IsPlacedOnce p x d h
change-IsPlacedOnce (moves_before r x) d h = before-IsPlacedOnce r x d h
change-IsPlacedOnce (moves_after r x) d h = after-IsPlacedOnce r x d h
change-IsPlacedOnce (inserts_before r x) d h = elim (Bool-cases (has_parent r d)) [
  | inl e ↦ rw (e) (before-IsPlacedOnce r x d h)
  | inr e ↦ rw (e) h
]
change-IsPlacedOnce (replaces r x) d h = replace-IsPlacedOnce x r d h
change-IsPlacedOnce (wraps r x) d h = wrap-IsPlacedOnce x r d h
change-IsPlacedOnce (removes x) d h = elim (Bool-cases (has_parent x d)) [
  | inl e ↦ rw (e) (detach-IsPlacedOnce x d h)
  | inr e ↦ rw (e) h
]

-- In no history of building, moving, replacing, wrapping and removing elements does an element come
-- to stand in two places, if none does at the start.
pub change_all-IsPlacedOnce :
    (cs : List Change) (d : Dom) → IsPlacedOnce d → IsPlacedOnce (change_all cs d)
unfolding change_all
change_all-IsPlacedOnce [] d h = h
change_all-IsPlacedOnce (c ∷ cs) d h =
    change_all-IsPlacedOnce cs (change c d) (change-IsPlacedOnce c d h)
