-- ===== src/Dom.antt =====
-- The tree of elements as assets/js/goradd.js moves through it and changes it: `goradd.TagBuilder`
-- and the functions of `goradd.Control` that move elements and find their neighbours. Elements are
-- numbers. The browser's own part is the list of the children of each element, and how a node that
-- is put somewhere leaves the place where it stood; an element is not put below itself.
pub mod Count
pub mod Shape
pub mod Wrapped
pub mod Upward
pub mod Columns
use serve.Base.{
  ◌≡◌, refl, ◌≢◌, sym, ap, ◌∙◌, ℕ, zero, suc, ◌+◌, ◌-◌, ◌≤◌, ◌<◌, max, String, str_eq, str_append,
  eq_iff, eq_refl, Bool, true, false, not, ◌&&◌, ◌||◌, List, [], ◌∷◌, ◌++◌, arith, if◌then◌else◌,
  ◌==◌, ==_iff, ltb, leb, Bool-cases, Option-cases, inl, inr, ◌⊎◌, ◌↔◌, All, All-append, Option,
  none, some, append-nil, append_assoc, map, reverse, length, get_elem?,
}

-- The children of each element that has some, in order
abbrev pub Dom : Type 0
Dom = List (ℕ × List ℕ)

unfoldable pub children_of : ℕ → Dom → List ℕ
children_of p [] = []
children_of p (e ∷ d) = if e.0 == p then e.1 else children_of p d

unfoldable pub is_in : ℕ → List ℕ → Bool
is_in x [] = false
is_in x (c ∷ cs) = (c == x) || is_in x cs

-- `el.parentElement`
unfoldable pub parent_of : ℕ → Dom → Option ℕ
parent_of x [] = none
parent_of x (e ∷ d) = if is_in x (e.1) then some (e.0) else parent_of x d

-- A function applied to the children of every element
unfoldable pub on_children : (List ℕ → List ℕ) → Dom → Dom
on_children f [] = []
on_children f (e ∷ d) = (e.0, f (e.1)) ∷ on_children f d

-- ... and to those of one
unfoldable pub on_children_of : ℕ → (List ℕ → List ℕ) → Dom → Dom
on_children_of p f [] = (p, f []) ∷ []
on_children_of p f (e ∷ d) = if e.0 == p then (p, f (e.1)) ∷ d else e ∷ on_children_of p f d

unfoldable pub without : ℕ → List ℕ → List ℕ
without x [] = []
without x (c ∷ cs) = if c == x then without x cs else c ∷ without x cs

unfoldable pub put_before : ℕ → ℕ → List ℕ → List ℕ
put_before x r [] = []
put_before x r (c ∷ cs) = if c == r then x ∷ c ∷ put_before x r cs else c ∷ put_before x r cs

unfoldable pub put_after : ℕ → ℕ → List ℕ → List ℕ
put_after x r [] = []
put_after x r (c ∷ cs) = if c == r then c ∷ x ∷ put_after x r cs else c ∷ put_after x r cs

unfoldable pub put_instead : ℕ → ℕ → List ℕ → List ℕ
put_instead x r [] = []
put_instead x r (c ∷ cs) = if c == r then x ∷ put_instead x r cs else c ∷ put_instead x r cs

-- A node that is put somewhere first leaves its place.
unfoldable pub detach : ℕ → Dom → Dom
detach x d = on_children (without x) d

unfoldable pub has_parent : ℕ → Dom → Bool
has_parent x d = elim (parent_of x d) [ none ↦ false | some p ↦ true ]

-- `p.appendChild(x)` and `insertAdjacentElement("beforeend", x)`
unfoldable pub append_child : ℕ → ℕ → Dom → Dom
append_child p x d = on_children_of p (λ cs. cs ++ x ∷ []) (detach x d)

-- `insertAdjacentElement("afterbegin", x)`
unfoldable pub after_begin : ℕ → ℕ → Dom → Dom
after_begin p x d = on_children_of p (λ cs. x ∷ cs) (detach x d)

-- `insertAdjacentElement("beforebegin", x)` and `("afterend", x)` of an element: nothing happens where
-- the element has no parent, and an element that is put beside itself stays.
unfoldable pub before_begin : ℕ → ℕ → Dom → Dom
before_begin r x d =
    if has_parent r d && not (x == r) then on_children (put_before x r) (detach x d) else d

unfoldable pub after_end : ℕ → ℕ → Dom → Dom
after_end r x d =
    if has_parent r d && not (x == r) then on_children (put_after x r) (detach x d) else d

-- `moveAfter`, `insertInto` and `appendTo` of a control x
unfoldable pub move_after : ℕ → ℕ → Dom → Dom
move_after x el d = after_end el x d

unfoldable pub insert_into : ℕ → ℕ → Dom → Dom
insert_into x el d = after_begin el x d

unfoldable pub append_to : ℕ → ℕ → Dom → Dom
append_to x el d = append_child el x d

-- `el.parentElement.insertBefore(x, el)`, `replaceChild(x, el)` and `removeChild(el)`, `none` where they
-- throw because there is no parent
unfoldable pub insert_before : ℕ → ℕ → Dom → Option Dom
insert_before x el d = if has_parent el d then some (before_begin el x d) else none

unfoldable pub replace_child : ℕ → ℕ → Dom → Option Dom
replace_child x el d =
    if has_parent el d
    then some (if x == el then d else on_children (put_instead x el) (detach x d))
    else none

-- `remove` of a control
unfoldable pub remove : ℕ → Dom → Option Dom
remove el d = if has_parent el d then some (detach el d) else none

-- `wrap` of the tag builder, with the new element
unfoldable pub wrap : ℕ → ℕ → Dom → Option Dom
wrap tag el d = elim (replace_child tag el d) [
  | none ↦ none
  | some d1 ↦ some (append_child tag el d1)
]

-- `previousElementSibling` and `nextElementSibling` in a list of children
unfoldable pub next_in : ℕ → List ℕ → Option ℕ
next_in x [] = none
next_in x (c ∷ cs) = if c == x then (elim cs [ [] ↦ none | y ∷ ys ↦ some y ]) else next_in x cs

unfoldable pub prev_in : ℕ → Option ℕ → List ℕ → Option ℕ
prev_in x last [] = none
prev_in x last (c ∷ cs) = if c == x then last else prev_in x (some c) cs

-- `next`, `prev` and `firstChild` of a control
unfoldable pub next : ℕ → Dom → Option ℕ
next x d = elim (parent_of x d) [ none ↦ none | some p ↦ next_in x (children_of p d) ]

unfoldable pub prev : ℕ → Dom → Option ℕ
prev x d = elim (parent_of x d) [ none ↦ none | some p ↦ prev_in x none (children_of p d) ]

unfoldable pub first_child : ℕ → Dom → Option ℕ
first_child x d = elim (children_of x d) [ [] ↦ none | c ∷ cs ↦ some c ]

-- `parents`: the loop, with fuel for its turns
unfoldable pub parents : ℕ → ℕ → Dom → List ℕ
parents zero el d = []
parents (suc fuel) el d = elim (parent_of el d) [ none ↦ [] | some p ↦ p ∷ parents fuel p d ]

-- `closest`: an element without a parent is not looked at.
unfoldable pub closest : ℕ → (ℕ → Bool) → ℕ → Dom → Option ℕ
closest zero matches el d = none
closest (suc fuel) matches el d = elim (parent_of el d) [
  | none ↦ none
  | some p ↦ elim (matches el) [ true ↦ some el | false ↦ closest fuel matches p d ]
]

-- `children` of a control: the function that is mapped over them returns nothing.
unfoldable pub children : ℕ → Dom → List (Option ℕ)
children x d = map (λ c. none) (children_of x d)

-- `matches` where the browser has none: the loop down the list of what the selector finds
unfoldable pub matches_below : ℕ → ℕ → List ℕ → Bool
matches_below zero el found = false
matches_below (suc i) el found = elim (get_elem? found i) [
  | none ↦ matches_below i el found
  | some c ↦ elim (c == el) [ true ↦ true | false ↦ matches_below i el found ]
]

unfoldable pub matches_listed : ℕ → List ℕ → Bool
matches_listed el found = matches_below (length found) el found
