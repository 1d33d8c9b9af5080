-- ===== src/Elements/Classes.antt =====
-- Which classes an element has after `class` of assets/js/goradd.js.
use serve.Base.{
  ◌≡◌, refl, String, str_eq, eq_iff, false, not, ◌&&◌, ◌||◌, List, [], ◌∷◌, ◌++◌, arith,
  if◌then◌else◌, Bool-cases, inl, inr,
}
use serve.Base.Words.{split, without_first}
use serve.Watchers.{contains}
use serve.Elements.{Element, add_class, remove_class, for_names, class, has_class}
use text.Mathlib.Text.{starts_with}

contains-append :
    (xs ys : List String) (c : String) → contains (xs ++ ys) c ≡ (contains xs c || contains ys c)
unfolding contains
contains-append [] ys c = refl
contains-append (x ∷ xs) ys c = ground (arith, contains-append xs ys c)

contains-add_class :
    (n : String) (cs : List String) (c : String)
    → contains (add_class n cs) c ≡ (contains cs c || str_eq n c)
unfolding add_class contains
contains-add_class n cs c = ground (arith, contains-append cs (n ∷ []) c, eq_iff n c)

contains-remove_class :
    (n : String) (cs : List String) (c : String)
    → contains (remove_class n cs) c ≡ (contains cs c && not (str_eq n c))
unfolding remove_class contains
contains-remove_class n [] c = refl
contains-remove_class n (d ∷ ds) c =
    ground (arith, contains-remove_class n ds c, eq_iff d n, eq_iff d c, eq_iff n c)

names_added :
    (ns cs : List String) (c : String)
    → str_eq c "" ≡ false
    → contains (for_names add_class ns cs) c ≡ (contains cs c || contains ns c)
unfolding for_names contains
names_added [] cs c h = ground arith
names_added (n ∷ ns) cs c h = ground (
  arith,
  names_added ns cs c h,
  names_added ns (add_class n cs) c h,
  contains-add_class n cs c,
  eq_iff n c,
  eq_iff n "",
  eq_iff c "",
)

names_removed :
    (ns cs : List String) (c : String)
    → str_eq c "" ≡ false
    → contains (for_names remove_class ns cs) c ≡ (contains cs c && not (contains ns c))
unfolding for_names contains
names_removed [] cs c h = ground arith
names_removed (n ∷ ns) cs c h = ground (
  arith,
  names_removed ns cs c h,
  names_removed ns (remove_class n cs) c h,
  contains-remove_class n cs c,
  eq_iff n c,
  eq_iff n "",
  eq_iff c "",
)

-- A class, which is not the empty text, is on the element after `class(c)` exactly if: `c` begins
-- with a plus and it was there or is one of the words behind; `c` begins with a minus and it was
-- there and is none of them; or `c` begins with neither and it is a word of `c`.
pub has_class-class :
    (c x : String) (e : Element)
    → str_eq x "" ≡ false
    → has_class x (class c e) ≡ (
        if starts_with c "+"
        then has_class x e || contains (split 32 (without_first c)) x
        else if starts_with c "-"
        then has_class x e && not (contains (split 32 (without_first c)) x)
        else contains (split 32 c) x)
unfolding has_class class contains
has_class-class c x e h = elim (Bool-cases (starts_with c "+")) [
  | inl p ↦ rw (p) (names_added (split 32 (without_first c)) e.classes x h)
  | inr p ↦ elim (Bool-cases (starts_with c "-")) [
    | inl q ↦ rw (p, q) (names_removed (split 32 (without_first c)) e.classes x h)
    | inr q ↦ rw (p, q) (names_added (split 32 c) [] x h)
  ]
]
