-- ===== src/Wrappers.antt =====
-- The control that wraps an element: `el`, `g` and the constructor of `goradd.Control` in
-- assets/js/goradd.js. Elements and controls are numbers; a control is kept with its element, which is how
-- both find each other.
pub mod Once
use serve.Base.{
  ◌≡◌, refl, ◌≢◌, sym, ap, ◌∙◌, ℕ, zero, suc, ◌+◌, ◌-◌, ◌≤◌, ◌<◌, max, String, str_eq, str_append,
  eq_iff, eq_refl, Bool, true, false, not, ◌&&◌, ◌||◌, List, [], ◌∷◌, ◌++◌, arith, if◌then◌else◌,
  ◌==◌, ==_iff, ltb, leb, Bool-cases, Option-cases, inl, inr, ◌⊎◌, ◌↔◌, All, All-append, Option,
  none, some, append-nil, append_assoc, map, reverse, length, List-cases, All-get, All-map_at,
}
use serve.Base.Dict.{Dict, lookup}

-- What `g` and `el` are called with
pub data Target : Type 0 where
  nothing : Target
  id : String → Target
  element : ℕ → Target
  control : ℕ → Target

pub record Wrappers : Type 0 where
  -- the elements of the page by their ids
  pub ids : Dict ℕ
  -- `el.goradd.widget`, and `element` of each control, the newest first
  pub widgets : List (ℕ × ℕ)
  pub elements : List (ℕ × ℕ)
  -- how many controls were made
  pub made : ℕ

-- The first entry of a key
unfoldable pub find : ℕ → List (ℕ × ℕ) → Option ℕ
find k [] = none
find k (e ∷ es) = if e.0 == k then some (e.1) else find k es

-- `goradd.el`
unfoldable pub el : Target → Wrappers → Option ℕ
el nothing s = none
el (id i) s = lookup i s.ids
el (element e) s = some e
el (control c) s = find c s.elements

-- `new goradd.Control(el)`
unfoldable pub make_control : ℕ → Wrappers → ℕ × Wrappers
make_control e s = (
  s.made,
  record s {
    widgets = (e, s.made) ∷ s.widgets;
    elements = (s.made, e) ∷ s.elements;
    made = suc s.made;
  },
)

-- The control of an element: the one that it has, or a new one
unfoldable pub control_of : Option ℕ → ℕ → Wrappers → ℕ × Wrappers
control_of (some w) e s = (w, s)
control_of none e s = make_control e s

unfoldable pub wrap_element : Option ℕ → Wrappers → Option ℕ × Wrappers
wrap_element none s = (none, s)
wrap_element (some e) s = let r = control_of (find e s.widgets) e s in (some r.0, r.1)

-- `goradd.g`
unfoldable pub g : Target → Wrappers → Option ℕ × Wrappers
g nothing s = (none, s)
g (control c) s = (some c, s)
g (id i) s = wrap_element (el (id i) s) s
g (element e) s = wrap_element (some e) s
