-- ===== src/Elements/Styles.antt =====
-- `css` and `prop` of `goradd.Control` in assets/js/goradd.js, with any property: what the browser
-- computes of the inline style is a parameter, and so is which properties an element has.
use serve.Base.{
  ◌≡◌, refl, ap, subst, ◌∙◌, String, str_eq, eq_iff, false, List, [], ◌∷◌, arith, if◌then◌else◌,
  Bool-cases, Option-cases, inl, inr, Option, none, some,
}
use serve.Base.Dict.{Dict, lookup, insert, remove, lookup-insert, lookup-insert_self, lookup-remove}
use serve.Value.{Value, obj, Fields, field, end, get, put, each, field_entries, has, array_like}
use serve.Value.Keys.{Keyed, get-put, each-obj}

-- `window.getComputedStyle`, as a function of the inline style: a property that it does not have is
-- `none`.
abbrev pub Computed : Type 0
Computed = Dict String → String → Option String

module _ (computed : Computed) where
  -- `css(p)`
  unfoldable pub css_of : String → Dict String → Option String
  css_of p style = elim (computed style p) [ some v ↦ some v | none ↦ lookup p style ]

  -- What `css(p, v)` does, where no text stands for `null` and `undefined` too
  unfoldable pub set_css : String → String → Dict String → Dict String
  set_css p v style = if str_eq v "" then remove p style else insert p v style

  -- `css(p, v)`: the answer and the style
  unfoldable pub css : String → String → Dict String → Option String × Dict String
  css p v style = (css_of p style, set_css p v style)

  -- The inline style wins, if the browser knows the property.
  abbrev pub InlineWins : Type 0
  InlineWins =
      (p v : String) (style : Dict String) (w : String)
      → lookup p style ≡ some v
      → computed style p ≡ some w
      → w ≡ v

  css_of-set :
      (p v : String) (style : Dict String)
      → InlineWins
      → lookup p style ≡ some v
      → css_of p style ≡ some v
  unfolding css_of
  css_of-set p v style wins h = elim (Option-cases (computed style p)) [
    | inl e ↦ rw (e, css_of) h
    | inr (w, e) ↦ rw (e, css_of) (ap some (wins p v style w h e))
  ]

  -- If the inline style wins, then of two settings of a property the second answers with what the
  -- first has set, and takes it back, for another value, and no other property of the style changes.
  pub css-css :
      (p q v w : String) (style : Dict String)
      → InlineWins
      → str_eq v "" ≡ false
      → ((css p w (css p v style).1).0 ≡ some v)
        × (lookup q (css p w (css p v style).1).1
            ≡ (if str_eq p q then (if str_eq w "" then none else some w) else lookup q style))
  unfolding css set_css
  css-css p q v w style wins h = (
    rw (h, set_css) (css_of-set p v (insert p v style) wins (lookup-insert_self p v style)),
    ground (
      arith,
      h,
      lookup-insert p q v style,
      lookup-insert p q w (insert p v style),
      lookup-remove p q (insert p v style),
    ),
  )

-- `prop(key)` and `prop(key, v)`
unfoldable pub prop : String → Fields → Value
prop key element = get key element

unfoldable pub set_prop : String → Value → Fields → Fields
set_prop key v element = put key v element

-- `prop` of an object: the loop over its entries
unfoldable pub set_props : List (String × Value) → Fields → Fields
set_props [] element = element
set_props ((k, v) ∷ entries) element = set_props entries (set_prop k v element)

unfoldable pub prop_group : Fields → Fields → Fields
prop_group group element = set_props (each (obj group)) element

get-set_props :
    (key : String) (group element : Fields)
    → Keyed group
    → prop key (set_props (field_entries group) element)
      ≡ (if has key group then get key group else prop key element)
unfolding set_props field_entries set_prop prop get has
get-set_props key end element h = refl
get-set_props key (field k v group) element h = elim (Bool-cases (str_eq k key)) [
  | inl e ↦ rw (e) (
      get-set_props key group (put k v element) h.1
      ∙ rw (subst (λ z. has z group ≡ false) ((eq_iff k key).0 e) h.0, get-put k key v element, e)
          refl)
  | inr e ↦
      rw (e) (get-set_props key group (put k v element) h.1 ∙ rw (get-put k key v element, e) refl)
]

-- A group of properties is set as one: each that is in it has its value, and every other the value
-- that it had, unless the group has a length by which `each` takes it for an array.
pub prop-prop_group :
    (key : String) (group element : Fields)
    → Keyed group
    → array_like group ≡ none
    → prop key (prop_group group element)
      ≡ (if has key group then get key group else prop key element)
unfolding prop_group
prop-prop_group key group element h a =
    ap (λ es. prop key (set_props es element)) ((each-obj group).0 a)
    ∙ get-set_props key group element h
