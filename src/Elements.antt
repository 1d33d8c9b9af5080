-- ===== src/Elements.antt =====
-- The object `goradd.Control` of assets/js/goradd.js around an element of the page: attributes,
-- classes, data, values, and hiding. The conversion of values to text and the loose equality of the
-- language are parameters. Names of attributes are in lower case, and a field that the element's own
-- style does not set has the style that the style sheets give.
pub mod Attributes
pub mod Classes
pub mod Values
pub mod Styles
use serve.Base.{
  ◌≡◌, refl, ◌≢◌, sym, ap, ◌∙◌, ℕ, zero, suc, ◌+◌, ◌-◌, ◌≤◌, ◌<◌, max, String, str_eq, str_append,
  eq_iff, eq_refl, Bool, true, false, not, ◌&&◌, ◌||◌, List, [], ◌∷◌, ◌++◌, arith, if◌then◌else◌,
  ◌==◌, ==_iff, ltb, leb, Bool-cases, Option-cases, inl, inr, ◌⊎◌, ◌↔◌, All, All-append, Option,
  none, some, append-nil, append_assoc, map, reverse, length,
}
use serve.Base.Dict.{Dict, lookup, insert, remove, keys}
use serve.Base.Words.{split, without_first}
use serve.Value.{Value, undefined, null, bool, num, str, arr, obj, ref, Items, nil, cons}
use serve.Watchers.{contains}
use text.Mathlib.Text.{starts_with, find?}

-- `el.type`, as far as `val` tells types apart
pub data ElementType : Type 0 where
  select_multiple : ElementType
  checkbox : ElementType
  radio : ElementType
  other : ElementType

pub record Choice : Type 0 where
  pub text : String
  pub selected : Bool

pub record Element : Type 0 where
  pub attributes : Dict String
  -- `classList`
  pub classes : List String
  -- `el.goradd.data`
  pub private_data : Dict Value
  -- `el.dataset`
  pub dataset : Dict String
  pub type : ElementType
  -- `el.value`, `none` where the element has no such property
  pub value : Option String
  pub checked : Bool
  -- the `option` elements below it
  pub options : List Choice
  -- the inline `display` and the one that the style sheets give
  pub inline_display : Option String
  pub sheet_display : String
  -- `el.goradd.hidden`
  pub hidden : Option String

-- `attr(k)`: what a text reads as
unfoldable pub read_attribute : String → Value
read_attribute v =
    if str_eq v "true" || str_eq v ""
    then bool true
    else if str_eq v "false"
    then bool false
    else str v

unfoldable pub attr : String → Element → Value
attr k e = elim (lookup k e.attributes) [ none ↦ undefined | some v ↦ read_attribute v ]

-- `attr()`: the entries of the object, `none` where there are no attributes
unfoldable pub all_entries : Dict String → List (String × Value)
all_entries [] = []
all_entries (a ∷ rest) = (a.0, if str_eq (a.1) "" then bool true else str (a.1)) ∷ all_entries rest

unfoldable pub attr_all : Element → Option (List (String × Value))
attr_all e = elim e.attributes [ [] ↦ none | _ ∷ _ ↦ some (all_entries e.attributes) ]

-- What `attr(k, v)` writes: `none` where it removes the attribute.
unfoldable pub written : (Value → String) → Value → Option String
written to_text undefined = none
written to_text null = none
written to_text (bool false) = none
written to_text (bool true) = some ""
written to_text v = some (to_text v)

-- `attr(k, v)`
unfoldable pub set_attr : (Value → String) → String → Value → Element → Element
set_attr to_text k v e = record e {
  attributes = elim (written to_text v) [
    | none ↦ remove k e.attributes
    | some s ↦ insert k s e.attributes
  ];
}

-- `classList.add`, `remove` and `toggle`
unfoldable pub add_class : String → List String → List String
add_class c cs = if contains cs c then cs else cs ++ c ∷ []

unfoldable pub remove_class : String → List String → List String
remove_class c [] = []
remove_class c (d ∷ ds) = if str_eq d c then remove_class c ds else d ∷ remove_class c ds

unfoldable pub flip_class : String → List String → List String
flip_class c cs = if contains cs c then remove_class c cs else cs ++ c ∷ []

-- The loops over the names that are not empty.
unfoldable pub for_names :
    (String → List String → List String) → List String → List String → List String
for_names f [] cs = cs
for_names f (n ∷ ns) cs = for_names f ns (if str_eq n "" then cs else f n cs)

-- `class(c)`; a name that is assigned twice is kept once.
unfoldable pub class : String → Element → Element
class c e =
    let names = split 32 (without_first c) in
    record e {
      classes =
          if starts_with c "+"
          then for_names add_class names e.classes
          else if starts_with c "-"
          then for_names remove_class names e.classes
          else for_names add_class (split 32 c) [];
    }

unfoldable pub has_class : String → Element → Bool
has_class c e = contains e.classes c

-- `toggleClass`
unfoldable pub toggle_class : String → Element → Element
toggle_class c e = record e { classes = for_names flip_class (split 32 c) e.classes }

-- `data(key)` and `data(key, v)`
unfoldable pub get_data : String → Element → Value
get_data key e = elim (lookup key e.private_data) [
  | some v ↦ v
  | none ↦ elim (lookup key e.dataset) [ some s ↦ str s | none ↦ undefined ]
]

unfoldable pub set_data : String → Value → Element → Element
set_data key v e = record e { private_data = insert key v e.private_data }

-- `css("display")`, `css("display", v)`, `hide` and `show`; "" stands for no value.
unfoldable pub display : Element → String
display e = elim e.inline_display [ some d ↦ d | none ↦ e.sheet_display ]

unfoldable pub set_display : Option String → Element → Element
set_display d e = record e { inline_display = d }

unfoldable pub hide : Element → Element
hide e = elim e.hidden [
  | some d ↦ e
  | none ↦
      set_display (some "none")
        (record e { hidden = if not (str_eq (display e) "") then some (display e) else none })
]

unfoldable pub show : Element → Element
show e = set_display e.hidden e

unfoldable pub includes : Items → String → Bool
includes nil s = false
includes (cons (str t) vs) s = str_eq t s || includes vs s
includes (cons _ vs) s = includes vs s

-- The loop of `val(v)` over the options
unfoldable pub select_options : (String → Bool) → List Choice → List Choice
select_options wanted [] = []
select_options wanted (o ∷ os) = record o { selected = wanted o.text } ∷ select_options wanted os

unfoldable pub selected_values : List Choice → Items
selected_values [] = nil
selected_values (o ∷ os) =
    if o.selected then cons (str o.text) (selected_values os) else selected_values os

-- `v.includes(s)` of an array or a text; all other values lack that function, so that the call throws.
unfoldable pub wants : Value → Option (String → Bool)
wants (arr vs) = some (includes vs)
wants (str t) = some (λ s. elim (find? t s) [ none ↦ false | some i ↦ true ])
wants _ = none

unfoldable pub select_all : Value → List Choice → Option (List Choice)
select_all v [] = some []
select_all v (o ∷ os) = elim (wants v) [
  | none ↦ none
  | some wanted ↦ some (select_options wanted (o ∷ os))
]

-- `val(v)` on a checkbox
unfoldable pub check_box : Value → Option String → Bool
check_box (bool b) own = b
check_box (num n) own = not (n == 0)
check_box (str s) (some t) = str_eq t s
check_box v own = false

module _ (to_text : Value → String) (loosely_equal : Option String → Value → Bool) where
  -- `val(v)` on a radio button
  unfoldable pub check_radio : Value → Option String → Bool
  check_radio (bool b) own = b
  check_radio v own = loosely_equal own v

  -- `val(v)`, `none` where it throws; an element of another type takes any text as its value.
  unfoldable pub set_val : Value → Element → Option Element
  set_val v e = elim e.type [
    | select_multiple ↦ elim (select_all v e.options) [
      | none ↦ none
      | some os ↦ some (record e { options = os })
    ]
    | checkbox ↦ some (record e { checked = check_box v e.value })
    | radio ↦ some (record e { checked = check_radio v e.value })
    | other ↦ some (record e { value = some (to_text v) })
  ]

-- `val()`
unfoldable pub own_value : Option String → Value → Value
own_value none v = v
own_value (some s) v = str s

unfoldable pub val : Element → Value
val e = elim e.type [
  | select_multiple ↦ arr (selected_values e.options)
  | checkbox ↦ if e.checked then own_value e.value (bool true) else null
  | radio ↦ if e.checked then own_value e.value (bool true) else null
  | other ↦ own_value e.value null
]
