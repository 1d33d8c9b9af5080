-- ===== src/Registration.antt =====
-- Registering the controls of a page: `_registerControls`, `_registerControl`, `_fromKebab` and
-- `attachWidget` of assets/js/goradd.js. The attributes `data-gr-watch` and `data-gr-widget` are
-- taken as their text, and jQuery is taken to be absent.
pub mod Once
use Prim.Native.Char.{Char, code}
use Prim.Native.String.{char_at}
use serve.Base.{
  ◌≡◌, refl, ◌≢◌, sym, ap, ◌∙◌, ℕ, zero, suc, ◌+◌, ◌-◌, ◌≤◌, ◌<◌, max, String, str_eq, str_append,
  eq_iff, eq_refl, Bool, true, false, not, ◌&&◌, ◌||◌, List, [], ◌∷◌, ◌++◌, arith, if◌then◌else◌,
  ◌==◌, ==_iff, ltb, leb, Bool-cases, Option-cases, inl, inr, ◌⊎◌, ◌↔◌, All, All-append, Option,
  none, some, append-nil, append_assoc, map, reverse, length,
}
use serve.Base.Dict.{Dict, lookup, insert}
use serve.Base.Words.{split}
use serve.Value.{Value, Fields, end, put}
use serve.Elements.{read_attribute}
use serve.Watchers.{Watch, add_watcher, contains}
use text.Mathlib.Text.{starts_with}

pub record Control : Type 0 where
  -- which element it is
  pub key : ℕ
  pub id : String
  pub tag : String
  pub type : String
  pub attributes : Dict String

pub record Registry : Type 0 where
  pub watch : Watch
  -- the elements with the data `gr-reg`
  pub registered : List ℕ
  -- the handlers `_formObjChanged`: the element, the event, whether it captures
  pub listeners : List (ℕ × (String × Bool))
  -- the widgets that were made, with their options
  pub widgets : List (ℕ × (String × Fields))

-- The letters of `toUpperCase`
unfoldable pub upper : Char → Char
upper c =
    if leb 97 (code c) && leb (code c) 122
    then char_at "ABCDEFGHIJKLMNOPQRSTUVWXYZ" (code c - 97)
    else c

unfoldable pub is_letter : Char → Bool
is_letter c = (leb 97 (code c) && leb (code c) 122) || (leb 65 (code c) && leb (code c) 90)

-- `_fromKebab`; the flag says that a dash was read last.
unfoldable pub kebab_from : Bool → String → String
kebab_from false String.[] = ""
kebab_from true String.[] = "-"
kebab_from false (String.◌∷◌ c s) = elim (code c == 45) [
  | true ↦ kebab_from true s
  | false ↦ String.◌∷◌ c (kebab_from false s)
]
kebab_from true (String.◌∷◌ c s) = elim (is_letter c) [
  | true ↦ String.◌∷◌ (upper c) (kebab_from false s)
  | false ↦ elim (code c == 45) [
    | true ↦ str_append "-" (kebab_from true s)
    | false ↦ str_append "-" (String.◌∷◌ c (kebab_from false s))
  ]
]

unfoldable pub from_kebab : String → String
from_kebab s = kebab_from false s

-- `s.substring(n)`
unfoldable pub substring : ℕ → String → String
substring zero s = s
substring (suc n) String.[] = ""
substring (suc n) (String.◌∷◌ c s) = substring n s

unfoldable pub has_key : ℕ → List ℕ → Bool
has_key k [] = false
has_key k (j ∷ js) = (j == k) || has_key k js

-- The first part of each entry of `data-gr-watch`
unfoldable pub head_or : String → List String → String
head_or s [] = s
head_or s (t ∷ ts) = t

unfoldable pub add_watchers : String → List String → Watch → Watch
add_watchers id [] w = w
add_watchers id (entry ∷ rest) w =
    add_watchers id rest (add_watcher id (head_or "" (split 61 entry)) w)

unfoldable pub watch_control : Control → Watch → Watch
watch_control c w = elim (lookup "data-gr-watch" c.attributes) [
  | none ↦ w
  | some s ↦ add_watchers c.id (split 59 s) w
]

-- The options that the attributes of a control declare
unfoldable pub widget_options : Dict String → Fields → Fields
widget_options [] options = options
widget_options (a ∷ rest) options = widget_options rest (
    if not (str_eq (a.0) "data-gr-widget") && starts_with (a.0) "data-gr-opt-"
    then put (from_kebab (substring 12 (a.0)))
        (if str_eq (a.1) "" then Value.bool true else Value.str (a.1)) options
    else options)

-- `attachWidget`, with the names of `_registeredWidgets`
unfoldable pub attach_widget : List String → Control → Registry → Registry
attach_widget known c s = elim (lookup "data-gr-widget" c.attributes) [
  | none ↦ s
  | some name ↦
      if contains known name
      then record s { widgets = s.widgets ++ (c.key, (name, widget_options c.attributes end)) ∷ [] }
      else s
]

unfoldable pub is_button : Control → Bool
is_button c = str_eq c.type "checkbox" || str_eq c.type "radio"

-- The handlers of a control, in the order in which they are attached
unfoldable pub own_listeners : Control → List (ℕ × (String × Bool))
own_listeners c =
    (if is_button c then (c.key, ("click", false)) ∷ [] else [])
    ++ (c.key, ("change", true)) ∷ (c.key, ("input", true)) ∷ []

-- `_registerControl`
unfoldable pub register_control : List String → Control → Registry → Registry
register_control known c s =
    let s1 : Registry = record s { watch = watch_control c s.watch } in
    if has_key c.key s.registered || str_eq c.tag "FORM"
    then s1
    else attach_widget known c (record s1 {
      registered = c.key ∷ s.registered;
      listeners = s.listeners ++ own_listeners c;
    })

-- The loops of `_registerControls`
unfoldable pub register_all : List String → List Control → Registry → Registry
register_all known [] s = s
register_all known (c ∷ cs) s = register_all known cs (register_control known c s)

-- `_registerControls`: the controls with `data-grctlhigh`, and then those with `data-grctl`
unfoldable pub register_controls : List String → List Control → List Control → Registry → Registry
register_controls known high low s = register_all known low (register_all known high s)
