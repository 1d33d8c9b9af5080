-- ===== src/Widgets.antt =====
-- The classes of widgets and their options: `extendWidget`, `goradd.Widget`, and the look-up `get`
-- of `goradd.Control` in assets/js/goradd.js. The code of a method is a list of steps, of which only
-- those count here that touch `this._super`; the prototype of `goradd.Control` is a parameter.
pub mod Super
pub mod Settings
use serve.Base.{
  ◌≡◌, refl, ◌≢◌, sym, ap, ◌∙◌, ℕ, zero, suc, ◌+◌, ◌-◌, ◌≤◌, ◌<◌, max, String, str_eq, str_append,
  eq_iff, eq_refl, Bool, true, false, not, ◌&&◌, ◌||◌, List, [], ◌∷◌, ◌++◌, arith, if◌then◌else◌,
  ◌==◌, ==_iff, ltb, leb, Bool-cases, Option-cases, inl, inr, ◌⊎◌, ◌↔◌, All, All-append, Option,
  none, some, append-nil, append_assoc, map, reverse, length, List-cases,
}
use serve.Base.Dict.{Dict, lookup, insert}
use serve.Value.{
  Value, undefined, null, bool, num, str, obj, Fields, end, field, get, has, put, each,
}
use serve.Value.Extend.{extend, merged, is_undefined}

-- A step of the code of a method: something else, a call of `this._super`, or one that throws
pub data Step : Type 0 where
  does : ℕ → Step
  super_call : Step
  fails : Step

-- What a prototype says of a name
pub data Member : Type 0 where
  function : List Step → Member
  static : Value → Member

-- `goradd.Control`, and a class that `extendWidget` made of a class and a prototype
pub data Class : Type 0 where
  root : Class
  extended : Class → Dict Member → Class

-- A member of the prototype of a class: as it is, or with the function that keeps `_super`
pub data Made : Type 0 where
  plain : Member → Made
  override : List Step → Made

unfoldable pub is_truthy : Value → Bool
is_truthy undefined = false
is_truthy null = false
is_truthy (bool b) = b
is_truthy (num n) = not (n == 0)
is_truthy (str s) = not (str_eq s "")
is_truthy _ = true

-- What every object has from `Object`
unfoldable pub is_builtin : String → Bool
is_builtin name =
    str_eq name "constructor"
    || str_eq name "toString"
    || str_eq name "toLocaleString"
    || str_eq name "valueOf"
    || str_eq name "hasOwnProperty"
    || str_eq name "isPrototypeOf"
    || str_eq name "propertyIsEnumerable"

-- `base.prototype[prop]` as a test
unfoldable pub has_member : String → Dict Made → Bool
has_member name base = elim (lookup name base) [
  | none ↦ is_builtin name
  | some (plain (static v)) ↦ is_truthy v
  | some _ ↦ true
]

unfoldable pub make_member : Dict Made → String → Member → Made
make_member base name (static v) = plain (static v)
make_member base name (function steps) =
    if has_member name base then override steps else plain (function steps)

-- `proxiedPrototype`
unfoldable pub proxied : Dict Made → Dict Member → Dict Made
proxied base [] = []
proxied base (entry ∷ rest) = (entry.0, make_member base (entry.0) (entry.1)) ∷ proxied base rest

-- `goradd.extend` of a prototype: a plain object is merged, and what is undefined is left out.
unfoldable pub static_of : Option Made → Value
static_of (some (plain (static v))) = v
static_of _ = undefined

unfoldable pub copy_member : Dict Made → String → Made → Dict Made
copy_member target name (plain (static v)) =
    if is_undefined v
    then target
    else insert name (plain (static (merged (static_of (lookup name target)) v))) target
copy_member target name m = insert name m target

unfoldable pub extend_prototype : Dict Made → Dict Made → Dict Made
extend_prototype target [] = target
extend_prototype target (entry ∷ rest) =
    extend_prototype (copy_member target (entry.0) (entry.1)) rest

-- The prototype of a class; the one that is made is that of `extendWidget`.
unfoldable pub prototype_of : Dict Member → Class → Dict Made
prototype_of control root = map (λ e. (e.0, plain (e.1))) control
prototype_of control (extended base prototype) =
    let base_prototype = prototype_of control base in
    extend_prototype (extend_prototype [] base_prototype) (proxied base_prototype prototype)

-- How a call ends
pub data Ended : Type 0 where
  returned : Ended
  threw : Ended
  out_of_fuel : Ended

-- An object under construction: what `this._super` is, and what was done
pub record Run : Type 0 where
  pub super : Option Class
  pub trace : List ℕ
  pub ended : Ended

-- What follows a call happens only if the call returned.
unfoldable pub after_end : Ended → (Run → Run) → Run → Run
after_end returned f r = f r
after_end threw f r = r
after_end out_of_fuel f r = r

-- `this._super(…)`
unfoldable pub super_step : (Class → Run → Run) → (Run → Run) → Option Class → Run → Run
super_step call next none r = record r { ended = threw }
super_step call next (some c) r = let s = call c r in after_end s.ended next s

-- The code of a method, given what a call of a class does
unfoldable pub run_steps : (Class → Run → Run) → List Step → Run → Run
run_steps call [] r = r
run_steps call (does n ∷ steps) r = run_steps call steps (record r { trace = r.trace ++ n ∷ [] })
run_steps call (fails ∷ steps) r = record r { ended = threw }
run_steps call (super_call ∷ steps) r = super_step call (run_steps call steps) r.super r

-- The function that keeps `_super`: it is the base during the call, and what it was after it.
unfoldable pub call_override : (Class → Run → Run) → Class → List Step → Run → Run
call_override call base steps r =
    let s = run_steps call steps (record r { super = some base }) in
    after_end s.ended (λ q. record q { super = r.super }) s

-- The constructor of a class, which does nothing where the prototype has none
unfoldable pub run_constructor : (Class → Run → Run) → Class → Option Member → Run → Run
run_constructor call base none r = r
run_constructor call base (some (function steps)) r = call_override call base steps r
run_constructor call base (some (static v)) r =
    if is_truthy v then record r { ended = threw } else r

-- A call of a class, with fuel for the calls of the classes below it; 0 stands for what
-- `goradd.Control` does.
unfoldable pub construct : ℕ → Class → Run → Run
construct zero c r = record r { ended = out_of_fuel }
construct (suc fuel) root r = record r { trace = r.trace ++ 0 ∷ [] }
construct (suc fuel) (extended base prototype) r =
    run_constructor (construct fuel) base (lookup "constructor" prototype) r

-- The options of a widget, and the events that it triggered
pub record Widget : Type 0 where
  pub options : Fields
  pub triggered : List String

-- The constructor of `goradd.Widget`, `option` and `setOptions`
unfoldable pub make_widget : Fields → Widget
make_widget options = record { options = extend end (options ∷ []); triggered = "create" ∷ [] }

unfoldable pub set_option : String → Value → Widget → Widget
set_option key value w = record w { options = put key value w.options }

-- `option`, with one argument and with two: what it returns, and the widget
unfoldable pub option : String → Option Value → Widget → Value × Widget
option key none w = (get key w.options, w)
option key (some value) w = (undefined, set_option key value w)

unfoldable pub set_each : List (String × Value) → Widget → Widget
set_each [] w = w
set_each (entry ∷ rest) w = set_each rest (set_option (entry.0) (entry.1) w)

unfoldable pub set_options : Option Fields → Widget → Value × Widget
set_options none w = (obj w.options, w)
set_options (some values) w = (undefined, set_each (each (obj values)) w)

-- `get`: the data, then the option, then the property; `none` where it throws. A control that is no widget has
-- no `_options`, and so its `option` throws.
unfoldable pub get_named : Value → Option Value → Value → Option Value
get_named from_data from_option from_property =
    if not (is_undefined from_data) then some from_data else elim from_option [
      | none ↦ none
      | some v ↦ some (if is_undefined v then from_property else v)
    ]
