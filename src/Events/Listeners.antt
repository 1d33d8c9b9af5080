-- ===== src/Events/Listeners.antt =====
-- The listeners of an element: how `on` of assets/js/goradd.js sorts out its arguments and adds
-- listeners, and how `off` takes them away. Functions, objects and elements are numbers; the browser
-- keeps no two listeners of one name, handler and phase.
pub mod Undo
pub mod Once
use serve.Base.{
  ◌≡◌, refl, ◌≢◌, sym, ap, ◌∙◌, ℕ, zero, suc, ◌+◌, ◌-◌, ◌≤◌, ◌<◌, max, String, str_eq, str_append,
  eq_iff, eq_refl, Bool, true, false, not, ◌&&◌, ◌||◌, List, [], ◌∷◌, ◌++◌, arith, if◌then◌else◌,
  ◌==◌, ==_iff, ltb, leb, Bool-cases, Option-cases, inl, inr, ◌⊎◌, ◌↔◌, All, All-append, Option,
  none, some, append-nil, append_assoc, map, reverse, length, List-cases,
}
use serve.Base.Words.{split}
use serve.Value.{Value}

-- The options as far as they are read when the listeners are added
pub record Options : Type 0 where
  pub capture : Bool
  -- "" stands for none
  pub selector : String
  pub target_element : Bool

-- An argument of `on`
pub data Argument : Type 0 where
  absent : Argument
  text : String → Argument
  function : ℕ → Argument
  array : List ℕ → Argument
  -- an object with `handleEvent`, and any other object
  listener : ℕ → Argument
  options : Options → Argument
  -- a number or `true`
  primitive : Argument

-- What a handler is called on
pub data This : Type 0 where
  control : This
  element : This
  object : ℕ → This
  nothing : This

-- An `_EventHandler` with its number, and what was made of the arguments; `none` stands for a function that is
-- not one.
pub record EventHandler : Type 0 where
  pub number : ℕ
  pub events : List String
  pub capture : Bool
  pub selector : String
  pub this : This
  pub calls : Option ℕ

-- A listener of the browser
pub record Listener : Type 0 where
  pub name : String
  pub handler : ℕ
  pub capture : Bool

-- The listeners of the element and the number of handlers made
pub record Listeners : Type 0 where
  pub made : ℕ
  pub list : List Listener

unfoldable pub is_object : Argument → Bool
is_object absent = false
is_object (text s) = false
is_object primitive = false
is_object a = true

-- The function of an object with `handleEvent` is told apart by the object.
unfoldable pub bound_to : Bool → Argument → This × Option ℕ
bound_to target_element (function f) = (if target_element then element else control, some f)
bound_to target_element (array (t ∷ f ∷ rest)) = (object t, some f)
bound_to target_element (array (t ∷ [])) = (object t, none)
bound_to target_element (array []) = (nothing, none)
bound_to target_element (listener l) = (object l, some l)
bound_to target_element a = (if target_element then element else control, none)

abbrev pub no_options : Options
no_options = record { capture = false; selector = ""; target_element = false }

-- The options that count, or `none` where `on` complains
unfoldable pub read_options : Argument → Option Options
read_options absent = some no_options
read_options (text s) = if str_eq s "" then some no_options else none
read_options (function f) = none
read_options (array items) = some no_options
read_options (listener l) = some no_options
read_options (options o) = some o
read_options primitive = none

-- `typeof selector !== "string"`
unfoldable pub sort_arguments : Argument → Argument → Argument → String × Argument × Argument
sort_arguments (text s) handler opts = (s, handler, opts)
sort_arguments a handler opts = ("", a, handler)

unfoldable pub is_listener : String → ℕ → Bool → Listener → Bool
is_listener name handler capture l =
    str_eq l.name name && (l.handler == handler) && (if capture then l.capture else not l.capture)

unfoldable pub is_listed : String → ℕ → Bool → List Listener → Bool
is_listed name handler capture [] = false
is_listed name handler capture (l ∷ ls) =
    is_listener name handler capture l || is_listed name handler capture ls

-- `addEventListener` and `removeEventListener`
unfoldable pub add_listener : ℕ → Bool → List Listener → String → List Listener
add_listener handler capture ls name =
    if is_listed name handler capture ls
    then ls
    else ls ++ (record { name = name; handler = handler; capture = capture }) ∷ []

unfoldable pub remove_listener : ℕ → Bool → List Listener → String → List Listener
remove_listener handler capture [] name = []
remove_listener handler capture (l ∷ ls) name =
    if is_listener name handler capture l
    then remove_listener handler capture ls name
    else l ∷ remove_listener handler capture ls name

unfoldable pub add_all : ℕ → Bool → List String → List Listener → List Listener
add_all handler capture [] ls = ls
add_all handler capture (name ∷ names) ls =
    add_all handler capture names (add_listener handler capture ls name)

unfoldable pub remove_all : ℕ → Bool → List String → List Listener → List Listener
remove_all handler capture [] ls = ls
remove_all handler capture (name ∷ names) ls =
    remove_all handler capture names (remove_listener handler capture ls name)

-- `off`
unfoldable pub off : EventHandler → Listeners → Listeners
off e t = record t { list = remove_all e.number e.capture e.events t.list }

-- `on` once the arguments are sorted out
unfoldable pub make_handler : ℕ → String → String → Argument → Options → EventHandler
make_handler number names selector handler o = record {
  number = number;
  events = split 32 names;
  capture = o.capture;
  selector = if str_eq o.selector "" then selector else o.selector;
  this = (bound_to o.target_element handler).0;
  calls = (bound_to o.target_element handler).1;
}

unfoldable pub attach : EventHandler → Listeners → Listeners
attach e t = record { made = suc t.made; list = add_all e.number e.capture e.events t.list }

unfoldable pub on_sorted :
    String → String → Argument → Option Options → Listeners → Listeners × Option EventHandler
on_sorted names selector handler none t = (t, none)
on_sorted names selector handler (some o) t =
    let e = make_handler t.made names selector handler o in (attach e t, some e)

-- `on`, and the handler that it returns
unfoldable pub on :
    String → Argument → Argument → Argument → Listeners → Listeners × Option EventHandler
on names selector handler opts t =
    let args = sort_arguments selector handler opts in
    if str_eq names "" || not (is_object args.1)
    then (t, none)
    else on_sorted names args.0 args.1 (read_options args.2) t
