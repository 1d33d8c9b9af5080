-- ===== src/Responses/Invoke.antt =====
-- What a command of a reply calls: `processCommand` of assets/js/goradd.js. The objects of the page
-- and their members are an interface; what a path leads to is taken to be a function.
use serve.Base.{
  ◌≡◌, refl, String, str_eq, Bool, not, List, [], ◌∷◌, ◌++◌, if◌then◌else◌, Option, none, some,
}
use serve.Base.Words.{split}
use serve.Value.{Value}

-- What the code asks of the page.
pub record World {ℓ} (O : Type ℓ) : Type ℓ where
  pub window : O
  -- `goradd.qa` and `qa` of a control
  pub query : String → List O
  pub query_in : O → String → List O
  -- `g$(id)` and `jQuery('#' + id)`, `none` where there is none
  pub control : String → Option O
  pub jquery : String → Option O
  -- `obj[v]` and `Object.getPrototypeOf(obj)[v]`, `none` where that is falsy
  pub member : O → String → Option O
  pub proto_member : O → String → Option O
  -- `typeof g$(v)[func] === "function"`
  pub has_function : O → String → Bool

-- `command.selector`: absent or empty, a selector, or an id and a selector
pub data Selector : Type 0 where
  no_selector : Selector
  general : String → Selector
  within : String → String → Selector

-- The text "" stands for an absent entry.
pub record Command : Type 0 where
  pub script : String
  pub selector : Selector
  pub func : String
  pub id : String
  pub jquery_id : String
  pub params : Value

-- A script that is run, a function of a control that is called by its name, a function that is
-- called with an object as `this`.
pub data Effect {ℓ} (O : Type ℓ) : Type ℓ where
  runs : String → Effect O
  calls_method : O → String → Value → Effect O
  calls : O → O → Value → Effect O

pub data Outcome {ℓ} (O : Type ℓ) : Type ℓ where
  did : List (Effect O) → Outcome O
  not_found : String → Outcome O
  throws : Outcome O

module _ {ℓ} {O : Type ℓ} (w : World O) where
  -- `obj[v]`, or the member of the prototype
  unfoldable pub member_of : O → String → Option O
  member_of obj v = elim (w.member obj v) [ some m ↦ some m | none ↦ w.proto_member obj v ]

  -- The loop over the names of a path: the object reached and the one before it, `none` where a
  -- name is looked up in nothing.
  unfoldable pub walk : List String → O × Option O → Option (O × Option O)
  walk [] at = some at
  walk (v ∷ vs) (ctx, none) = none
  walk (v ∷ vs) (ctx, some obj) = walk vs (obj, member_of obj v)

  -- Where the path begins
  unfoldable pub origin : Command → Option O
  origin c =
      if not (str_eq c.id "")
      then w.control c.id
      else if not (str_eq c.jquery_id "")
      then w.jquery c.jquery_id
      else some w.window

  unfoldable pub call_path : O → List String → Value → Outcome O
  call_path obj path args = elim (walk path (obj, some obj)) [
    | none ↦ throws
    | some p ↦ elim (p.1) [ none ↦ throws | some f ↦ did (calls f (p.0) args ∷ []) ]
  ]

  unfoldable pub call_each : String → Value → List O → List (Effect O)
  call_each func args [] = []
  call_each func args (v ∷ vs) =
      if w.has_function v func
      then calls_method v func args ∷ call_each func args vs
      else call_each func args vs

  -- `processCommand`, with `_unpackArray` as `unpack`
  unfoldable pub process_command : (Value → Value) → Command → Outcome O
  process_command unpack c =
      if not (str_eq c.script "") then did (runs c.script ∷ []) else elim c.selector [
        | general s ↦ did (call_each c.func (unpack c.params) (w.query s))
        | within id s ↦ elim (w.control id) [
          | none ↦ throws
          | some o ↦ did (call_each c.func (unpack c.params) (w.query_in o s))
        ]
        | no_selector ↦
            (if str_eq c.func "" then did [] else elim (origin c) [
              | none ↦ not_found (if str_eq c.id "" then c.jquery_id else c.id)
              | some o ↦ call_path o (split 46 c.func) (unpack c.params)
            ])
      ]

  walk-append :
      (xs ys : List String) (at : O × Option O)
      → walk (xs ++ ys) at ≡ elim (walk xs at) [ none ↦ none | some p ↦ walk ys p ]
  unfolding walk
  walk-append [] ys at = refl
  walk-append (x ∷ xs) ys (ctx, none) = refl
  walk-append (x ∷ xs) ys (ctx, some obj) = walk-append xs ys (obj, member_of obj x)

  -- A function that is named by a path is called with the object in front of its name as `this`.
  pub call_path_lem :
      (o ctx obj f : O) (xs : List String) (v : String) (args : Value)
      → walk xs (o, some o) ≡ some (ctx, some obj)
      → member_of obj v ≡ some f
      → call_path o (xs ++ v ∷ []) args ≡ did (calls f obj args ∷ [])
  unfolding call_path walk
  call_path_lem o ctx obj f xs v args h k =
      rw (call_path, walk-append xs (v ∷ []) (o, some o), h, walk, k) refl
