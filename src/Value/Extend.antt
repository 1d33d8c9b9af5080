-- ===== src/Value/Extend.antt =====
-- Merging objects: `goradd.extend` and `goradd.extendOptions` of assets/js/goradd.js. The `toArray`
-- that `extend` calls takes one argument, so the list of sources begins with the target itself.
pub mod Merge
pub mod Options
use serve.Base.{
  ◌≡◌, refl, ◌≢◌, sym, ap, ◌∙◌, ℕ, zero, suc, ◌+◌, ◌-◌, ◌≤◌, ◌<◌, max, String, str_eq, str_append,
  eq_iff, eq_refl, Bool, true, false, not, ◌&&◌, ◌||◌, List, [], ◌∷◌, ◌++◌, arith, if◌then◌else◌,
  ◌==◌, ==_iff, ltb, leb, Bool-cases, Option-cases, inl, inr, ◌⊎◌, ◌↔◌, All, All-append, Option,
  none, some, append-nil, append_assoc, map, reverse, length, and_true, false_of_not,
}
use serve.Value.{
  Value, undefined, null, bool, num, str, arr, obj, ref, Items, nil, cons, Fields, end, field, get,
  has, put, array_like, each, field_entries, is_plain_object,
}
use serve.Value.Keys.{Keyed, each-obj, get-put, has-put, get_missing}

unfoldable pub is_undefined : Value → Bool
is_undefined undefined = true
is_undefined _ = false

-- `extend({}, obj)`: what is plain in it is copied, all else is shared.
unfoldable mutual
  pub clone : Value → Value
  clone (obj fs) = obj (clone_fields fs)
  clone v = v

  pub clone_fields : Fields → Fields
  clone_fields end = end
  clone_fields (field k v fs) =
      if is_undefined v then clone_fields fs else field k (clone v) (clone_fields fs)

-- What a plain source is merged into: a copy of the target's value, if that is a plain object.
unfoldable pub plain_or_empty : Value → Fields
plain_or_empty (obj fs) = clone_fields fs
plain_or_empty _ = end

-- One source, the loop over its keys: the value is a merge of plain objects, or the source's own.
unfoldable mutual
  pub merged : Value → Value → Value
  merged old (obj fs) = obj (merge (plain_or_empty old) fs)
  merged old v = v

  pub merge : Fields → Fields → Fields
  merge target end = target
  merge target (field k v fs) =
      merge (if is_undefined v then target else put k (merged (get k target) v) target) fs

unfoldable pub merge_all : Fields → List Fields → Fields
merge_all target [] = target
merge_all target (source ∷ sources) = merge_all (merge target source) sources

-- `goradd.extend(target, …sources)`
unfoldable pub extend : Fields → List Fields → Fields
extend target sources = merge_all target (target ∷ sources)

-- The value that `extendOptions` gives an option: `true` for a text option is the empty text, which
-- an attribute cannot be told from.
unfoldable pub option_value : Fields → String → Value → Value
option_value defaults k (bool true) = elim (get k defaults) [ str s ↦ str "" | _ ↦ bool true ]
option_value defaults k v = v

unfoldable pub put_options : Fields → List (String × Value) → Fields → Fields
put_options defaults [] options = options
put_options defaults ((k, v) ∷ entries) options =
    put_options defaults entries (put k (option_value defaults k v) options)

-- `goradd.extendOptions`
unfoldable pub extend_options : Fields → Fields → Fields
extend_options defaults user =
    put_options defaults (each (obj user)) (extend end (defaults ∷ user ∷ []))
