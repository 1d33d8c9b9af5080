-- ===== src/Base/Dict.antt =====
-- A plain object of the source used as a dictionary: an association list keyed by text, in the
-- order in which the keys were first set.
use Prim.Native.String.{String}
use mathlib.Core.Path.{◌≡◌, refl}
use mathlib.Core.Option.{Option, none, some}
use mathlib.Core.List.{List, [], ◌∷◌}
use native.Mathlib.Omega.{arith}
use text.Mathlib.Text.{◌==◌}
use text.Mathlib.TextEquality.{eq_iff}
use text.Mathlib.TextPositions.{eq_refl}
use serve.Base.Tests.{if◌then◌else◌}

-- What the source writes `{k1: v1, k2: v2}`.
abbrev pub Dict {ℓ} : Type ℓ → Type ℓ
Dict V = List (String × V)

module _ {ℓ} {V : Type ℓ} where
  -- `d[key]`, `none` standing for `undefined`
  unfoldable pub lookup : String → Dict V → Option V
  lookup key [] = none
  lookup key (entry ∷ rest) = if entry.0 == key then some (entry.1) else lookup key rest

  -- `d[key] = value`: a key that is set again keeps its place
  unfoldable pub insert : String → V → Dict V → Dict V
  insert key value [] = (key, value) ∷ []
  insert key value (entry ∷ rest) =
      if entry.0 == key then (entry.0, value) ∷ rest else entry ∷ insert key value rest

  -- `delete d[key]`
  unfoldable pub remove : String → Dict V → Dict V
  remove key [] = []
  remove key (entry ∷ rest) = if entry.0 == key then remove key rest else entry ∷ remove key rest

  -- `Object.keys`
  abbrev pub keys : Dict V → List String
  keys [] = []
  keys (entry ∷ rest) = entry.0 ∷ keys rest

  pub lookup-insert :
      (key other : String) (value : V) (d : Dict V)
      → lookup other (insert key value d) ≡ (if key == other then some value else lookup other d)
  unfolding lookup insert
  lookup-insert key other value [] = refl
  lookup-insert key other value (entry ∷ rest) = ground (
    arith,
    eq_iff key other,
    eq_iff (entry.0) key,
    eq_iff (entry.0) other,
    lookup-insert key other value rest,
  )

  pub lookup-insert_self :
      (key : String) (value : V) (d : Dict V) → lookup key (insert key value d) ≡ some value
  lookup-insert_self key value d = simp (lookup-insert, eq_refl)

  pub lookup-remove :
      (key other : String) (d : Dict V)
      → lookup other (remove key d) ≡ (if key == other then none else lookup other d)
  unfolding lookup remove
  lookup-remove key other [] = ground arith
  lookup-remove key other (entry ∷ rest) = ground (
    arith,
    eq_iff key other,
    eq_iff (entry.0) key,
    eq_iff (entry.0) other,
    lookup-remove key other rest,
  )
