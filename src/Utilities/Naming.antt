-- ===== src/Utilities/Naming.antt =====
-- Names with dots. `findNamedObject` of assets/js/goradd.js.
use serve.Base.{
  ◌≡◌, refl, String, false, List, [], ◌∷◌, ◌++◌, Bool-cases, inl, inr, Option, none, some,
}
use serve.Value.{Value}
use serve.Value.Extend.{is_undefined}
use serve.Utilities.{property, go_on, walk}

module _ (property_of : Value → String → Value) where
  -- The object of a path in two parts is that of the second part, from the object of the first on; if the first
  -- leads to nothing, so does the whole, and if it throws, so does the whole.
  pub walk-append :
      (first second : List String) (v : Value)
      → is_undefined v ≡ false
      → walk property_of (first ++ second) v
        ≡ go_on property_of (walk property_of second) (walk property_of first v)
  unfolding walk go_on is_undefined
  walk-append [] second v h = rw (h) refl
  walk-append (name ∷ first) second v h =
      step (walk-append first second) (property property_of v name)
    where
      step :
          ((w : Value)
            → is_undefined w ≡ false
            → walk property_of (first ++ second) w
              ≡ go_on property_of (walk property_of second) (walk property_of first w))
          → (o : Option Value)
          → go_on property_of (walk property_of (first ++ second)) o
            ≡ go_on property_of
                (walk property_of second)
                (go_on property_of (walk property_of first) o)
      step ih none = refl
      step ih (some w) = elim (Bool-cases (is_undefined w)) [
        | inl e ↦ rw (e) refl
        | inr e ↦ rw (e) (ih w e)
      ]
