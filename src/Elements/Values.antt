-- ===== src/Elements/Values.antt =====
-- What `val` of assets/js/goradd.js reads once it has set a value.
use serve.Base.{◌≡◌, refl, String, Bool, true, List, [], ◌∷◌, if◌then◌else◌, Option, none, some}
use serve.Value.{Value, null, bool, str, arr, Items, nil, cons}
use serve.Elements.{
  Element, Choice, ElementType, select_multiple, checkbox, radio, other, set_val, val, own_value,
  wants, select_options, select_all, selected_values, check_box, check_radio,
}

-- The values of the options that a value asks for, in the order of the page.
unfoldable pub wanted_values : (String → Bool) → List Choice → Items
wanted_values wanted [] = nil
wanted_values wanted (o ∷ os) =
    if wanted o.text then cons (str o.text) (wanted_values wanted os) else wanted_values wanted os

selected-select_options :
    (wanted : String → Bool) (os : List Choice)
    → selected_values (select_options wanted os) ≡ wanted_values wanted os
unfolding selected_values select_options wanted_values
selected-select_options wanted [] = refl
selected-select_options wanted (o ∷ os) = rw (selected-select_options wanted os) refl

selected-select_all :
    (v : Value) (wanted : String → Bool) (os : List Choice)
    → wants v ≡ some wanted
    → (chosen : List Choice) × ((select_all v os ≡ some chosen)
        × (selected_values chosen ≡ wanted_values wanted os))
unfolding select_all selected_values wanted_values
selected-select_all v wanted [] h = ([], (refl, refl))
selected-select_all v wanted (o ∷ os) h = (
  select_options wanted (o ∷ os),
  (rw (select_all, h) refl, selected-select_options wanted (o ∷ os)),
)

-- What `val` reads of an element that has been set, if it could be.
unfoldable pub val_of : Option Element → Option Value
val_of none = none
val_of (some e) = some (val e)

module _ (to_text : Value → String) (loosely_equal : Option String → Value → Bool) where
  -- What is read after `v` is set, by the type of the element.
  unfoldable pub reads : Value → Element → ElementType → (String → Bool) → Value
  reads v e select_multiple wanted = arr (wanted_values wanted e.options)
  reads v e checkbox wanted = if check_box v e.value then own_value e.value (bool true) else null
  reads v e radio wanted =
      if check_radio to_text loosely_equal v e.value then own_value e.value (bool true) else null
  reads v e other wanted = str (to_text v)

  -- `val(v)` with an array or a text `v`, and then `val()`: of a select with several choices, the
  -- options that `v` includes, in the order of the page; of a checkbox or a radio button, its value
  -- or `true` if `v` checks it and `null` if not; of any other element, the text of `v`.
  pub val-set_val :
      (v : Value) (wanted : String → Bool) (e : Element)
      → wants v ≡ some wanted
      → val_of (set_val to_text loosely_equal v e) ≡ some (reads v e e.type wanted)
  unfolding val_of set_val reads val own_value check_box check_radio
  val-set_val v wanted e h = by_type e.type
    where
      by_type :
          (t : ElementType)
          → val_of (set_val to_text loosely_equal v (record e { type = t }))
            ≡ some (reads v e t wanted)
      by_type select_multiple =
          (let (chosen, (k, l)) = selected-select_all v wanted e.options h in
            rw (set_val, k, l) refl)
      by_type checkbox = refl
      by_type radio = refl
      by_type other = refl
