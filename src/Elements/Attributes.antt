-- ===== src/Elements/Attributes.antt =====
-- Attributes and data of an element read back as they were written. `attr`, `data`, `hide` and
-- `show` of `goradd.Control` in assets/js/goradd.js.
use serve.Base.{
  refl, true, false, ◌≡◌, String, str_eq, arith, if◌then◌else◌, Option-cases, inl, inr, none, some,
  sym,
}
use serve.Base.Dict.{lookup-insert, lookup-remove}
use serve.Value.{Value, undefined, null, bool, num, str, arr, obj, ref}
use serve.Elements.{
  Element, attr, read_attribute, written, set_attr, get_data, set_data, hide, show, display,
  set_display,
}

-- What an attribute reads as once a value is written to it.
unfoldable pub read_back : (Value → String) → Value → Value
read_back to_text undefined = undefined
read_back to_text null = undefined
read_back to_text (bool false) = undefined
read_back to_text (bool true) = bool true
read_back to_text v = read_attribute (to_text v)

reads_written : (to_text : Value → String) (v : Value) → Value → Value
reads_written to_text v w = elim (written to_text v) [ none ↦ w | some s ↦ read_attribute s ]

read_back_written :
    (to_text : Value → String) (v : Value) → reads_written to_text v undefined ≡ read_back to_text v
unfolding reads_written written read_back read_attribute
read_back_written to_text undefined = refl
read_back_written to_text null = refl
read_back_written to_text (bool false) = refl
read_back_written to_text (bool true) = refl
read_back_written to_text (num n) = refl
read_back_written to_text (str s) = refl
read_back_written to_text (arr vs) = refl
read_back_written to_text (obj fs) = refl
read_back_written to_text (ref n) = refl

-- `attr(k, v)` and then `attr(j)`: the attribute that was written reads as the text of the value,
-- `true`, `false` and no text as Booleans or as absent, and no other attribute changes.
pub attr-set_attr :
    (to_text : Value → String) (k j : String) (v : Value) (e : Element)
    → attr j (set_attr to_text k v e) ≡ (if str_eq k j then read_back to_text v else attr j e)
unfolding attr set_attr reads_written
attr-set_attr to_text k j v e =
    let back = read_back_written to_text v in
    rw (sym back) (elim (Option-cases (written to_text v)) [
      | inl n ↦ rw (n) (ground (arith, lookup-remove k j e.attributes))
      | inr (s, n) ↦ rw (n) (ground (arith, lookup-insert k j s e.attributes))
    ])

pub get_data-set_data :
    (k j : String) (v : Value) (e : Element)
    → get_data j (set_data k v e) ≡ (if str_eq k j then v else get_data j e)
unfolding get_data set_data
get_data-set_data k j v e = ground (arith, lookup-insert k j v e.private_data)

-- Hiding an element, however often, and showing it again leaves it shown as it was.
pub show-hide :
    (e : Element)
    → e.hidden ≡ none
    → str_eq (display e) "" ≡ false
    → (display (hide e) ≡ "none") × (hide (hide e) ≡ hide e) × (display (show (hide e)) ≡ display e)
unfolding hide show display set_display
show-hide e h d = ground arith

-- An element that was hidden and shown again cannot be hidden: it stays shown as it is.
pub hide-show_stuck :
    (e : Element)
    → e.hidden ≡ none
    → str_eq (display e) "" ≡ false
    → (hide (show (hide e)) ≡ show (hide e)) × (display (hide (show (hide e))) ≡ display e)
unfolding hide show display set_display
hide-show_stuck e h d = ground arith
