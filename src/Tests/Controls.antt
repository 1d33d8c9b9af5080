-- ===== src/Tests/Controls.antt =====
-- Runs of the elements of assets/js/goradd.js.
use serve.Base.{
  ◌≡◌, refl, String, str_eq, Bool, true, false, ◌||◌, [], ◌∷◌, if◌then◌else◌, Option, none, some,
}
use serve.Base.Words.{split, without_first, push_char}
use serve.Base.Dict.{lookup}
use serve.Value.{Value, bool, str}
use serve.Watchers.{contains}
use serve.Elements.{
  Element, Choice, ElementType, select_multiple, checkbox, radio, other, attr, set_attr,
  read_attribute, written, class, has_class, for_names, add_class, remove_class, toggle_class,
  display, hide, show, set_val, val, wants, own_value, includes, attr_all, get_data, set_data,
  flip_class,
}
use serve.Elements.Attributes.{read_back, attr-set_attr}
use serve.Elements.Classes.{has_class-class}

abbrev menu : Element
menu = record {
  attributes = ("hidden", "") ∷ ("title", "false") ∷ [];
  classes = "wide" ∷ "dark" ∷ [];
  private_data = [];
  dataset = ("id", "7") ∷ [];
  type = select_multiple;
  value = some "b";
  checked = false;
  options = record { text = "a"; selected = true } ∷ record { text = "b"; selected = false } ∷ [];
  inline_display = none;
  sheet_display = "block";
  hidden = none;
}

abbrev to_text : Value → String
to_text (str s) = s
to_text _ = "?"

abbrev equal_text : Option String → Value → Bool
equal_text (some t) (str s) = str_eq t s
equal_text _ _ = false

title_run : attr "title" menu ≡ bool false
unfolding attr read_attribute lookup
title_run = refl

attr_all_run : attr_all menu ≡ some (("hidden", bool true) ∷ ("title", str "false") ∷ [])
unfolding attr_all serve.Elements.all_entries
attr_all_run = refl

class_run : (class "+tall wide" menu).classes ≡ "wide" ∷ "dark" ∷ "tall" ∷ []
unfolding class for_names add_class split without_first contains push_char
class_run = refl

toggle_run : (toggle_class "dark tall" menu).classes ≡ "wide" ∷ "tall" ∷ []
unfolding toggle_class for_names flip_class remove_class split contains push_char
toggle_run = refl

attr-set_attr_example :
    attr "title" (set_attr to_text "title" (bool true) menu)
    ≡ (if str_eq "title" "title" then read_back to_text (bool true) else attr "title" menu)
attr-set_attr_example = attr-set_attr to_text "title" "title" (bool true) menu

has_class-class_example :
    has_class "tall" (class "+tall wide" menu)
    ≡ (has_class "tall" menu || contains (split 32 "tall wide") "tall")
unfolding without_first
has_class-class_example = has_class-class "+tall wide" "tall" menu refl
