-- ===== src/Widgets/Settings.antt =====
-- The options of a widget. `goradd.Widget` of assets/js/goradd.js.
use serve.Base.{
  ◌≡◌, refl, ap, ◌∙◌, String, str_eq, eq_iff, false, if◌then◌else◌, Bool-cases, inl, inr, none,
  some, subst,
}
use serve.Value.{Fields, end, field, get, has, put, array_like, field_entries}
use serve.Value.Keys.{Keyed, get-put, each-obj}
use serve.Widgets.{Widget, option, set_option, set_each, set_options}

get-set_each :
    (key : String) (values : Fields) (w : Widget)
    → Keyed values
    → get key (set_each (field_entries values) w).options
      ≡ (if has key values then get key values else get key w.options)
unfolding set_each field_entries set_option get has
get-set_each key end w h = refl
get-set_each key (field k v values) w h = elim (Bool-cases (str_eq k key)) [
  | inl e ↦ rw (e) (
      get-set_each key values (record w { options = put k v w.options }) h.1
      ∙ rw
          (subst (λ z. has z values ≡ false) ((eq_iff k key).0 e) h.0, get-put k key v w.options, e)
          refl)
  | inr e ↦ rw (e) (
      get-set_each key values (record w { options = put k v w.options }) h.1
      ∙ rw (get-put k key v w.options, e) refl)
]

-- Once options are set, each option that is among them is what it was set to, and every other one
-- what it was, whether it is asked for by `option` or seen in all of them; the object that is set has no
-- length by which `each` takes it for an array.
pub option-set_options :
    (key : String) (values : Fields) (w : Widget)
    → Keyed values
    → array_like values ≡ none
    → (option key none (set_options (some values) w).1).0
      ≡ (if has key values then get key values else (option key none w).0)
unfolding option set_options
option-set_options key values w h a =
    ap (λ es. get key (set_each es w).options) ((each-obj values).0 a) ∙ get-set_each key values w h
