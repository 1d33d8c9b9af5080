-- ===== src/Tests/Classes.antt =====
-- Runs of the classes of widgets of assets/js/goradd.js and of their options.
use serve.Base.{◌≡◌, refl, [], ◌∷◌, arith, none}
use serve.Base.Dict.{lookup}
use serve.Value.{Value, num, str, Fields, end, field, has, get, array_like, undefined}
use serve.Widgets.{
  Class, root, extended, function, static, does, super_call, Run, returned, construct, run_steps,
  call_override, run_constructor, super_step, after_end, Widget, get_named,
}
use serve.Widgets.Super.{HasConstructors, depth, fixed, Mimics, construct-fixed}

-- A widget over `goradd.Control`, and one over that
abbrev widget_class : Class
widget_class = extended root (("constructor", function (super_call ∷ does 1 ∷ [])) ∷ [])

abbrev table_class : Class
table_class =
    extended widget_class (
      ("constructor", function (does 2 ∷ super_call ∷ does 3 ∷ [])) ∷ ("rows", static (num 0)) ∷ [])

abbrev new_object : Run
new_object = record { super = none; trace = []; ended = returned }

-- A class whose prototype has no constructor runs none, not even that of its base.
no_constructor_run : (construct 3 (extended widget_class []) new_object).trace ≡ []
unfolding construct run_constructor lookup
no_constructor_run = refl

construct_run : (construct 3 table_class new_object).trace ≡ 2 ∷ 0 ∷ 1 ∷ 3 ∷ []
unfolding construct run_constructor lookup run_steps call_override super_step after_end
construct_run = refl

construct-fixed_example :
    Mimics new_object (construct 3 table_class new_object) (fixed table_class [])
unfolding HasConstructors lookup depth serve.Widgets.Super.count_super
construct-fixed_example =
    construct-fixed table_class 3 new_object ((_, refl, refl), ((_, refl, refl), tt)) (omega arith)
      refl

-- `get` of a control that is no widget throws for a name that is not among its data.
get_named_run : get_named undefined none (num 1) ≡ none
unfolding get_named serve.Value.Extend.is_undefined
get_named_run = refl

abbrev table : Widget
table = record { options = field "zoom" (num 0) end; triggered = [] }

abbrev wanted : Fields
wanted = field "zoom" (num 50) (field "shape" (str "circle") end)
