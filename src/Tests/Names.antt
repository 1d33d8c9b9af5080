-- ===== src/Tests/Names.antt =====
-- Runs of the small functions of assets/js/goradd.js.
use serve.Base.{◌≡◌, refl, ℕ, String, Bool, true, false, [], ◌∷◌, none, some, str_eq}
use serve.Base.Dict.{lookup}
use serve.Base.Words.{split, push_char}
use serve.Base.Int.{pos}
use serve.Value.{Value, undefined, null, num, obj, end, field, get}
use serve.Utilities.{
  property, walk, go_on, find_named_object, cookie, when, finish, closes_socket, goes_to,
  steps_test, unless_empty,
}
use serve.Layout.{width, margin, Box, Sides}
use serve.Wrappers.Once.{IsPaired, el-g}
use serve.Wrappers.{Wrappers, control, id, el, g, wrap_element, control_of, make_control, find}

abbrev nothing_else : Value → String → Value
nothing_else v name = undefined

abbrev window : Value
window = obj (field "goradd" (obj (field "step" (num 3) end)) end)

find_named_object_run : find_named_object nothing_else window "goradd.step" undefined ≡ some (num 3)
unfolding find_named_object walk go_on property get split push_char serve.Widgets.is_truthy
    serve.Value.Extend.is_undefined
find_named_object_run = refl

-- A name that is not the last leads to null: the next one throws.
null_run : find_named_object nothing_else window "a.b" (obj (field "a" null end)) ≡ none
unfolding find_named_object walk go_on property get split push_char serve.Widgets.is_truthy
    serve.Value.Extend.is_undefined
null_run = refl

cookie_run : cookie "a" "1" "" "/" "" true ≡ "a=1; path=/; secure;"
unfolding cookie when
cookie_run = refl

finish_run :
    finish true true (record { winclose = false; loc = "/x"; profile_html = "" })
    ≡ closes_socket ∷ goes_to "/x" ∷ steps_test ∷ []
unfolding finish unless_empty
finish_run = refl

-- The margin is added to the height.
abbrev none_around : Sides
none_around = record { before = pos 0; behind = pos 0 }

abbrev wide : Box
wide = record {
  client_width = pos 300;
  client_height = pos 20;
  offset_width = pos 300;
  offset_height = pos 20;
  padding_across = none_around;
  padding_down = none_around;
  margin_across = none_around;
  margin_down = none_around;
}

width_run : width margin wide ≡ pos 20
unfolding width serve.Base.Int.◌+ℤ◌
width_run = refl

abbrev unwrapped : Wrappers
unwrapped = record { ids = ("box", 7) ∷ []; widgets = []; elements = []; made = 0 }

g_run : el (control 0) (g (id "box") unwrapped).1 ≡ some 7
unfolding g el wrap_element control_of make_control find lookup
g_run = refl

unwrapped-IsPaired : IsPaired unwrapped
unfolding find
unwrapped-IsPaired = record { paired = λ e c q. cc; old = λ e c q. cc }

el-g_example :
    (el (control 0) (g (id "box") unwrapped).1 ≡ some 7)
    × (g (id "box") (g (id "box") unwrapped).1 ≡ (some 0, (g (id "box") unwrapped).1))
    × IsPaired (g (id "box") unwrapped).1
unfolding g el wrap_element control_of make_control find lookup
el-g_example = el-g (id "box") unwrapped 0 7 unwrapped-IsPaired refl refl
