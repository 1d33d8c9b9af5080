-- ===== src/Forms.antt =====
-- The form of the page: the handler of `submit` that `initForm` adds, the way that `postBack` goes through
-- it, and `setRadioInGroup`, of assets/js/goradd.js. What the form checks of its fields is the
-- browser's.
pub mod Submitting
pub mod Marking
pub mod Radio
use serve.Base.{
  ◌≡◌, refl, ◌≢◌, sym, ap, ◌∙◌, ℕ, zero, suc, ◌+◌, ◌-◌, ◌≤◌, ◌<◌, max, String, str_eq, str_append,
  eq_iff, eq_refl, Bool, true, false, not, ◌&&◌, ◌||◌, List, [], ◌∷◌, ◌++◌, arith, if◌then◌else◌,
  ◌==◌, ==_iff, ltb, leb, Bool-cases, Option-cases, inl, inr, ◌⊎◌, ◌↔◌, All, All-append, Option,
  none, some, append-nil, append_assoc, map, reverse, length, List-cases,
}
use serve.Value.{Value, Fields}
use serve.Posting.{Page, Input, Kind, radio, checkbox, other, form_obj_changed, post_back}

-- The form as far as `submit` goes: the value of `Goradd__Params`, whether `reportValidity` is there and
-- the form has `novalidate`, whether its fields are valid, and the parameters in the submission that the
-- browser has planned: it is sent once the scripts have run, and a later one replaces it
pub record Form : Type 0 where
  pub params : String
  pub reports_validity : Bool
  pub novalidate : Bool
  pub valid : Bool
  pub planned : Option String

-- `form.submit()`
unfoldable pub submit : Form → Form
submit f = record f { planned = some f.params }

-- Whether the form lets a submission through
unfoldable pub lets_through : Form → Bool
lets_through f = not f.reports_validity || f.novalidate || f.valid

-- The handler of the event `submit`, and whether it prevents what the browser does
unfoldable pub judge : Bool → Bool → Form → Form × Bool
judge true through f = (f, true)
judge false true f = (submit f, false)
judge false false f = (f, false)

unfoldable pub on_submit : Form → Form × Bool
on_submit f = judge (str_eq f.params "") (lets_through f) f

-- What `postBack` does to the form, with what it puts into `Goradd__Params`, if it goes on
unfoldable pub send_params : Option String → Form → Form
send_params none f = f
send_params (some value) f = (on_submit (record f { params = value })).0

-- The user submits: the browser checks the form first, and plans a submission of its own, in place of
-- that of the handler, if nothing prevents that.
unfoldable pub default_action : Form × Bool → Form
default_action (f, true) = f
default_action (f, false) = submit f

unfoldable pub user_submits : Form → Form
user_submits f = if f.novalidate || f.valid then default_action (on_submit f) else f

-- `goradd.el(id)` among the inputs
unfoldable pub find_input : String → List Input → Option Input
find_input id [] = none
find_input id (c ∷ cs) = if str_eq c.id id then some c else find_input id cs

unfoldable pub is_radio : Kind → Bool
is_radio radio = true
is_radio _ = false

-- `input[type='radio'][name='…']:checked`
unfoldable pub checked_in_group : String → List Input → Bool
checked_in_group name [] = false
checked_in_group name (c ∷ cs) =
    (is_radio c.kind && str_eq c.name name && c.checked) || checked_in_group name cs

-- `el.checked = true`, which takes the mark from the others of the group
unfoldable pub check_one : Input → Input → Input
check_one el c =
    if str_eq c.id el.id
    then record c { checked = true }
    else if is_radio c.kind && str_eq c.name el.name && not (str_eq el.name "")
    then record c { checked = false }
    else c

unfoldable pub check_radio : Input → Page → Page
check_radio el page = record page { inputs = map (check_one el) page.inputs }

-- `setRadioInGroup`, `none` where it throws because no element has the id
unfoldable pub set_radio_of : Option Input → Page → Option Page
set_radio_of none page = none
set_radio_of (some el) page =
    if not (is_radio el.kind)
    then some page
    else if not (str_eq el.name "") && checked_in_group el.name page.inputs
    then some (form_obj_changed el.id (check_radio el page))
    else some (check_radio el page)

unfoldable pub set_radio_in_group : String → Page → Option Page
set_radio_in_group id page = set_radio_of (find_input id page.inputs) page
