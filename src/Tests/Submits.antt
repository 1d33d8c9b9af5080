-- ===== src/Tests/Submits.antt =====
-- Runs of the form of assets/js/goradd.js: what is submitted, and a radio button that is set.
use serve.Base.{◌≡◌, refl, String, true, false, [], ◌∷◌, some, Bool}
use serve.Value.{null, end, Fields}
use serve.Posting.{
  Page, Input, radio, plain, post_key, posted_value, checked_radio, form_obj_changed, parts_of,
}
use serve.Session.{IsCoherent, ServerView, Step}
use serve.Forms.{find_input, is_radio, checked_in_group, check_one, check_radio, set_radio_in_group}
use serve.Forms.Radio.{set_radio_in_group-Step, changed}

abbrev button : String → Bool → Input
button color checked = record {
  id = color;
  kind = radio;
  name = "color";
  text = color;
  checked = checked;
  val = plain null;
  gr_post = false;
}

-- Blue is chosen.
abbrev colors : Page
colors = record {
  inputs = button "red" false ∷ button "blue" true ∷ [];
  control_values = end;
  modified = [];
  ajax_error = false;
  input_support = true;
  refresh = [];
  block_events = false;
  global_ajax_error = false;
  global_block_events = false;
}

red_IsCoherent : IsCoherent (changed "red" colors (button "red" false))
unfolding post_key posted_value checked_radio form_obj_changed check_radio check_one is_radio
    parts_of
red_IsCoherent = record {
  one_value = ((λ e. refl, (λ e. refl, tt)), ((λ e. refl, (λ e. refl, tt)), tt));
  has_parts = ((_, _, refl), ((_, _, refl), tt));
}

abbrev encoded : Fields → String
encoded params = "params"

abbrev nothing_known : ServerView
nothing_known k = []

set_radio_in_group-Step_example :
    (new : Page) × (set_radio_in_group "red" colors ≡ some new)
    × Step encoded null colors nothing_known new nothing_known
unfolding find_input is_radio checked_in_group
set_radio_in_group-Step_example =
    set_radio_in_group-Step "red" colors (button "red" false) encoded null nothing_known refl
      (λ e. refl, (λ e. cc, tt)) refl refl refl refl red_IsCoherent
