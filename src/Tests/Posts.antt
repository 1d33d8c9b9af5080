-- ===== src/Tests/Posts.antt =====
-- Runs of what an ajax request of assets/js/goradd.js carries.
use serve.Base.{◌≡◌, refl, String, true, false, [], ◌∷◌}
use serve.Value.{Value, null, bool, num, str, Fields, end}
use serve.Posting.{
  Page, Input, plain, files, radio, other, posted_value, is_posted, always_posted, checked_radio,
  get_ajax_data, display_ajax_error, set_control_value,
}
use serve.Posting.Reset.{lost_after_error}

abbrev name_box : Input
name_box = record {
  id = "name";
  kind = other;
  name = "";
  text = "Ann";
  checked = false;
  val = plain (str "Ann");
  gr_post = false;
}

abbrev upload : Input
upload = record {
  id = "photos";
  kind = other;
  name = "";
  text = "";
  checked = false;
  val = files (7 ∷ 8 ∷ []);
  gr_post = true;
}

abbrev red_button : Input
red_button = record {
  id = "red";
  kind = radio;
  name = "color";
  text = "red";
  checked = false;
  val = plain null;
  gr_post = false;
}

abbrev blue_button : Input
blue_button = record {
  id = "blue";
  kind = radio;
  name = "color";
  text = "blue";
  checked = true;
  val = plain (str "blue");
  gr_post = false;
}

abbrev page : Page
page = record {
  inputs = name_box ∷ upload ∷ red_button ∷ blue_button ∷ [];
  control_values = end;
  modified = ("red", true) ∷ [];
  ajax_error = false;
  input_support = true;
  refresh = "table" ∷ [];
  block_events = true;
  global_ajax_error = false;
  global_block_events = false;
}

abbrev encode_any : Fields → String
encode_any params = "params"

-- A handler of `posting` that tells a value of a control.
abbrev tells_value : Page → Page
tells_value p = set_control_value "tree" "open" (bool true) p

abbrev offset : Value
offset = num 60

radio_run : posted_value page red_button ≡ plain (str "blue")
unfolding posted_value checked_radio
radio_run = refl

lost_after_error_example :
    (is_posted
        (display_ajax_error (get_ajax_data encode_any offset tells_value end page).1)
        red_button
      ≡ always_posted red_button)
    × ((display_ajax_error (get_ajax_data encode_any offset tells_value end page).1).block_events
        ≡ (tells_value page).block_events)
unfolding set_control_value
lost_after_error_example = lost_after_error encode_any offset tells_value end page red_button refl
