-- ===== src/Tests/Sessions.antt =====
-- Runs of the page and the server together, for the controls of assets/js/goradd.js.
use serve.Base.{◌≡◌, refl, String, str_eq, true, false, [], ◌∷◌, inl, inr, All, List}
use serve.Base.Dict.{lookup}
use serve.Value.{num, str, Fields, end}
use serve.Posting.{
  Page, Input, plain, other, posted_value, post_key, is_modified, parts_of, form_obj_changed,
}
use serve.Session.{
  ServerView, any_modified, tell_all, edit, IsCoherent, IsProper, Synced, edits, Reach, here, next,
}

-- A box in which "Ann" stands, and the same once the user has typed "Bob".
abbrev pub box : String → Input
box typed = record {
  id = "name";
  kind = other;
  name = "";
  text = typed;
  checked = false;
  val = plain (str typed);
  gr_post = false;
}

-- The hidden input that `postBack` puts the parameters in; each page has it.
abbrev pub params_input : Input
params_input = record {
  id = "Goradd__Params";
  kind = other;
  name = "Goradd__Params";
  text = "";
  checked = false;
  val = plain (str "");
  gr_post = false;
}

abbrev pub form : Page
form = record {
  inputs = box "Ann" ∷ params_input ∷ [];
  control_values = end;
  modified = [];
  ajax_error = false;
  input_support = true;
  refresh = [];
  block_events = false;
  global_ajax_error = false;
  global_block_events = false;
}

-- The server has drawn the form, so it knows what stands in the box.
abbrev pub drawn : ServerView
drawn k = parts_of k (plain (str "Ann"))

abbrev pub encoded : Fields → String
encoded params = "params"

-- The page once the user has typed, as a handler of `posting` could also do it.
abbrev pub typing : Page → Page
typing page = edit (box "Bob" ∷ params_input ∷ []) ("name" ∷ []) page

pub typed_IsCoherent : IsCoherent (typing form)
unfolding tell_all edit posted_value post_key form_obj_changed parts_of
typed_IsCoherent = record {
  one_value = ((λ e. refl, (λ e. cc, tt)), ((λ e. cc, (λ e. refl, tt)), tt));
  has_parts = ((_, _, refl), ((_, _, refl), tt));
}

pub typed_IsProper : IsProper form (typing form)
unfolding tell_all edit form_obj_changed any_modified post_key is_modified lookup
    serve.Base.Dict.insert
typed_IsProper = record { coherent = typed_IsCoherent; told = (λ ctl. inl refl, (λ ctl. cc, tt)) }

pub drawn_Synced : Synced form drawn
unfolding posted_value post_key
drawn_Synced = (λ ctl. inr refl, (λ ctl. cc, tt))

history : Reach encoded (num 60) form drawn (typing form) drawn
history = next here (edits (box "Bob" ∷ params_input ∷ []) ("name" ∷ []) typed_IsProper)
