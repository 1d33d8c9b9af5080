-- ===== src/Events/Trigger.antt =====
-- The events that `trigger` and `click` of assets/js/goradd.js send, and what the handlers that `on`
-- made are told of them. The event that `el.click()` sends is the browser's.
use serve.Base.{
  ◌≡◌, refl, ℕ, String, str_eq, Bool, true, false, List, [], ◌∷◌, if◌then◌else◌, Option, none, some,
  Bool-cases, inl, inr, All,
}
use serve.Value.{Value, undefined, null, num}
use serve.Events.{Filter, handle_event, extra_data}

pub record Dispatched : Type 0 where
  pub name : String
  pub bubbles : Bool
  pub cancelable : Bool
  pub composed : Bool
  -- `none` where an event of the kind has no such property
  pub detail : Option Value
  -- `event.goradd.postFunc`
  pub post_func : Option ℕ

-- Whether `window.Event` is an object, which it is where it is no constructor, and whether
-- `window.CustomEvent` is a function
pub record Browser : Type 0 where
  pub event_is_object : Bool
  pub has_custom_event : Bool
  -- the detail of a click: how often the button was pressed
  pub clicks : ℕ

-- The detail of a custom event is `null` where none is given.
unfoldable pub detail_of : Value → Value
detail_of undefined = null
detail_of v = v

unfoldable pub click_event : Browser → Bool → Option ℕ → Dispatched
click_event b composed post_func = record {
  name = "click";
  bubbles = true;
  cancelable = true;
  composed = composed;
  detail = some (num b.clicks);
  post_func = post_func;
}

unfoldable pub change_event : Browser → Dispatched
change_event b = record {
  name = "change";
  bubbles = true;
  cancelable = b.event_is_object;
  composed = false;
  detail = none;
  post_func = none;
}

unfoldable pub custom_event : Browser → String → Value → Dispatched
custom_event b name extra = record {
  name = name;
  bubbles = true;
  cancelable = true;
  composed = b.has_custom_event;
  detail = some (detail_of extra);
  post_func = none;
}

-- `trigger`, and whether it throws: after `el.click()` it goes on to send an event that it has not made.
unfoldable pub trigger : Browser → String → Value → List Dispatched × Bool
trigger b name extra =
    if str_eq name "click"
    then (click_event b true none ∷ [], true)
    else if str_eq name "change"
    then (change_event b ∷ [], false)
    else (custom_event b name extra ∷ [], false)

-- `click`
unfoldable pub click : Browser → Option ℕ → Dispatched
click b post_func = click_event b (if b.event_is_object then false else true) post_func

-- The data of the options of `on` never reaches a handler with an event that `trigger` sends, that of the
-- name change apart: the detail of the event, which is null if none is given, takes its place.
pub handle_event-trigger :
    (b : Browser) (name : String) (extra : Value) (f : Filter) (data_option : Option Value)
    (current target : ℕ) (parents : List ℕ)
    → str_eq name "change" ≡ false
    → All
        (λ e.
          handle_event f current target parents e.detail
          ≡ handle_event (record f { data_option = data_option }) current target parents e.detail)
        (trigger b name extra).0
unfolding trigger handle_event extra_data click_event custom_event
handle_event-trigger b name extra f data_option current target parents h =
    elim (Bool-cases (str_eq name "click")) [
      | inl e ↦ rw (trigger, e) (refl, tt)
      | inr e ↦ rw (trigger, e, h) (refl, tt)
    ]
