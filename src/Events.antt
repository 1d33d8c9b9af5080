-- ===== src/Events.antt =====
-- The function that `on` of `goradd.Control` in assets/js/goradd.js makes of a handler: which element
-- the handler is told of, and with what data. Elements are numbers; which elements a selector
-- matches is a parameter, as is the data that a function in the options computes.
pub mod Match
pub mod Listeners
pub mod Trigger
use serve.Base.{
  ◌≡◌, refl, ◌≢◌, sym, ap, ◌∙◌, ℕ, zero, suc, ◌+◌, ◌-◌, ◌≤◌, ◌<◌, max, String, str_eq, str_append,
  eq_iff, eq_refl, Bool, true, false, not, ◌&&◌, ◌||◌, List, [], ◌∷◌, ◌++◌, arith, if◌then◌else◌,
  ◌==◌, ==_iff, ltb, leb, Bool-cases, Option-cases, inl, inr, ◌⊎◌, ◌↔◌, All, All-append, Option,
  none, some, append-nil, append_assoc, map, reverse, length,
}
use serve.Value.{Value}

-- The element that a bubbled event matched
pub data Matched : Type 0 where
  found : ℕ → Matched
  no_match : Matched
  -- `matches` is called where there is no parent any more.
  throws : Matched

-- The loop from the target up to the element that listens; the list holds the target and its
-- parents, in order.
unfoldable pub find_match : (ℕ → Bool) → ℕ → List ℕ → Matched
find_match matches current [] = throws
find_match matches current (x ∷ up) =
    if matches x then found x else if x == current then no_match else find_match matches current up

-- What a handler is called with: `event.goradd.match`, and the data, if there is any.
pub record Call : Type 0 where
  pub match : Option ℕ
  pub extra : Option Value

pub data Handled : Type 0 where
  handled : Call → Handled
  skipped : Handled
  failed : Handled

pub record Filter : Type 0 where
  -- whether there is a selector, and what it matches
  pub has_selector : Bool
  pub matches : ℕ → Bool
  pub bubbles : Bool
  -- what `options.data` comes to
  pub data_option : Option Value

-- `event.detail` comes before the data of the options.
unfoldable pub extra_data : Option Value → Option Value → Option Value
extra_data data_option none = data_option
extra_data data_option (some detail) = some detail

-- The function that `on` makes of a handler, for an event with a target, its parents and `detail`
unfoldable pub handle_event : Filter → ℕ → ℕ → List ℕ → Option Value → Handled
handle_event f current target parents detail =
    let extra = extra_data f.data_option detail in
    if not f.has_selector
    then handled (record { match = none; extra = extra })
    else if f.bubbles
    then elim (find_match f.matches current (target ∷ parents)) [
      | found x ↦ handled (record { match = some x; extra = extra })
      | no_match ↦ skipped
      | throws ↦ failed
    ]
    else if f.matches target
    then handled (record { match = some target; extra = extra })
    else skipped
