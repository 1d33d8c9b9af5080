-- ===== src/Tests/Redrawing.antt =====
-- Runs of the watchers of assets/js/goradd.js and of the scrolling of
-- assets/js/goradd-scrollIntoView.js.
use serve.Base.{◌≡◌, refl, String, str_eq, Bool, not, List, [], ◌∷◌, arith, ◌⊎◌}
use serve.Base.Int.{pos, ◌+ℤ◌, ◌-ℤ◌, ◌≤ℤ◌}
use serve.Watchers.{Watch, Message}
use serve.Scroll.{new_scroll_top}
use serve.Scroll.Position.{IsLaidOut, new_scroll_top_nearest}

abbrev pairs : List (String × String)
pairs = ("list", "people") ∷ ("list", "people") ∷ ("table", "people") ∷ ("list", "cars") ∷ []

abbrev not_table : String → Bool
not_table id = not (str_eq id "table")

abbrev people : Message
people = record { channel = "people"; message = "C" }

abbrev watched : Watch
watched = record {
  watchers = ("people", "list" ∷ "table" ∷ []) ∷ [];
  refresh = "form" ∷ [];
  updates = 0;
}

-- A view from 100 to 200 of content 1000 pixels high, and an item from 250 to 280.
laid_out : IsLaidOut (pos 100) (pos 200) (pos 1000) (pos 250) (pos 280)
laid_out = record {
  view_above = omega arith;
  view_proper = omega arith;
  view_below = omega arith;
  item_above = omega arith;
  item_proper = omega arith;
  item_below = omega arith;
}

scrolls_down : new_scroll_top (pos 100) (pos 200) (pos 1000) (pos 250) (pos 280) ≡ pos 180
unfolding new_scroll_top serve.Scroll.choose_position serve.Scroll.top_position ◌+ℤ◌ ◌-ℤ◌
    serve.Scroll.bottom_position
scrolls_down = refl

new_scroll_top_nearest_example :
    ((pos 100 ≤ℤ new_scroll_top (pos 100) (pos 200) (pos 1000) (pos 250) (pos 280))
      × (new_scroll_top (pos 100) (pos 200) (pos 1000) (pos 250) (pos 280) ≤ℤ pos 240))
    ⊎ ((pos 240 ≤ℤ new_scroll_top (pos 100) (pos 200) (pos 1000) (pos 250) (pos 280))
        × (new_scroll_top (pos 100) (pos 200) (pos 1000) (pos 250) (pos 280) ≤ℤ pos 100))
unfolding ◌-ℤ◌ ◌+ℤ◌
new_scroll_top_nearest_example =
    new_scroll_top_nearest (pos 100) (pos 200) (pos 1000) (pos 250) (pos 280) laid_out (pos 240)
      (omega arith) (omega arith) (omega arith) (omega arith)
