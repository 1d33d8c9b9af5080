-- ===== src/Responses/Replace/Inserted.antt =====
-- Where an update inserts html, and what it removes. `_processAjax2` of assets/js/goradd.js.
use serve.Base.{
  ◌≡◌, ◌≢◌, All, not, ◌&&◌, ℕ, String, List, [], ◌∷◌, ◌++◌, if◌then◌else◌, Option, none, some, map,
}
use serve.Value.{Value}
use serve.Responses.Replace.{
  View, Place, control, wrapper, item, Op, set_value, set_props, moves_before, html_before, removes,
  appends_html,
}

-- Where html is inserted, `none` for the end of the form, and what is removed
unfoldable pub insertions : List Op → List (Option Place × String)
insertions [] = []
insertions (html_before p h ∷ ops) = (some p, h) ∷ insertions ops
insertions (appends_html h ∷ ops) = (none, h) ∷ insertions ops
insertions (set_value _ ∷ ops) = insertions ops
insertions (set_props _ ∷ ops) = insertions ops
insertions (moves_before _ ∷ ops) = insertions ops
insertions (removes _ ∷ ops) = insertions ops

unfoldable pub removals : List Op → List Place
removals [] = []
removals (removes p ∷ ops) = p ∷ removals ops
removals (html_before _ _ ∷ ops) = removals ops
removals (appends_html _ ∷ ops) = removals ops
removals (set_value _ ∷ ops) = removals ops
removals (set_props _ ∷ ops) = removals ops
removals (moves_before _ ∷ ops) = removals ops

-- The elements that the control is moved in front of
unfoldable pub moves : List Op → List ℕ
moves [] = []
moves (moves_before p ∷ ops) = p ∷ moves ops
moves (html_before _ _ ∷ ops) = moves ops
moves (appends_html _ ∷ ops) = moves ops
moves (set_value _ ∷ ops) = moves ops
moves (set_props _ ∷ ops) = moves ops
moves (removes _ ∷ ops) = moves ops

-- Nothing is inserted at what has been removed, and nothing is moved once something has been removed.
unfoldable pub IsInOrder : List Op → Type 0
IsInOrder [] = Unit
IsInOrder (removes p ∷ ops) =
    All (λ i. i.0 ≢ some p) (insertions ops) × (moves ops ≡ []) × IsInOrder ops
IsInOrder (moves_before _ ∷ ops) = IsInOrder ops
IsInOrder (html_before _ _ ∷ ops) = IsInOrder ops
IsInOrder (appends_html _ ∷ ops) = IsInOrder ops
IsInOrder (set_value _ ∷ ops) = IsInOrder ops
IsInOrder (set_props _ ∷ ops) = IsInOrder ops

-- Where the control is moved to
unfoldable pub moved_to : View → List ℕ
moved_to view =
    if not view.has_wrapper && view.has_control
    then elim (view.related_parent) [ none ↦ [] | some p ↦ p ∷ [] ]
    else []

-- What stands for a control on the page: its wrapper, or itself, or nothing
unfoldable pub standing : View → Option Place
standing view =
    if view.has_wrapper then some wrapper else if view.has_control then some control else none

-- What goes when html takes the place of a control
unfoldable pub going : View → List Place
going view =
    if view.has_wrapper
    then wrapper ∷ []
    else if view.has_control
    then map item view.related_items ++ control ∷ []
    else []
