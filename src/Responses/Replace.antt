-- ===== src/Responses/Replace.antt =====
-- How a reply changes the controls of the page: the loop over `json.controls` in `_processAjax2` of
-- assets/js/goradd.js, as the list of what is done to the page.
pub mod Inserted
use serve.Base.{
  ◌≡◌, ◌≢◌, refl, sym, subst, All, not, ◌&&◌, ap, ◌∙◌, ℕ, String, Bool, true, false, List, [], ◌∷◌,
  ◌++◌, if◌then◌else◌, Bool-cases, inl, inr, Option, none, some, map,
}
use serve.Value.{Value, Fields}

-- What the page answers when it is asked: whether the control and its wrapper are there, the
-- outermost parent of the control that is marked as related to it, and all elements so marked.
pub record View : Type 0 where
  pub has_control : Bool
  pub has_wrapper : Bool
  pub related_parent : Option ℕ
  pub related_items : List ℕ

-- An entry of `json.controls`
pub record Update : Type 0 where
  pub value : Option Value
  pub attributes : Option Fields
  pub html : Option String

pub data Place : Type 0 where
  control : Place
  wrapper : Place
  item : ℕ → Place

pub data Op : Type 0 where
  -- `val` and `prop` of the control
  set_value : Value → Op
  set_props : Fields → Op
  -- `insertAdjacentElement("beforebegin")` of the control at an element
  moves_before : ℕ → Op
  html_before : Place → String → Op
  removes : Place → Op
  -- at the end of the form
  appends_html : String → Op

unfoldable pub value_ops : View → Update → List Op
value_ops view u = elim (u.value) [
  | none ↦ []
  | some v ↦ if view.has_control then set_value v ∷ [] else []
]

unfoldable pub attribute_ops : View → Update → List Op
attribute_ops view u = elim (u.attributes) [
  | none ↦ []
  | some fs ↦ if view.has_control then set_props fs ∷ [] else []
]

unfoldable pub removes_items : List ℕ → List Op
removes_items [] = []
removes_items (i ∷ is) = removes (item i) ∷ removes_items is

unfoldable pub move_ops : Option ℕ → List Op
move_ops none = []
move_ops (some p) = moves_before p ∷ []

unfoldable pub html_ops : View → String → List Op
html_ops view h =
    if view.has_wrapper
    then html_before wrapper h ∷ removes wrapper ∷ []
    else if view.has_control
    then move_ops view.related_parent
      ++ (removes_items view.related_items ++ html_before control h ∷ removes control ∷ [])
    else appends_html h ∷ []

-- One turn of the loop over `json.controls`
unfoldable pub update_control : View → Update → List Op
update_control view u =
    value_ops view u
    ++ (attribute_ops view u ++ elim (u.html) [ none ↦ [] | some h ↦ html_ops view h ])
