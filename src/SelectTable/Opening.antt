-- ===== src/SelectTable/Opening.antt =====
-- The end of the constructor of assets/js/table-select.js: a table that scrolls is put into a new element,
-- which gets the keys.
use serve.Base.{
  ◌≡◌, refl, ◌≢◌, sym, ap, subst, ◌∙◌, ℕ, zero, suc, ◌+◌, ◌-◌, ◌≤◌, ◌<◌, max, String, str_eq,
  str_append, eq_iff, eq_refl, Bool, true, false, not, ◌&&◌, ◌||◌, List, [], ◌∷◌, ◌++◌, arith,
  if◌then◌else◌, ◌==◌, ==_iff, ltb, leb, Bool-cases, Option-cases, inl, inr, ◌⊎◌, ◌↔◌, All,
  All-append, Option, none, some, append-nil, append_assoc, map, reverse, length, get_elem?,
  keep_if,
}
use serve.Base.Dict.{lookup, remove, lookup-insert, lookup-remove}
use serve.Builder.{Tag, tag_builder, attr}
use serve.Dom.{Dom, children_of, parent_of, has_parent, put_instead, wrap}
use serve.Dom.Wrapped.{wrap_lem}
use serve.Elements.{Element, set_attr}
use serve.Value.{Value, bool}

-- The table as it is opened: the tree, the element of the table, the new element, if one is made,
-- and which element gets the keys
pub record Opened : Type 0 where
  pub dom : Dom
  pub table : Element
  pub scroller : Option Tag
  pub key_target : ℕ

-- The element that scrolls, for a table with an id
unfoldable pub make_scroller : String → Tag
make_scroller table_id =
    attr "style" "overflow-y:auto;padding-right:10px"
      (attr "tabindex" "0" (attr "id" (str_append table_id "_scroller") (tag_builder "div")))

module _ (to_text : Value → String) where
  -- The branches on `this.options.scrollable`, `none` where `wrap` throws; `fresh` is the new element.
  unfoldable pub open_keys : Bool → String → ℕ → ℕ → Element → Dom → Option Opened
  open_keys false table_id fresh key table d =
      some (record { dom = d; table = table; scroller = none; key_target = key })
  open_keys true table_id fresh key table d = elim (wrap fresh key d) [
    | none ↦ none
    | some d1 ↦ some (record {
      dom = d1;
      table = set_attr to_text "tabindex" (bool false) table;
      scroller = some (make_scroller table_id);
      key_target = fresh;
    })
  ]

  -- A table that scrolls and has a parent ends as the only child of a new element in its place, with
  -- all other children as they were; the new element gets the keys and the focus, by its `tabindex`, has
  -- an id of its own, and the table cannot get the focus any more.
  pub open_keys_lem :
      (table_id : String) (fresh key : ℕ) (table : Element) (d : Dom)
      → parent_of fresh d ≡ none
      → children_of fresh d ≡ []
      → has_parent key d ≡ true
      → (o : Opened) × (open_keys true table_id fresh key table d ≡ some o)
        × ((q : ℕ)
            → children_of q o.dom
              ≡ (if q == fresh then key ∷ [] else put_instead fresh key (children_of q d)))
        × (o.key_target ≡ fresh)
        × (lookup "tabindex" o.table.attributes ≡ none)
        × (lookup "tabindex" (make_scroller table_id).attributes ≡ some "0")
        × (lookup "id" (make_scroller table_id).attributes ≡ some (str_append table_id "_scroller"))
  unfolding open_keys set_attr serve.Elements.written make_scroller attr tag_builder lookup
      serve.Base.Dict.insert
  open_keys_lem table_id fresh key table d new empty placed =
      let (e, made, stands) = wrap_lem fresh key d new empty placed in
      (
        record {
          dom = e;
          table = set_attr to_text "tabindex" (bool false) table;
          scroller = some (make_scroller table_id);
          key_target = fresh;
        },
        rw (made, open_keys) refl,
        stands,
        refl,
        lookup-remove "tabindex" "tabindex" table.attributes,
        refl,
        refl,
      )

  -- A table that scrolls and stands nowhere cannot be opened.
  pub open_keys-detached :
      (table_id : String) (fresh key : ℕ) (table : Element) (d : Dom)
      → has_parent key d ≡ false
      → open_keys true table_id fresh key table d ≡ none
  unfolding open_keys wrap serve.Dom.replace_child
  open_keys-detached table_id fresh key table d h =
      rw (open_keys, wrap, serve.Dom.replace_child, h) refl
