-- ===== src/Builder.antt =====
-- The element that `goradd.TagBuilder` of assets/js/goradd.js makes, before it is put into the tree:
-- its attributes and what it holds. Where it is put is in Dom. How a property of the style is written
-- into the attribute of that name is the browser's, and a parameter.
use serve.Base.{
  ◌≡◌, refl, ◌∙◌, String, str_eq, Bool, false, List, [], ◌∷◌, arith, All, Option, none, some,
}
use serve.Base.Dict.{Dict, lookup, insert, lookup-insert}

-- What stands in the element: nothing, `innerHTML` or `innerText`
pub data Content : Type 0 where
  empty : Content
  html_of : String → Content
  text_of : String → Content

pub record Tag : Type 0 where
  pub name : String
  pub attributes : Dict String
  pub content : Content

-- `goradd.tagBuilder`, `document.createElement`
unfoldable pub tag_builder : String → Tag
tag_builder name = record { name = name; attributes = []; content = empty }

-- `attr`, `id`, `class`, `html` and `text`
unfoldable pub attr : String → String → Tag → Tag
attr a v t = record t { attributes = insert a v t.attributes }

unfoldable pub id : String → Tag → Tag
id i t = attr "id" i t

unfoldable pub class : String → Tag → Tag
class c t = attr "class" c t

unfoldable pub html : String → Tag → Tag
html h t = record t { content = html_of h }

unfoldable pub text : String → Tag → Tag
text s t = record t { content = text_of s }

-- The text of an attribute, which is no text where it is not set
unfoldable pub attribute_text : String → Tag → String
attribute_text a t = elim (lookup a t.attributes) [ none ↦ "" | some s ↦ s ]

module _ (set_property : String → String → String → String) where
  -- `css`
  unfoldable pub css : String → String → Tag → Tag
  css p v t = attr "style" (set_property (attribute_text "style" t) p v) t

  -- The calls of the builder, in a chain
  pub data Call : Type 0 where
    attrs : String → String → Call
    styles : String → String → Call
    htmls : String → Call
    texts : String → Call
    ids : String → Call
    classes : String → Call

  unfoldable pub apply : Call → Tag → Tag
  apply (attrs a v) t = attr a v t
  apply (styles p v) t = css p v t
  apply (htmls h) t = html h t
  apply (texts s) t = text s t
  apply (ids i) t = id i t
  apply (classes c) t = class c t

  unfoldable pub build : List Call → Tag → Tag
  build [] t = t
  build (c ∷ cs) t = build cs (apply c t)

  -- The attribute that a call sets
  unfoldable pub sets : Call → Option String
  sets (attrs a v) = some a
  sets (styles p v) = some "style"
  sets (htmls h) = none
  sets (texts s) = none
  sets (ids i) = some "id"
  sets (classes c) = some "class"

  unfoldable pub is_set_by : String → Call → Bool
  is_set_by a c = elim (sets c) [ none ↦ false | some b ↦ str_eq b a ]

  lookup-apply :
      (a : String) (c : Call) (t : Tag)
      → is_set_by a c ≡ false
      → lookup a (apply c t).attributes ≡ lookup a t.attributes
  unfolding is_set_by sets apply attr id class html text css
  lookup-apply a (attrs b v) t h = ground (arith, h, lookup-insert b a v t.attributes)
  lookup-apply a (styles p v) t h =
      ground (
        arith,
        h,
        lookup-insert "style" a (set_property (attribute_text "style" t) p v) t.attributes,
      )
  lookup-apply a (htmls s) t h = refl
  lookup-apply a (texts s) t h = refl
  lookup-apply a (ids i) t h = ground (arith, h, lookup-insert "id" a i t.attributes)
  lookup-apply a (classes c) t h = ground (arith, h, lookup-insert "class" a c t.attributes)

  -- Calls that do not set an attribute leave it as it was, wherever they stand in the chain.
  pub lookup-build :
      (a : String) (cs : List Call) (t : Tag)
      → All (λ c. is_set_by a c ≡ false) cs
      → lookup a (build cs t).attributes ≡ lookup a t.attributes
  unfolding build
  lookup-build a [] t h = refl
  lookup-build a (c ∷ cs) t h = lookup-build a cs (apply c t) h.1 ∙ lookup-apply a c t h.0
