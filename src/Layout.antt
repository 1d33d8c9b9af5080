-- ===== src/Layout.antt =====
-- The size of an element: `width` and `height` of `goradd.Control` in assets/js/goradd.js. The sizes are
-- those that the browser has laid out, as integers.
use serve.Base.{◌≡◌, refl, sym, ap}
use serve.Base.Int.{ℤ, ◌+ℤ◌, ◌-ℤ◌}

-- The argument `boundary`: none, null and "" stand for the content.
pub data Boundary : Type 0 where
  content : Boundary
  padding : Boundary
  border : Boundary
  margin : Boundary
  unknown : Boundary

-- What is before and behind the content along one axis
pub record Sides : Type 0 where
  pub before : ℤ
  pub behind : ℤ

pub record Box : Type 0 where
  pub client_width : ℤ
  pub client_height : ℤ
  pub offset_width : ℤ
  pub offset_height : ℤ
  -- left and right, top and bottom
  pub padding_across : Sides
  pub padding_down : Sides
  pub margin_across : Sides
  pub margin_down : Sides

unfoldable pub width : Boundary → Box → ℤ
width content b = b.client_width -ℤ (b.padding_across.before +ℤ b.padding_across.behind)
width padding b = b.client_width
width border b = b.offset_width
width margin b = b.offset_height +ℤ b.margin_across.before +ℤ b.margin_across.behind
width unknown b = b.client_width

unfoldable pub height : Boundary → Box → ℤ
height content b = b.client_height -ℤ (b.padding_down.before +ℤ b.padding_down.behind)
height padding b = b.client_height
height border b = b.offset_height
height margin b = b.offset_height +ℤ b.margin_down.before +ℤ b.margin_down.behind
height unknown b = b.client_height

-- The box turned on its side
abbrev pub turned : Box → Box
turned b = record {
  client_width = b.client_height;
  client_height = b.client_width;
  offset_width = b.offset_height;
  offset_height = b.offset_width;
  padding_across = b.padding_down;
  padding_down = b.padding_across;
  margin_across = b.margin_down;
  margin_down = b.margin_across;
}

-- The width of a box is the height of the box turned on its side, for every boundary, if it is as wide as high with its
-- border; for the boundary margin it is not so without this.
pub width-turned :
    (boundary : Boundary) (b : Box)
    → b.offset_width ≡ b.offset_height
    → width boundary b ≡ height boundary (turned b)
unfolding width height
width-turned content b h = refl
width-turned padding b h = refl
width-turned border b h = refl
width-turned margin b h = ap (λ n. n +ℤ b.margin_across.before +ℤ b.margin_across.behind) (sym h)
width-turned unknown b h = refl
