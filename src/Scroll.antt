-- ===== src/Scroll.antt =====
-- Where to scroll so that an item comes into view: `_newScrollTop` and `scrollIntoView` of
-- assets/js/goradd-scrollIntoView.js. Positions are whole pixels, as integers. The browser's layout
-- is a parameter: the boxes of the item and of its ancestors, from the inside out.
pub mod Position
use serve.Base.{
  Bool, true, false, ◌&&◌, ◌||◌, List, [], ◌∷◌, Option, none, some, if◌then◌else◌, String, str_eq,
}
use serve.Base.Int.{ℤ, pos, ◌+ℤ◌, ◌-ℤ◌, ltb_ℤ, leb_ℤ}

-- `topPos` after the first test: no further down than the content allows.
unfoldable pub top_position : ℤ → ℤ → ℤ → ℤ
top_position view_height scroll_height item_top =
    if ltb_ℤ scroll_height (item_top +ℤ view_height)
    then (let top = scroll_height -ℤ view_height in if ltb_ℤ top (pos 0) then pos 0 else top)
    else item_top

-- `bottomPos` after its test.
unfoldable pub bottom_position : ℤ → ℤ → ℤ
bottom_position view_height item_bottom =
    let bottom = item_bottom -ℤ view_height in if ltb_ℤ bottom (pos 0) then pos 0 else bottom

-- The choice between the two positions.
unfoldable pub choose_position : ℤ → ℤ → ℤ → ℤ → ℤ
choose_position view_top item_top top_pos bottom_pos =
    if ltb_ℤ top_pos bottom_pos
    then (if leb_ℤ top_pos view_top && leb_ℤ view_top bottom_pos then view_top else top_pos)
    else if leb_ℤ bottom_pos view_top && leb_ℤ view_top top_pos
    then view_top
    else if ltb_ℤ item_top view_top
    then top_pos
    else bottom_pos

-- `_newScrollTop`
unfoldable pub new_scroll_top : ℤ → ℤ → ℤ → ℤ → ℤ → ℤ
new_scroll_top view_top view_bottom scroll_height item_top item_bottom =
    let view_height = view_bottom -ℤ view_top in
    choose_position view_top item_top (top_position view_height scroll_height item_top)
      (bottom_position view_height item_bottom)

-- The box of an element in the window, `getBoundingClientRect`.
pub record Rect : Type 0 where
  pub top : ℤ
  pub bottom : ℤ

-- An ancestor of the item.
pub record Frame : Type 0 where
  pub overflow_y : String
  pub rect : Rect
  pub scroll_top : ℤ
  pub scroll_height : ℤ

-- The position that `scrollIntoView` gives an ancestor that scrolls.
unfoldable pub scrolled : Rect → Frame → Frame
scrolled el f =
    let view_top = f.scroll_top in
    let view_bottom = view_top +ℤ f.rect.bottom -ℤ f.rect.top in
    let item_top = el.top -ℤ f.rect.top +ℤ view_top in
    let item_bottom = item_top +ℤ el.bottom -ℤ el.top in
    record f {
      scroll_top = new_scroll_top view_top view_bottom f.scroll_height item_top item_bottom;
    }

-- `scrollIntoView`: the innermost ancestor that scrolls is given its position.
unfoldable pub scroll_into_view : Rect → List Frame → List Frame
scroll_into_view el [] = []
scroll_into_view el (f ∷ fs) =
    if str_eq f.overflow_y "auto" || str_eq f.overflow_y "scroll"
    then scrolled el f ∷ fs
    else f ∷ scroll_into_view el fs
