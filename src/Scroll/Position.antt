-- ===== src/Scroll/Position.antt =====
-- That the position of `_newScrollTop`, assets/js/goradd-scrollIntoView.js, is a good one.
use serve.Base.{sym, ◌≡◌, ◌⊎◌, arith, inl, inr}
use serve.Base.Int.{
  ≤ℤ_total, ℤ, pos, ◌+ℤ◌, ◌-ℤ◌, ◌≤ℤ◌, ◌<ℤ◌, int_laws, +ℤ_parts, -ℤ_parts, eq_of_parts, ≤ℤ_of_eq,
}
use serve.Scroll.{top_position, bottom_position, choose_position, new_scroll_top}

-- An item within the content, seen through a view that lies within the content.
pub record IsLaidOut (view_top view_bottom scroll_height item_top item_bottom : ℤ) : Type 0 where
  pub view_above : pos 0 ≤ℤ view_top
  pub view_proper : view_top ≤ℤ view_bottom
  pub view_below : view_bottom ≤ℤ scroll_height
  pub item_above : pos 0 ≤ℤ item_top
  pub item_proper : item_top ≤ℤ item_bottom
  pub item_below : item_bottom ≤ℤ scroll_height

module _ (h sh it ib : ℤ) where
  -- `topPos` lies within the content, and is the item's top unless that is too far down.
  top_position_lem :
      pos 0 ≤ℤ h
      → h ≤ℤ sh
      → pos 0 ≤ℤ it
      → (pos 0 ≤ℤ top_position h sh it)
        × (top_position h sh it +ℤ h ≤ℤ sh)
        × (top_position h sh it ≤ℤ it)
        × ((top_position h sh it ≡ it) ⊎ (top_position h sh it +ℤ h ≡ sh))
  unfolding top_position
  top_position_lem a b c =
      ground
        (arith, +ℤ_parts it h, -ℤ_parts sh h, +ℤ_parts (sh -ℤ h) h, eq_of_parts (sh -ℤ h +ℤ h) sh)

  -- `bottomPos` lies within the content, and is where the item's bottom just shows unless that is
  -- too far up.
  bottom_position_lem :
      pos 0 ≤ℤ h
      → h ≤ℤ sh
      → ib ≤ℤ sh
      → (pos 0 ≤ℤ bottom_position h ib)
        × (bottom_position h ib +ℤ h ≤ℤ sh)
        × (ib ≤ℤ bottom_position h ib +ℤ h)
        × ((bottom_position h ib ≡ pos 0) ⊎ (bottom_position h ib +ℤ h ≡ ib))
  unfolding bottom_position
  bottom_position_lem a b c = ground (
    arith,
    -ℤ_parts ib h,
    +ℤ_parts (ib -ℤ h) h,
    +ℤ_parts (pos 0) h,
    eq_of_parts (ib -ℤ h +ℤ h) ib,
  )

-- Which of the three positions is chosen: the old one exactly if it lies between the two others.
choose_position_lem :
    (vt it tp bp : ℤ)
    → ((choose_position vt it tp bp ≡ vt) × (((tp ≤ℤ vt) × (vt ≤ℤ bp)) ⊎ ((bp ≤ℤ vt) × (vt ≤ℤ tp))))
      ⊎ ((choose_position vt it tp bp ≡ tp)
          × (((tp <ℤ bp) × ((vt <ℤ tp) ⊎ (bp <ℤ vt)))
              ⊎ ((bp ≤ℤ tp) × (it <ℤ vt) × ((vt <ℤ bp) ⊎ (tp <ℤ vt)))))
      ⊎ ((choose_position vt it tp bp ≡ bp) × (bp ≤ℤ tp) × (vt ≤ℤ it) × ((vt <ℤ bp) ⊎ (tp <ℤ vt)))
unfolding choose_position
choose_position_lem vt it tp bp = ground arith

module _ (vt vb sh it ib : ℤ) (laid_out : IsLaidOut vt vb sh it ib) where
  height_lem : (pos 0 ≤ℤ vb -ℤ vt) × (vb -ℤ vt ≤ℤ sh) × (vt +ℤ (vb -ℤ vt) ≡ vb)
  height_lem = (omega int_laws, omega int_laws, omega int_laws)

  -- The new position lies within the content.
  pub new_scroll_top_bounds :
      (pos 0 ≤ℤ new_scroll_top vt vb sh it ib) × (new_scroll_top vt vb sh it ib +ℤ (vb -ℤ vt) ≤ℤ sh)
  unfolding new_scroll_top
  new_scroll_top_bounds =
      let h = vb -ℤ vt in
      let (h0, h1, h2) = height_lem in
      let t = top_position_lem h sh it ib h0 h1 laid_out.item_above in
      let b = bottom_position_lem h sh it ib h0 h1 laid_out.item_below in
      elim (choose_position_lem vt it (top_position h sh it) (bottom_position h ib)) [
        | inl (e, _) ↦ rw e (laid_out.view_above, omega int_laws)
        | inr (inl (e, _)) ↦ rw e (t.0, t.1)
        | inr (inr (e, _, _, _)) ↦ rw e (b.0, b.1)
      ]

  -- An item no taller than the view shows whole at both positions.
  positions_show :
      ib -ℤ it ≤ℤ vb -ℤ vt
      → let h = vb -ℤ vt in
        let t = top_position h sh it in
        let b = bottom_position h ib in (t ≤ℤ it) × (ib ≤ℤ t +ℤ h) × (b ≤ℤ it) × (ib ≤ℤ b +ℤ h)
  positions_show fits =
      let h = vb -ℤ vt in
      let (h0, h1, h2) = height_lem in
      let t = top_position_lem h sh it ib h0 h1 laid_out.item_above in
      let b = bottom_position_lem h sh it ib h0 h1 laid_out.item_below in
      (t.2, below t.3, above b.3, b.2)
    where
      below :
          (top_position (vb -ℤ vt) sh it ≡ it) ⊎ (top_position (vb -ℤ vt) sh it +ℤ (vb -ℤ vt) ≡ sh)
          → ib ≤ℤ top_position (vb -ℤ vt) sh it +ℤ (vb -ℤ vt)
      below (inl e) = rw e (omega int_laws)
      below (inr e) = rw e laid_out.item_below

      above :
          (bottom_position (vb -ℤ vt) ib ≡ pos 0)
            ⊎ (bottom_position (vb -ℤ vt) ib +ℤ (vb -ℤ vt) ≡ ib)
          → bottom_position (vb -ℤ vt) ib ≤ℤ it
      above (inl e) = rw e laid_out.item_above
      above (inr e) = let k = ≤ℤ_of_eq e in omega int_laws

  -- An item no taller than the view shows whole at the new position.
  pub new_scroll_top_shows :
      ib -ℤ it ≤ℤ vb -ℤ vt
      → (new_scroll_top vt vb sh it ib ≤ℤ it) × (ib ≤ℤ new_scroll_top vt vb sh it ib +ℤ (vb -ℤ vt))
  unfolding new_scroll_top
  new_scroll_top_shows fits =
      let (t0, t1, b0, b1) = positions_show fits in
      elim (choose_position_lem vt it (top_position (vb -ℤ vt) sh it)
        (bottom_position (vb -ℤ vt) ib)) [
          | inl (e, w) ↦ rw e (omega int_laws, omega int_laws)
          | inr (inl (e, _)) ↦ rw e (t0, t1)
          | inr (inr (e, _, _, _)) ↦ rw e (b0, b1)
        ]

  -- If the view lies within the content that can be scrolled, its top not below its bottom, and so
  -- does the item, then of all the positions at which the item shows whole, none is nearer to the
  -- old position: the new one lies between the old one and any of them.
  pub new_scroll_top_nearest :
      (p : ℤ)
      → pos 0 ≤ℤ p
      → p +ℤ (vb -ℤ vt) ≤ℤ sh
      → p ≤ℤ it
      → ib ≤ℤ p +ℤ (vb -ℤ vt)
      → ((vt ≤ℤ new_scroll_top vt vb sh it ib) × (new_scroll_top vt vb sh it ib ≤ℤ p))
        ⊎ ((p ≤ℤ new_scroll_top vt vb sh it ib) × (new_scroll_top vt vb sh it ib ≤ℤ vt))
  unfolding new_scroll_top
  new_scroll_top_nearest p p0 p1 p2 p3 =
      let h = vb -ℤ vt in
      let (h0, h1, h2) = height_lem in
      let t = top_position_lem h sh it ib h0 h1 laid_out.item_above in
      let b = bottom_position_lem h sh it ib h0 h1 laid_out.item_below in
      let b_p = from_below p0 p3 b.3 in
      let p_t = to_above p1 p2 t.3 in
      elim (choose_position_lem vt it (top_position h sh it) (bottom_position h ib)) [
        | inl (e, inl w) ↦ rw e (inl (omega arith, omega arith))
        | inl (e, inr w) ↦ rw e (either (≤ℤ_total vt p))
        | inr (inl (e, inl w)) ↦ rw e (absurd (omega arith))
        | inr (inl (e, inr w)) ↦ rw e (inr (omega arith, omega arith))
        | inr (inr (e, _, w, inl below)) ↦ rw e (inl (omega arith, b_p))
        | inr (inr (e, _, w, inr above)) ↦ absurd (not_below above w t.3)
      ]
    where
      either : (vt ≤ℤ p) ⊎ (p ≤ℤ vt) → ((vt ≤ℤ vt) × (vt ≤ℤ p)) ⊎ ((p ≤ℤ vt) × (vt ≤ℤ vt))
      either (inl k) = inl (omega arith, k)
      either (inr k) = inr (k, omega arith)

      not_below :
          top_position (vb -ℤ vt) sh it <ℤ vt
          → vt ≤ℤ it
          → (top_position (vb -ℤ vt) sh it ≡ it)
            ⊎ (top_position (vb -ℤ vt) sh it +ℤ (vb -ℤ vt) ≡ sh)
          → ⊥
      not_below above w (inl e) = let k = ≤ℤ_of_eq (sym e) in omega arith
      not_below above w (inr e) = let k = ≤ℤ_of_eq (sym e) in omega int_laws

      from_below :
          pos 0 ≤ℤ p
          → ib ≤ℤ p +ℤ (vb -ℤ vt)
          → (bottom_position (vb -ℤ vt) ib ≡ pos 0)
            ⊎ (bottom_position (vb -ℤ vt) ib +ℤ (vb -ℤ vt) ≡ ib)
          → bottom_position (vb -ℤ vt) ib ≤ℤ p
      from_below p0 p3 (inl e) = rw e p0
      from_below p0 p3 (inr e) = let k = ≤ℤ_of_eq e in omega int_laws

      to_above :
          p +ℤ (vb -ℤ vt) ≤ℤ sh
          → p ≤ℤ it
          → (top_position (vb -ℤ vt) sh it ≡ it)
            ⊎ (top_position (vb -ℤ vt) sh it +ℤ (vb -ℤ vt) ≡ sh)
          → p ≤ℤ top_position (vb -ℤ vt) sh it
      to_above p1 p2 (inl e) = rw e p2
      to_above p1 p2 (inr e) = let k = ≤ℤ_of_eq (sym e) in omega int_laws
