-- ===== src/Capture/Framing.antt =====
-- Where the video is drawn on the canvas. `_loadmetadata` of assets/js/image-capture.js, with
-- numbers that are fractions, not rounded.
use serve.Base.{
  ◌≡◌, ℕ, ◌+◌, ◌-◌, ◌*◌, ◌≤◌, ◌<◌, Bool, true, false, arith, if◌then◌else◌, ltb, Bool-cases, inl,
  inr,
}

pub record Fraction : Type 0 where
  pub over : ℕ
  pub under : ℕ

unfoldable pub whole : ℕ → Fraction
whole n = record { over = n; under = 1 }

unfoldable pub times : Fraction → Fraction → Fraction
times a b = record { over = a.over * b.over; under = a.under * b.under }

unfoldable pub divided : Fraction → Fraction → Fraction
divided a b = record { over = a.over * b.under; under = a.under * b.over }

-- The difference, which is never below 0 where it is taken
unfoldable pub minus : Fraction → Fraction → Fraction
minus a b = record { over = a.over * b.under - b.over * a.under; under = a.under * b.under }

unfoldable pub plus : Fraction → Fraction → Fraction
plus a b = record { over = a.over * b.under + b.over * a.under; under = a.under * b.under }

unfoldable pub is_less : Fraction → Fraction → Bool
is_less a b = ltb (a.over * b.under) (b.over * a.under)

-- `_x`, `_y`, `_w` and `_h`
pub record Frame : Type 0 where
  pub x : Fraction
  pub y : Fraction
  pub w : Fraction
  pub h : Fraction

unfoldable pub scale_of : ℕ → Fraction
scale_of zoom = plus (divided (whole zoom) (whole 100)) (whole 1)

-- The frame of a video that is narrower than the canvas, and of another
unfoldable pub narrow_frame : Fraction → Fraction → ℕ → ℕ → ℕ → Frame
narrow_frame scale w_scale video_height width height =
    let h = divided (times scale (whole video_height)) w_scale in
    record {
      w = times scale (whole width);
      h = h;
      x = whole 0;
      y = divided (times scale (minus h (whole height))) (whole 2);
    }

unfoldable pub wide_frame : Fraction → Fraction → ℕ → ℕ → ℕ → Frame
wide_frame scale h_scale video_width width height =
    let w = divided (times scale (whole video_width)) h_scale in
    record {
      h = times scale (whole height);
      w = w;
      y = whole 0;
      x = divided (times scale (minus w (whole width))) (whole 2);
    }

unfoldable pub measure : ℕ → ℕ → ℕ → ℕ → ℕ → Frame
measure zoom video_width video_height width height =
    let h_scale = divided (whole video_height) (whole height) in
    let w_scale = divided (whole video_width) (whole width) in
    let scale = scale_of zoom in
    if is_less w_scale h_scale
    then narrow_frame scale w_scale video_height width height
    else wide_frame scale h_scale video_width width height

-- A fraction is a number, and one not below another; two are the same.
unfoldable pub IsAtLeast : Fraction → ℕ → Type 0
IsAtLeast a n = (0 < a.under) × (n * a.under ≤ a.over)

unfoldable pub IsSame : Fraction → Fraction → Type 0
IsSame a b = a.over * b.under ≡ b.over * a.under

-- The sides of the frame are at least those of the canvas, in the proportion of those of the video.
-- Where the frame lies is another matter.
abbrev pub IsLargeEnough : Frame → ℕ → ℕ → ℕ → ℕ → Type 0
IsLargeEnough f video_width video_height width height =
    IsAtLeast f.w width
    × IsAtLeast f.h height
    × IsSame (times f.w (whole video_height)) (times f.h (whole video_width))

narrow-IsLargeEnough :
    (zoom vw vh width height : ℕ)
    → 0 < vw
    → vw * height < vh * width
    → IsLargeEnough
        (narrow_frame (scale_of zoom) (divided (whole vw) (whole width)) vh width height)
        vw
        vh
        width
        height
unfolding scale_of plus divided whole times narrow_frame IsAtLeast IsSame
narrow-IsLargeEnough zoom vw vh width height h less =
    ((omega arith, omega arith), (omega arith, omega arith), omega arith)

wide-IsLargeEnough :
    (zoom vw vh width height : ℕ)
    → 0 < vh
    → vh * width ≤ vw * height
    → IsLargeEnough
        (wide_frame (scale_of zoom) (divided (whole vh) (whole height)) vw width height)
        vw
        vh
        width
        height
unfolding scale_of plus divided whole times wide_frame IsAtLeast IsSame
wide-IsLargeEnough zoom vw vh width height h less =
    ((omega arith, omega arith), (omega arith, omega arith), omega arith)

-- Whatever the zoom, the sides of the frame in which a video whose sides are not 0 is drawn are at least
-- those of the canvas, and in the proportion of those of the video.
pub measure-IsLargeEnough :
    (zoom vw vh width height : ℕ)
    → 0 < vw
    → 0 < vh
    → IsLargeEnough (measure zoom vw vh width height) vw vh width height
unfolding measure is_less
measure-IsLargeEnough zoom vw vh width height h k =
    elim (Bool-cases
      (is_less (divided (whole vw) (whole width)) (divided (whole vh) (whole height)))) [
        | inl b ↦ rw (measure, b) (narrow-IsLargeEnough zoom vw vh width height h (lt b))
        | inr b ↦ rw (measure, b) (wide-IsLargeEnough zoom vw vh width height k (ge b))
      ]
  where
    lt :
        is_less (divided (whole vw) (whole width)) (divided (whole vh) (whole height)) ≡ true
        → vw * height < vh * width
    lt b = unfold divided whole in ground (arith, b)

    ge :
        is_less (divided (whole vw) (whole width)) (divided (whole vh) (whole height)) ≡ false
        → vh * width ≤ vw * height
    ge b = unfold divided whole in ground (arith, b)
