-- ===== src/Awt/Viewport.antt =====
-- `Viewport` of launch/awt.rs: where the desktop is drawn on the surface. The products are `u64`
-- and the results are cut to `u32`, as in the source; the origin is signed, and its division by 2
-- rounds towards 0.
pub mod Bounds
use Prim.Native.Nat.{min, max}
use rc_launcher.Base.{
  ℕ, ◌+◌, ◌-◌, ◌*◌, ◌/◌, ◌%◌, ◌^◌, Bool, true, false, ◌||◌, ltb, leb, ◌==◌, if◌then◌else◌,
}
use rc_launcher.Base.Int.{ℤ, pos, negsuc}

pub data ScaleMode : Type 0 where
  stretch fit fill_crop center : ScaleMode

pub record Placement : Type 0 where
  pub x : ℤ
  pub y : ℤ
  pub width : ℕ
  pub height : ℕ

pub record Viewport : Type 0 where
  pub screen_width : ℕ
  pub screen_height : ℕ
  pub surface_width : ℕ
  pub surface_height : ℕ
  pub mode : ScaleMode

-- `(a - b) / 2` in `i64`, which rounds towards 0.
abbrev pub half_gap : ℕ → ℕ → ℤ
half_gap a b =
    if leb b a
    then pos ((a - b) / 2)
    else if (b - a) / 2 == 0
    then pos 0
    else negsuc ((b - a) / 2 - 1)

abbrev pub u32_mod : ℕ
u32_mod = 2 ^ 32

-- The size that keeps the aspect ratio, when the height is the limit, and when the width is.
unfoldable pub scaled : Viewport → Bool → ℕ × ℕ
scaled v height_is_limit =
    if height_is_limit
    then (max (v.screen_width * v.surface_height / v.screen_height) 1 % u32_mod, v.surface_height)
    else (v.surface_width, max (v.screen_height * v.surface_width / v.screen_width) 1 % u32_mod)

unfoldable pub drawn_size : Viewport → ScaleMode → ℕ × ℕ
unfolding scaled
drawn_size v stretch = (v.surface_width, v.surface_height)
drawn_size v center = (v.screen_width, v.screen_height)
drawn_size v fit =
    scaled v (ltb (v.surface_height * v.screen_width) (v.surface_width * v.screen_height))
drawn_size v fill_crop =
    scaled v (ltb (v.surface_width * v.screen_height) (v.surface_height * v.screen_width))

unfoldable pub placement : Viewport → Placement
unfolding drawn_size
placement v =
    if v.screen_width == 0 || v.screen_height == 0 || v.surface_width == 0 || v.surface_height == 0
    then record { x = pos 0; y = pos 0; width = 0; height = 0 }
    else let (w, h) = drawn_size v v.mode in
      record {
        x = half_gap v.surface_width w;
        y = half_gap v.surface_height h;
        width = w;
        height = h;
      }
