-- ===== src/Awt/Viewport/Bounds.antt =====
-- What the two modes of launch/awt.rs that keep the aspect ratio promise.
use native.Mathlib.Nat.{div-le_of_le-mul, le-div_iff_mul-le, mul_comm}
use rc_launcher.Base.{
  ℕ, ◌+◌, ◌*◌, ◌/◌, ◌%◌, ◌≤◌, ◌<◌, max, ◌≡◌, refl, false, ◌||◌, ◌==◌, ◌⊎◌, inl, inr, ltb, ltb→lt,
  ltb→le, Bool-cases, arith,
}
use rc_launcher.Base.Int.{ℤ, pos_part, neg_part}
use rc_launcher.Awt.Viewport.{Viewport, fit, fill_crop, placement, drawn_size, half_gap, u32_mod}

pub record IsVisible (v : Viewport) : Type 0 where
  pub screen_wide : 0 < v.screen_width
  pub screen_high : 0 < v.screen_height
  pub surface_wide : 0 < v.surface_width
  pub surface_high : 0 < v.surface_height
  pub wide : v.surface_width < u32_mod
  pub high : v.surface_height < u32_mod

-- The products that decide which edge is the limit, with their factors in one order.
abbrev by_width : Viewport → ℕ
by_width v = v.surface_width * v.screen_height

abbrev by_height : Viewport → ℕ
by_height v = v.surface_height * v.screen_width

cut_below :
    (q b : ℕ) → q ≤ b → 0 < b → b < u32_mod → (max q 1 % u32_mod ≤ b) × (0 < max q 1 % u32_mod)
cut_below q b h k l = (omega arith, omega arith)

cut_above : (q b : ℕ) → b ≤ q → q < u32_mod → b ≤ max q 1 % u32_mod
cut_above q b h k = omega arith

shown :
    (v : Viewport)
    → IsVisible v
    → (v.screen_width == 0 || v.screen_height == 0 || v.surface_width == 0 || v.surface_height == 0)
      ≡ false
shown v s = ground arith

half_gap_covers :
    (surface drawn : ℕ)
    → surface ≤ drawn
    → (pos_part (half_gap surface drawn) ≡ 0)
      × (surface + neg_part (half_gap surface drawn) ≤ drawn)
half_gap_covers surface drawn h = ground arith

fit_size :
    (v : Viewport)
    → IsVisible v
    → ((drawn_size v fit).0 ≤ v.surface_width)
      × ((drawn_size v fit).1 ≤ v.surface_height)
      × (((drawn_size v fit).0 ≡ v.surface_width) ⊎ ((drawn_size v fit).1 ≡ v.surface_height))
      × (0 < (drawn_size v fit).0)
      × (0 < (drawn_size v fit).1)
unfolding drawn_size
fit_size v s = elim (Bool-cases (ltb (by_height v) (by_width v))) [
  | inl tall ↦
      let q : v.screen_width * v.surface_height / v.screen_height ≤ v.surface_width =
        div-le_of_le-mul v.screen_height (
          omega (
            arith,
            ltb→lt (by_height v) (by_width v) tall,
            mul_comm v.surface_height v.screen_width,
            mul_comm v.surface_width v.screen_height,
          )) in
      let (below, some_left) = cut_below _ _ q s.surface_wide s.wide in
      rw tall (below, omega arith, inr refl, some_left, s.surface_high)
  | inr wide ↦
      let q : v.screen_height * v.surface_width / v.screen_width ≤ v.surface_height =
        div-le_of_le-mul v.screen_width (
          omega (
            arith,
            ltb→le (by_height v) (by_width v) wide,
            mul_comm v.surface_height v.screen_width,
            mul_comm v.surface_width v.screen_height,
          )) in
      let (below, some_left) = cut_below _ _ q s.surface_high s.high in
      rw wide (omega arith, below, inl refl, s.surface_wide, some_left)
]

-- The desktop is drawn between the edges `[0, surface)`, and the bars on its two sides differ by
-- at most one pixel.
pub record IsCentred (x : ℤ) (drawn surface : ℕ) : Type 0 where
  pub not_left_of : neg_part x ≡ 0
  pub left_bar : pos_part x + pos_part x + drawn ≤ surface
  pub right_bar : surface ≤ pos_part x + pos_part x + drawn + 1

half_gap-IsCentred :
    (surface drawn : ℕ) → drawn ≤ surface → IsCentred (half_gap surface drawn) drawn surface
half_gap-IsCentred surface drawn h = ground arith

-- On a visible surface, whose edges are `u32`, `Fit` draws the whole desktop: it never leaves the
-- surface, reaches both edges in one direction at least, is not empty, and is centred in both
-- directions.
pub placement_fit :
    (v : Viewport)
    → IsVisible v
    → v.mode ≡ fit
    → let p = placement v in
      (0 < p.width)
      × (0 < p.height)
      × ((p.width ≡ v.surface_width) ⊎ (p.height ≡ v.surface_height))
      × IsCentred p.x p.width v.surface_width
      × IsCentred p.y p.height v.surface_height
unfolding placement
placement_fit v s m =
    let (wide, high, reaches, some_wide, some_high) = fit_size v s in
    rw (shown v s, placement)
      (rw m (
        some_wide,
        some_high,
        reaches,
        half_gap-IsCentred v.surface_width (drawn_size v fit).0 wide,
        half_gap-IsCentred v.surface_height (drawn_size v fit).1 high,
      ))

fill_crop_size :
    (v : Viewport)
    → IsVisible v
    → v.screen_width * v.surface_height / v.screen_height < u32_mod
    → v.screen_height * v.surface_width / v.screen_width < u32_mod
    → (v.surface_width ≤ (drawn_size v fill_crop).0)
      × (v.surface_height ≤ (drawn_size v fill_crop).1)
      × (((drawn_size v fill_crop).0 ≡ v.surface_width)
          ⊎ ((drawn_size v fill_crop).1 ≡ v.surface_height))
unfolding drawn_size
fill_crop_size v s small small' = elim (Bool-cases (ltb (by_width v) (by_height v))) [
  | inl tall ↦
      let q : v.surface_width ≤ v.screen_width * v.surface_height / v.screen_height =
        (le-div_iff_mul-le s.screen_high).1 (
          omega (
            arith,
            ltb→lt (by_width v) (by_height v) tall,
            mul_comm v.surface_height v.screen_width,
          )) in
      rw tall (cut_above _ _ q small, omega arith, inr refl)
  | inr wide ↦
      let q : v.surface_height ≤ v.screen_height * v.surface_width / v.screen_width =
        (le-div_iff_mul-le s.screen_wide).1 (
          omega (
            arith,
            ltb→le (by_width v) (by_height v) wide,
            mul_comm v.surface_width v.screen_height,
          )) in
      rw wide (omega arith, cut_above _ _ q small', inl refl)
]

-- On a visible surface, while both scaled edges, the desktop's width at the height of the surface
-- and its height at the width of the surface, fit in 32 bits, `FillCrop` covers the surface: no edge
-- of the desktop is inside it, and in one direction the desktop is exactly as large.
pub placement_fill_crop :
    (v : Viewport)
    → IsVisible v
    → v.mode ≡ fill_crop
    → v.screen_width * v.surface_height / v.screen_height < u32_mod
    → v.screen_height * v.surface_width / v.screen_width < u32_mod
    → let p = placement v in
      (pos_part p.x ≡ 0)
      × (v.surface_width + neg_part p.x ≤ p.width)
      × (pos_part p.y ≡ 0)
      × (v.surface_height + neg_part p.y ≤ p.height)
      × ((p.width ≡ v.surface_width) ⊎ (p.height ≡ v.surface_height))
unfolding placement
placement_fill_crop v s m small small' =
    let (wide, high, reaches) = fill_crop_size v s small small' in
    let (x, right) = half_gap_covers v.surface_width (drawn_size v fill_crop).0 wide in
    let (y, bottom) = half_gap_covers v.surface_height (drawn_size v fill_crop).1 high in
    rw (shown v s, placement) (rw m (x, right, y, bottom, reaches))
