-- ===== src/Awt/Canvas/Buffers.antt =====
-- The invariant of the canvas of launch/awt.rs, and what its methods promise the two sides.
use native.Mathlib.Nat.{mul-le-mul_right, mul_comm}
use rc_launcher.Base.{
  ℕ, suc, ◌+◌, ◌*◌, ◌≤◌, ◌<◌, ◌≡◌, sym, ◌∙◌, true, false, ◌⊎◌, inl, inr, none, some, length,
  get_elem?, ok, Bool-cases, arith,
}
use rc_launcher.Awt.Rect.{
  Rect, Damage, is_empty, area, fits_in, max_canvas_dim, u32_max, no_rect, add_damage, damaged,
  is_clean, whole,
}
use rc_launcher.Awt.Rect.Cover.{
  Covers, Covers-union, fits_in_edges, fits_in-union, Misses-of_not, dec-Covers, Covers-not-Misses,
}
use rc_launcher.Awt.Frame.{AwtFrame}
use rc_launcher.Awt.Canvas.{AwtCanvas, blit, submit, publish}
use rc_launcher.Awt.Canvas.Cells.{
  blit_outside, publish_inside, publish_outside, length-blit, length-publish,
}

-- Sizes in range, both buffers full, both damages inside, and the buffers differing in pending
-- pixels only.
pub record IsValid (c : AwtCanvas) : Type 0 where
  pub wide : (0 < c.width) × (c.width ≤ max_canvas_dim)
  pub high : (0 < c.height) × (c.height ≤ max_canvas_dim)
  pub back_sized : length c.back ≡ c.width * c.height
  pub front_sized : length c.front ≡ c.width * c.height
  pub pending_fits : fits_in c.pending.area_of c.width c.height ≡ true
  pub dirty_fits : fits_in c.dirty.area_of c.width c.height ≡ true
  pub agree :
      (px py : ℕ)
      → px < c.width
      → py < c.height
      → ¬ Covers c.pending.area_of px py
      → get_elem? c.back (py * c.width + px) ≡ get_elem? c.front (py * c.width + px)

-- Every pixel of the screen is a cell of a full buffer.
pub cell-lt-size :
    (px py width height : ℕ) → px < width → py < height → py * width + px < width * height
cell-lt-size px py width height h k =
    let m : suc py * width ≤ height * width = mul-le-mul_right width k in
    omega (arith, mul_comm width height)

pub fits_in-no_rect : (width height : ℕ) → fits_in no_rect width height ≡ true
unfolding fits_in
fits_in-no_rect width height = ground arith

pub fits_in-whole : (width height : ℕ) → fits_in (whole width height) width height ≡ true
unfolding fits_in
fits_in-whole width height = ground arith

pub damaged-cases :
    (d : Damage)
    → ((damaged d ≡ none) × (is_empty d.area_of ≡ true))
      ⊎ ((damaged d ≡ some d.area_of) × (is_empty d.area_of ≡ false))
unfolding damaged is_clean
damaged-cases d = elim (Bool-cases (is_empty d.area_of)) [
  | inl e ↦ inl (rw e, e)
  | inr e ↦ inr (rw e, e)
]

-- What the checks of `submit` give.
pub record Accepted (c : AwtCanvas) (f : AwtFrame) : Type 0 where
  pub same_width : f.width ≡ c.width
  pub same_height : f.height ≡ c.height
  pub packed : length f.pixels ≡ area f.damage
  pub damaged : is_empty f.damage ≡ false
  pub inside : fits_in f.damage c.width c.height ≡ true

pub submit-eq-ok :
    (c : AwtCanvas) (f : AwtFrame) {c' : AwtCanvas}
    → submit c f ≡ ok c'
    → Accepted c f × (blit c f ≡ c')
unfolding submit
submit-eq-ok c f h = (ground arith, ground arith)

module _ {c : AwtCanvas} (v : IsValid c) where
  -- The pixel is in the range that rectangles describe.
  pub in_u32 : (px py : ℕ) → px < c.width → py < c.height → (px < u32_max) × (py < u32_max)
  in_u32 px py h k = (omega (arith, v.wide), omega (arith, v.high))

  pub in_back : (px py : ℕ) → px < c.width → py < c.height → py * c.width + px < length c.back
  in_back px py h k = rw v.back_sized (cell-lt-size px py c.width c.height h k)

  pub in_front : (px py : ℕ) → px < c.width → py < c.height → py * c.width + px < length c.front
  in_front px py h k = rw v.front_sized (cell-lt-size px py c.width c.height h k)

  -- The edges of a rectangle that fits the screen.
  pub edges :
      (r : Rect)
      → fits_in r c.width c.height ≡ true
      → (r.x + r.width ≤ c.width) × (r.y + r.height ≤ c.height)
  edges r fits =
      fits_in_edges r c.width c.height (omega (arith, v.wide)) (omega (arith, v.high)) fits

  module _ (f : AwtFrame) (a : Accepted c f) where
    pub blit_miss :
        (px py : ℕ)
        → px < c.width
        → py < c.height
        → ¬ Covers f.damage px py
        → get_elem? (blit c f).back (py * c.width + px) ≡ get_elem? c.back (py * c.width + px)
    blit_miss px py h k n =
        let (p, q) = in_u32 px py h k in
        blit_outside c f a.packed (edges f.damage a.inside).0 px py h
          (Misses-of_not f.damage px py p q n)

    pub blit-IsValid : IsValid (blit c f)
    unfolding blit add_damage
    blit-IsValid = record {
      wide = v.wide;
      high = v.high;
      back_sized = length-blit c f ∙ v.back_sized;
      front_sized = v.front_sized;
      pending_fits =
          fits_in-union c.pending.area_of f.damage c.width c.height v.pending_fits a.inside;
      dirty_fits = v.dirty_fits;
      agree = λ px py h k n.
          blit_miss px py h k (λ m. n (Covers-union c.pending.area_of f.damage px py (inr m)))
          ∙ v.agree px py h k (λ m. n (Covers-union c.pending.area_of f.damage px py (inl m)));
    }

  module _ (now : ℕ) (rect : Rect) (pending : c.pending.area_of ≡ rect) where
    pub rect_fits : fits_in rect c.width c.height ≡ true
    rect_fits = rw pending at v.pending_fits

    pub publish_cell :
        (px py : ℕ)
        → px < c.width
        → py < c.height
        → get_elem? (publish c now rect).front (py * c.width + px)
          ≡ get_elem? c.back (py * c.width + px)
    publish_cell px py h k =
        let (w, l) = edges rect rect_fits in
        let (p, q) = in_u32 px py h k in
        elim (dec-Covers rect px py p q) [
          | inl covers ↦
              publish_inside c now rect w l v.back_sized px py h covers (in_front px py h k)
          | inr misses ↦
              publish_outside c now rect w l v.back_sized px py h misses
              ∙ sym (v.agree px py h k (λ m. Covers-not-Misses rect px py (rw pending at m) misses))
        ]

    pub publish-IsValid : IsValid (publish c now rect)
    unfolding publish add_damage
    publish-IsValid = record {
      wide = v.wide;
      high = v.high;
      back_sized = v.back_sized;
      front_sized = length-publish c now rect ∙ v.front_sized;
      pending_fits = fits_in-no_rect c.width c.height;
      dirty_fits = fits_in-union c.dirty.area_of rect c.width c.height v.dirty_fits rect_fits;
      agree = λ px py h k n. sym (publish_cell px py h k);
    }
