-- ===== src/Awt/Rect/Cover.antt =====
-- Rectangles as sets of pixels.
use native.Mathlib.Decide.{dec_lt}
use rc_launcher.Base.{ℕ, ◌+◌, ◌≤◌, ◌<◌, ◌≡◌, ◌↔◌, ◌⊎◌, ◌+◌, inl, inr, true, false, arith}
use rc_launcher.Awt.Rect.{
  whole, Rect, is_empty, right, bottom, union, intersect, clamp_to, fits_in, u32_max,
}

-- The pixel at column `px` and row `py` lies in the rectangle, up to the saturated edges.
pub record Covers (r : Rect) (px py : ℕ) : Type 0 where
  pub left_of : r.x ≤ px
  pub right_of : px < right r
  pub above : r.y ≤ py
  pub below : py < bottom r

pub Covers-is_empty : (r : Rect) (px py : ℕ) → Covers r px py → is_empty r ≡ false
unfolding is_empty right bottom
Covers-is_empty r px py c = ground arith

-- A pixel lies in the intersection exactly if it lies in both rectangles.
pub Covers-intersect :
    (a b : Rect) (px py : ℕ) → Covers (intersect a b) px py ↔ (Covers a px py × Covers b px py)
unfolding intersect
Covers-intersect a b px py = (λ c. (ground arith, ground arith), λ c. ground arith)

-- A pixel of either rectangle lies in the union.
pub Covers-union :
    (a b : Rect) (px py : ℕ) → Covers a px py ⊎ Covers b px py → Covers (union a b) px py
unfolding union
Covers-union a b px py c = ground arith

-- `inner` lies within the edges of `outer`.
pub record Within (inner outer : Rect) : Type 0 where
  pub from_left : outer.x ≤ inner.x
  pub to_right : right inner ≤ right outer
  pub from_top : outer.y ≤ inner.y
  pub to_bottom : bottom inner ≤ bottom outer

-- The union of two rectangles that are not empty is within every rectangle that has both within
-- its edges: no smaller bounding box covers them.
pub Within-union :
    (a b outer : Rect)
    → is_empty a ≡ false
    → is_empty b ≡ false
    → Within a outer
    → Within b outer
    → Within (union a b) outer
unfolding union
Within-union a b outer ha hb wa wb = ground arith

-- On a surface with `u32` edges a clipped rectangle fits, whatever its position was.
pub fits_in-clamp_to :
    (r : Rect) (width height : ℕ)
    → width ≤ u32_max
    → height ≤ u32_max
    → fits_in (clamp_to r width height) width height ≡ true
unfolding fits_in clamp_to
fits_in-clamp_to r width height h k = ground arith

-- On a surface smaller than the range of `u32`, a rectangle that fits has its true edges inside
-- it: the saturated sums did not saturate.
pub fits_in_edges :
    (r : Rect) (width height : ℕ)
    → width < u32_max
    → height < u32_max
    → fits_in r width height ≡ true
    → (r.x + r.width ≤ width) × (r.y + r.height ≤ height)
unfolding fits_in
fits_in_edges r width height h k f = ground arith

pub fits_in-union :
    (a b : Rect) (width height : ℕ)
    → fits_in a width height ≡ true
    → fits_in b width height ≡ true
    → fits_in (union a b) width height ≡ true
unfolding fits_in union
fits_in-union a b width height h k = ground arith

-- The pixel is to the left, to the right, above or below.
abbrev pub Misses : Rect → ℕ → ℕ → Type 0
Misses r px py = (px < r.x) ⊎ (r.x + r.width ≤ px) ⊎ (py < r.y) ⊎ (r.y + r.height ≤ py)

pub Covers-edges :
    (r : Rect) (px py : ℕ)
    → Covers r px py
    → (r.x ≤ px) × (px < r.x + r.width) × (r.y ≤ py) × (py < r.y + r.height)
unfolding right bottom
Covers-edges r px py c = ground arith

pub Covers-of_edges :
    (r : Rect) (px py : ℕ)
    → px < u32_max
    → py < u32_max
    → r.x ≤ px
    → px < r.x + r.width
    → r.y ≤ py
    → py < r.y + r.height
    → Covers r px py
unfolding right bottom
Covers-of_edges r px py h k a b c d = ground arith

pub dec-Covers :
    (r : Rect) (px py : ℕ) → px < u32_max → py < u32_max → Covers r px py ⊎ Misses r px py
dec-Covers r px py h k = elim (dec_lt px r.x) [
  | yes a ↦ inr (inl a)
  | no a ↦ elim (dec_lt px (r.x + r.width)) [
    | no b ↦ inr (inr (inl (omega arith)))
    | yes b ↦ elim (dec_lt py r.y) [
      | yes d ↦ inr (inr (inr (inl d)))
      | no d ↦ elim (dec_lt py (r.y + r.height)) [
        | no e ↦ inr (inr (inr (inr (omega arith))))
        | yes e ↦ inl (Covers-of_edges r px py h k (omega arith) b (omega arith) e)
      ]
    ]
  ]
]

pub Covers-not-Misses : (r : Rect) (px py : ℕ) → Covers r px py → ¬ Misses r px py
Covers-not-Misses r px py c m = let e = Covers-edges r px py c in absurd (omega arith)

pub Misses-of_not :
    (r : Rect) (px py : ℕ) → px < u32_max → py < u32_max → ¬ Covers r px py → Misses r px py
Misses-of_not r px py h k n = elim (dec-Covers r px py h k) [ inl c ↦ absurd (n c) | inr m ↦ m ]

pub Covers-whole :
    (width height px py : ℕ)
    → width < u32_max
    → height < u32_max
    → px < width
    → py < height
    → Covers (whole width height) px py
unfolding right bottom
Covers-whole width height px py h k a b = ground arith
