-- ===== src/Awt/Poll/Coherence.antt =====
-- The framebuffer behind the UI's bitmap follows the front buffer (launch/fakefx.rs, launch/awt.rs).
use native.Mathlib.Nat.{mul_comm}
use rc_launcher.Base.{
  ℕ, zero, suc, ◌+◌, ◌*◌, ◌-◌, ◌≤◌, ◌<◌, ◌≡◌, refl, ap, ◌∙◌, true, false, Option, none, some, List,
  [], ◌∷◌, length, get_elem?, ok, arith, le→ltb,
}
use rc_launcher.Awt.Rect.{Rect, is_empty, area, right, bottom, fits_in, clamp_to}
use rc_launcher.Awt.Rect.Cover.{Covers, Misses, Covers-edges}
use rc_launcher.Awt.Rows.{slice, write_rows, write_rows_inside, write_rows_other, length-write_rows}
use rc_launcher.Awt.Canvas.{AwtCanvas, rgba, rgba_row, rgba_len, copy_region_into_framebuffer}
use rc_launcher.Awt.Canvas.Buffers.{IsValid, edges, cell-lt-size}
use rc_launcher.Awt.Canvas.Cells.{length-slice, get_elem?-slice, row-le}
use rc_launcher.Awt.Canvas.Pixels.{cell}

length-rgba_row : (row : List ℕ) → length (rgba_row row) ≡ length row * 4
length-rgba_row [] = refl
length-rgba_row (px ∷ row) = omega (arith, length-rgba_row row)

-- Byte `k` of a pixel in RGBA order.
abbrev pub byte_of : Option ℕ → ℕ → Option ℕ
byte_of none k = none
byte_of (some argb) k = get_elem? (rgba argb) k

-- Byte `k` of the pixel `i` of a converted row.
rgba_row_at :
    (row : List ℕ) (i k j : ℕ)
    → k < 4
    → j ≡ i * 4 + k
    → get_elem? (rgba_row row) j ≡ byte_of (get_elem? row i) k
rgba_row_at [] i k j h e = refl
rgba_row_at (px ∷ row) zero zero zero h e = refl
rgba_row_at (px ∷ row) zero (suc zero) (suc zero) h e = refl
rgba_row_at (px ∷ row) zero (suc (suc zero)) (suc (suc zero)) h e = refl
rgba_row_at (px ∷ row) zero (suc (suc (suc zero))) (suc (suc (suc zero))) h e = refl
rgba_row_at (px ∷ row) (suc i) k (suc (suc (suc (suc j)))) h e =
    rgba_row_at row i k j h (omega arith)
rgba_row_at (px ∷ row) _ _ _ h e = absurd (omega arith)

-- A rectangle inside the screen is not clipped.
pub clamp_to_of_fits :
    (r : Rect) (width height : ℕ)
    → is_empty r ≡ false
    → r.x + r.width ≤ width
    → r.y + r.height ≤ height
    → width ≤ 8192
    → height ≤ 8192
    → clamp_to r width height ≡ r
unfolding clamp_to is_empty
clamp_to_of_fits r width height e w h k l = ground arith

-- The framebuffer shows the canvas's pixel at this position: four bytes, R, G, B, A.
abbrev pub ShowsPixel : AwtCanvas → List ℕ → ℕ → ℕ → Type 0
ShowsPixel c fb px py =
    (k : ℕ)
    → k < 4
    → get_elem? fb (py * (c.width * 4) + (px * 4 + k)) ≡ byte_of (cell c c.front px py) k

-- Every pixel outside the published damage is shown.
abbrev pub InStep : AwtCanvas → List ℕ → Type 0
InStep c fb =
    (px py : ℕ)
    → px < c.width
    → py < c.height
    → ¬ Covers c.dirty.area_of px py
    → ShowsPixel c fb px py

-- The converted row of a rectangle, as the copy reads it.
abbrev pub converted : AwtCanvas → Rect → ℕ → List ℕ
converted c rect row = rgba_row (slice c.front ((rect.y + row) * c.width + rect.x) rect.width)

-- What the copy of a rectangle inside the screen writes.
abbrev pub written : AwtCanvas → Rect → List ℕ → List ℕ
written c rect dst =
    write_rows (converted c rect) (c.width * 4) (rect.x * 4) rect.y rect.height 0 dst

module _ {c : AwtCanvas} (v : IsValid c) (rect : Rect) (fits : fits_in rect c.width c.height ≡ true)
    (dst : List ℕ) (room : rgba_len c ≤ length dst) where
  pub copy_in_full :
      is_empty rect ≡ false
      → copy_region_into_framebuffer c rect dst ≡ ok (written c rect dst, area rect * 4)
  unfolding copy_region_into_framebuffer
  copy_in_full full =
      let (w, h) = edges v rect fits in
      rw (clamp_to_of_fits rect c.width c.height full w h v.wide.1 v.high.1)
        (rw full (rw (le→ltb (length dst) (rgba_len c) room)))

  length-converted : (row : ℕ) → row < rect.height → length (converted c rect row) ≡ rect.width * 4
  length-converted row h =
      let (w, l) = edges v rect fits in
      length-rgba_row (slice c.front ((rect.y + row) * c.width + rect.x) rect.width)
      ∙ ap (λ (n : ℕ). n * 4)
          (length-slice c.front ((rect.y + row) * c.width + rect.x) rect.width (
            omega (
              arith,
              v.front_sized,
              row-le (rect.y + row) c.height c.width (omega arith),
              mul_comm c.width c.height,
            )))

  module _ (px py : ℕ) (column : px < c.width) (line : py < c.height) (k : ℕ) (small : k < 4) where
    in_room : py * (c.width * 4) + (px * 4 + k) < length dst
    unfolding rgba_len
    in_room =
        let m = cell-lt-size px py c.width c.height column line in
        let e : py * (c.width * 4) ≡ py * c.width * 4 = grind arith in omega (arith, room)

    pub written_inside :
        Covers rect px py
        → get_elem? (written c rect dst) (py * (c.width * 4) + (px * 4 + k))
          ≡ byte_of (cell c c.front px py) k
    written_inside covers =
        let (w, l) = edges v rect fits in
        let (left, right, top, bottom) = Covers-edges rect px py covers in
        let e : rect.y + (py - rect.y) ≡ py = omega arith in
        let f : (rect.y + (py - rect.y)) * c.width ≡ py * c.width = ap (λ (t : ℕ). t * c.width) e in
        write_rows_inside (converted c rect) (c.width * 4) (rect.x * 4) rect.y (rect.width * 4)
          (omega arith) (px * 4 + k) py (omega arith) rect.height 0 dst
          (λ r _ b. length-converted r (omega arith)) (omega arith) (omega arith) (omega arith)
          (omega arith) in_room
        ∙ rgba_row_at (slice c.front ((rect.y + (py - rect.y)) * c.width + rect.x) rect.width)
            (px - rect.x) k (px * 4 + k - rect.x * 4) small (omega arith)
        ∙ ap (λ (o : Option ℕ). byte_of o k)
            (get_elem?-slice c.front ((rect.y + (py - rect.y)) * c.width + rect.x) rect.width
                (px - rect.x) (omega arith)
              ∙ ap (get_elem? c.front) (omega arith))

    pub written_outside :
        Misses rect px py
        → get_elem? (written c rect dst) (py * (c.width * 4) + (px * 4 + k))
          ≡ get_elem? dst (py * (c.width * 4) + (px * 4 + k))
    written_outside misses =
        let (w, l) = edges v rect fits in
        write_rows_other (converted c rect) (c.width * 4) (rect.x * 4) rect.y (rect.width * 4)
          (omega arith) (px * 4 + k) py (omega arith) rect.height 0 dst
          (λ r _ b. length-converted r (omega arith)) (omega arith)

pub length-written :
    (c : AwtCanvas) (rect : Rect) (dst : List ℕ) → length (written c rect dst) ≡ length dst
length-written c rect dst =
    length-write_rows (converted c rect) (c.width * 4) (rect.x * 4) rect.y 0 rect.height 0 dst
