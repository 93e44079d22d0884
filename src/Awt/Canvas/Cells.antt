-- ===== src/Awt/Canvas/Cells.antt =====
-- The canvas of launch/awt.rs pixel by pixel: what a frame, a publish and a copy do to each cell.
use mathlib.Core.Option
use native.Mathlib.Nat.{mul-le-mul_right, mul_comm}
use rc_launcher.Base.{
  ℕ, zero, suc, ◌+◌, ◌*◌, ◌-◌, ◌≤◌, ◌<◌, ◌≡◌, refl, sym, ap, ◌∙◌, Option, none, some, List, [], ◌∷◌,
  length, map, get_elem?, drop, length-map, length-drop, length-take_of_le, get_elem?-take,
  get_elem?-drop, arith,
}
use Prim.Native.Nat.{bit_or}
use rc_launcher.Awt.Rect.{Rect, area}
use rc_launcher.Awt.Rect.Cover.{Covers, Misses, Covers-edges}
use rc_launcher.Awt.Rows.{slice, write_rows_other, write_rows_inside, length-write_rows}
use rc_launcher.Awt.Frame.{AwtFrame, PixelFormat, int_argb, int_rgb}
use rc_launcher.Awt.Canvas.{AwtCanvas, opaque_black, show_row, source_row, blit, publish}

module _ {ℓ} {A : Type ℓ} where
  pub length-slice :
      (buf : List A) (start count : ℕ)
      → start + count ≤ length buf
      → length (slice buf start count) ≡ count
  length-slice buf start count h =
      length-take_of_le count (drop start buf) (omega (arith, length-drop start buf))

  pub get_elem?-slice :
      (buf : List A) (start count i : ℕ)
      → i < count
      → get_elem? (slice buf start count) i ≡ get_elem? buf (start + i)
  get_elem?-slice buf start count i h =
      get_elem?-take count i (drop start buf) h ∙ get_elem?-drop start i buf

get_elem?-map {ℓ κ} :
    {A : Type ℓ} {B : Type κ} (f : A → B) (xs : List A) (i : ℕ)
    → get_elem? (map f xs) i ≡ Option.map f (get_elem? xs i)
get_elem?-map f [] i = refl
get_elem?-map f (x ∷ xs) zero = refl
get_elem?-map f (x ∷ xs) (suc i) = get_elem?-map f xs i

-- A whole row of a rectangle lies inside its packed pixels.
pub row-le : (row rows width : ℕ) → row < rows → row * width + width ≤ rows * width
row-le row rows width h =
    let m : suc row * width ≤ rows * width = mul-le-mul_right width h in omega arith

-- The pixel that a frame shows for a payload value.
unfoldable pub shown : PixelFormat → ℕ → ℕ
shown int_rgb s = bit_or s opaque_black
shown int_argb s = s

map-id_at {ℓ} : {A : Type ℓ} (o : Option A) → Option.map (λ (a : A). a) o ≡ o
map-id_at none = refl
map-id_at (some a) = refl

length-show_row : (p : PixelFormat) (src : List ℕ) → length (show_row p src) ≡ length src
unfolding show_row
length-show_row int_argb src = refl
length-show_row int_rgb src = length-map (λ s. bit_or s opaque_black) src

show_row_at :
    (p : PixelFormat) (src : List ℕ) (i : ℕ)
    → get_elem? (show_row p src) i ≡ Option.map (shown p) (get_elem? src i)
unfolding show_row shown
show_row_at int_argb src i = sym (map-id_at (get_elem? src i))
show_row_at int_rgb src i = get_elem?-map (λ s. bit_or s opaque_black) src i

length-source_row :
    (f : AwtFrame)
    → length f.pixels ≡ area f.damage
    → (row : ℕ) → row < f.damage.height
    → length (source_row f row) ≡ f.damage.width
unfolding source_row area
length-source_row f packed row h =
    length-show_row f.format (slice f.pixels (row * f.damage.width) f.damage.width)
    ∙ length-slice f.pixels (row * f.damage.width) f.damage.width
        (omega (arith, packed, row-le row f.damage.height f.damage.width h))

source_row_at :
    (f : AwtFrame) (row i : ℕ)
    → i < f.damage.width
    → get_elem? (source_row f row) i
      ≡ Option.map (shown f.format) (get_elem? f.pixels (row * f.damage.width + i))
unfolding source_row
source_row_at f row i h =
    show_row_at f.format (slice f.pixels (row * f.damage.width) f.damage.width) i
    ∙ ap (Option.map (shown f.format))
        (get_elem?-slice f.pixels (row * f.damage.width) f.damage.width i h)

module _ (c : AwtCanvas) (f : AwtFrame) (packed : length f.pixels ≡ area f.damage)
    (fits : f.damage.x + f.damage.width ≤ c.width) (px py : ℕ) (column : px < c.width) where
  -- Inside the damage the back buffer shows the frame's pixel.
  pub blit_inside :
      Covers f.damage px py
      → py * c.width + px < length c.back
      → get_elem? (blit c f).back (py * c.width + px)
        ≡ Option.map
            (shown f.format)
            (get_elem? f.pixels ((py - f.damage.y) * f.damage.width + (px - f.damage.x)))
  unfolding blit
  blit_inside covers inside =
      let (left, right, top, bottom) = Covers-edges f.damage px py covers in
      write_rows_inside (source_row f) c.width f.damage.x f.damage.y f.damage.width fits px py
        column f.damage.height 0 c.back (λ r _ k. length-source_row f packed r (omega arith)) left
        right (omega arith) (omega arith) inside
      ∙ source_row_at f (py - f.damage.y) (px - f.damage.x) (omega arith)

  -- Outside it nothing changes.
  pub blit_outside :
      Misses f.damage px py
      → get_elem? (blit c f).back (py * c.width + px) ≡ get_elem? c.back (py * c.width + px)
  unfolding blit
  blit_outside misses =
      write_rows_other (source_row f) c.width f.damage.x f.damage.y f.damage.width fits px py column
        f.damage.height 0 c.back (λ r _ k. length-source_row f packed r (omega arith)) (omega arith)

module _ (c : AwtCanvas) (now : ℕ) (rect : Rect) (fits : rect.x + rect.width ≤ c.width)
    (rows_fit : rect.y + rect.height ≤ c.height) (sized : length c.back ≡ c.width * c.height) where
  length-back_row :
      (row : ℕ)
      → row < rect.height
      → length (slice c.back ((rect.y + row) * c.width + rect.x) rect.width) ≡ rect.width
  length-back_row row h = length-slice c.back ((rect.y + row) * c.width + rect.x) rect.width (
      omega
        (arith, row-le (rect.y + row) c.height c.width (omega arith), mul_comm c.width c.height))

  module _ (px py : ℕ) (column : px < c.width) where
    -- Inside the published rectangle the front buffer shows what the back buffer holds.
    pub publish_inside :
        Covers rect px py
        → py * c.width + px < length c.front
        → get_elem? (publish c now rect).front (py * c.width + px)
          ≡ get_elem? c.back (py * c.width + px)
    unfolding publish
    publish_inside covers inside =
        let (left, right, top, bottom) = Covers-edges rect px py covers in
        let src = λ (row : ℕ). slice c.back ((rect.y + row) * c.width + rect.x) rect.width in
        let e : rect.y + (py - rect.y) ≡ py = omega arith in
        let f : (rect.y + (py - rect.y)) * c.width ≡ py * c.width = ap (λ (t : ℕ). t * c.width) e in
        write_rows_inside src c.width rect.x rect.y rect.width fits px py column rect.height 0
          c.front (λ r _ k. length-back_row r (omega arith)) left right (omega arith) (omega arith)
          inside
        ∙ get_elem?-slice c.back ((rect.y + (py - rect.y)) * c.width + rect.x) rect.width
            (px - rect.x) (omega arith)
        ∙ ap (get_elem? c.back) (omega arith)

    -- Outside it the front buffer is unchanged.
    pub publish_outside :
        Misses rect px py
        → get_elem? (publish c now rect).front (py * c.width + px)
          ≡ get_elem? c.front (py * c.width + px)
    unfolding publish
    publish_outside misses =
        write_rows_other (λ row. slice c.back ((rect.y + row) * c.width + rect.x) rect.width)
          c.width rect.x rect.y rect.width fits px py column rect.height 0 c.front
          (λ r _ k. length-back_row r (omega arith)) (omega arith)

pub length-blit : (c : AwtCanvas) (f : AwtFrame) → length (blit c f).back ≡ length c.back
unfolding blit
length-blit c f =
    length-write_rows (source_row f) c.width f.damage.x f.damage.y 0 f.damage.height 0 c.back

pub length-publish :
    (c : AwtCanvas) (now : ℕ) (rect : Rect) → length (publish c now rect).front ≡ length c.front
unfolding publish
length-publish c now rect =
    length-write_rows (λ row. slice c.back ((rect.y + row) * c.width + rect.x) rect.width) c.width
      rect.x rect.y 0 rect.height 0 c.front
