-- ===== src/Awt/Canvas.antt =====
-- `AwtCanvas` of launch/awt.rs: the double-buffered surface that the JVM side writes and the UI
-- reads. Pixels are ARGB `u32` values, row-major. A method that mutates the canvas returns the new
-- one; the time of a `present` is an argument, as in `present_at`.
pub mod Cells
pub mod Buffers
pub mod Steps
pub mod Pixels
use Prim.Native.Nat.{bit_or}
use rc_launcher.Base.{
  ℕ, zero, suc, ◌+◌, ◌*◌, ◌-◌, ◌/◌, ◌%◌, Bool, true, false, not, ◌&&◌, ◌||◌, Option, none, some, ok,
  err, ◌>>=◌, ◌>>◌, List, [], ◌∷◌, ◌++◌, length, map, drop, get_elem?, replicate, ltb, leb, ◌==◌,
  if◌then◌else◌,
}
use rc_launcher.Error.{RcError, RcResult, launch}
use rc_launcher.Awt.Rect.{
  Rect, Damage, whole, is_empty, area, fits_in, clamp_to, no_damage, full_damage, add_damage,
  is_clean, damaged, take_damage,
}
use rc_launcher.Awt.Rows.{slice, write_rows}
use rc_launcher.Awt.Frame.{AwtFrame, PixelFormat, int_argb, int_rgb, refuse, validate_dims}

pub record CanvasStats : Type 0 where
  pub frames_submitted : ℕ
  pub frames_presented : ℕ
  pub frames_dropped : ℕ
  pub bytes_blitted : ℕ
  pub resizes : ℕ
  pub last_seq : ℕ
  pub last_present_ms : ℕ

abbrev pub no_stats : CanvasStats
no_stats = record {
  frames_submitted = 0;
  frames_presented = 0;
  frames_dropped = 0;
  bytes_blitted = 0;
  resizes = 0;
  last_seq = 0;
  last_present_ms = 0;
}

abbrev pub fps_window : ℕ
fps_window = 60

abbrev pub opaque_black : ℕ
opaque_black = 0xFF000000

pub record AwtCanvas : Type 0 where
  pub width : ℕ
  pub height : ℕ
  pub back : List ℕ
  pub front : List ℕ
  pub pending : Damage
  pub dirty : Damage
  pub stats : CanvasStats
  pub present_times : List ℕ

unfoldable pub new : ℕ → ℕ → RcResult AwtCanvas
new width height = do
  validate_dims width height
  ok (record {
    width = width;
    height = height;
    back = replicate (width * height) opaque_black;
    front = replicate (width * height) opaque_black;
    pending = no_damage;
    dirty = full_damage width height;
    stats = no_stats;
    present_times = [];
  })

unfoldable pub rgba_len : AwtCanvas → ℕ
rgba_len c = c.width * c.height * 4

-- The canvas of a resize that changes the size.
abbrev pub resized : AwtCanvas → ℕ → ℕ → AwtCanvas
resized c width height = record c {
  width = width;
  height = height;
  back = replicate (width * height) opaque_black;
  front = replicate (width * height) opaque_black;
  pending = no_damage;
  dirty = full_damage width height;
  stats = record c.stats { resizes = c.stats.resizes + 1 };
}

unfoldable pub resize : AwtCanvas → ℕ → ℕ → RcResult AwtCanvas
resize c width height = do
  validate_dims width height
  if width == c.width && height == c.height then ok c else ok (resized c width height)

-- A source row as it is written: made opaque where the format has no alpha, else copied.
unfoldable pub show_row : PixelFormat → List ℕ → List ℕ
show_row int_rgb src = map (λ s. bit_or s opaque_black) src
show_row int_argb src = src

unfoldable pub source_row : AwtFrame → ℕ → List ℕ
source_row f row = show_row f.format (slice f.pixels (row * f.damage.width) f.damage.width)

-- What `submit` does to the canvas when it accepts the frame.
unfoldable pub blit : AwtCanvas → AwtFrame → AwtCanvas
blit c f = record c {
  back = write_rows (source_row f) c.width f.damage.x f.damage.y f.damage.height 0 c.back;
  pending = add_damage c.pending f.damage;
  stats = record c.stats {
    frames_submitted = c.stats.frames_submitted + 1;
    bytes_blitted = c.stats.bytes_blitted + area f.damage * 4;
    last_seq = f.seq;
  };
}

unfoldable pub submit : AwtCanvas → AwtFrame → RcResult AwtCanvas
submit c f = do
  refuse (not (f.width == c.width && f.height == c.height)) (launch "AWT frame of another size")
  refuse (not (length f.pixels == area f.damage)) (launch "AWT frame payload has the wrong length")
  refuse (is_empty f.damage || not (fits_in f.damage c.width c.height))
      (launch "AWT frame damage is not inside the canvas")
  ok (blit c f)

-- The push into the window of present times.
abbrev pub push_time : List ℕ → ℕ → List ℕ
push_time times now = (if length times == fps_window then drop 1 times else times) ++ now ∷ []

-- What `present_at` does when `rect` was pending.
unfoldable pub publish : AwtCanvas → ℕ → Rect → AwtCanvas
publish c now rect = record c {
  front =
      write_rows (λ row. slice c.back ((rect.y + row) * c.width + rect.x) rect.width) c.width rect.x
        rect.y rect.height 0 c.front;
  pending = no_damage;
  dirty = add_damage c.dirty rect;
  stats = record c.stats {
    frames_presented = c.stats.frames_presented + 1;
    frames_dropped = c.stats.frames_dropped + (if is_clean c.dirty then 0 else 1);
    last_present_ms = now;
  };
  present_times = push_time c.present_times now;
}

-- `self.pending.take()?` empties the pending damage in both cases.
unfoldable pub present_at : AwtCanvas → ℕ → AwtCanvas × Option Rect
present_at c now = elim ((take_damage c.pending).0) [
  | none ↦ (record c { pending = no_damage }, none)
  | some rect ↦ (publish c now rect, some rect)
]

unfoldable pub take_dirty : AwtCanvas → AwtCanvas × Option Rect
take_dirty c = (record c { dirty = (take_damage c.dirty).1 }, (take_damage c.dirty).0)

unfoldable pub pixel : AwtCanvas → ℕ → ℕ → Option ℕ
pixel c px py =
    if leb c.width px || leb c.height py then none else get_elem? c.front (py * c.width + px)

-- The four bytes of a pixel, R, G, B, A.
abbrev pub rgba : ℕ → List ℕ
rgba px = px / 65536 % 256 ∷ px / 256 % 256 ∷ px % 256 ∷ px / 16777216 % 256 ∷ []

abbrev pub rgba_row : List ℕ → List ℕ
rgba_row [] = []
rgba_row (px ∷ row) = rgba px ++ rgba_row row

-- The framebuffer's new contents, and the number of bytes that were rewritten.
unfoldable pub copy_region_into_framebuffer : AwtCanvas → Rect → List ℕ → RcResult (List ℕ × ℕ)
copy_region_into_framebuffer c rect₀ dst =
    let rect = clamp_to rect₀ c.width c.height in
    if is_empty rect
    then ok (dst, 0)
    else if ltb (length dst) (rgba_len c)
    then err (launch "RGBA framebuffer too small")
    else ok (
      write_rows (λ row. rgba_row (slice c.front ((rect.y + row) * c.width + rect.x) rect.width))
          (c.width * 4) (rect.x * 4) rect.y rect.height 0 dst,
      area rect * 4,
    )

unfoldable pub fill : AwtCanvas → ℕ → AwtCanvas
fill c argb =
    let back = map (λ _. argb) c.back in
    record c {
      back = back;
      front = back;
      pending = no_damage;
      dirty = full_damage c.width c.height;
    }
