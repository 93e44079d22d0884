-- ===== src/Awt/Frame/Wire.antt =====
-- The frame wire format of launch/awt.rs, both ways.
use mathlib.Core.Path.{subst}
use rc_launcher.Base.{
  ℕ, ◌≤◌, ◌<◌, ◌≡◌, refl, ok-injective, true, false, List, length, ok, err, ◌>>=◌, Option-cases,
  inl, inr, arith,
}
use rc_launcher.Error.{RcResult}
use rc_launcher.Awt.Bytes.{u16_at}
use rc_launcher.Awt.Rect.{Rect, is_empty, area, fits_in, max_canvas_dim}
use rc_launcher.Awt.Frame.{
  AwtFrame, PixelFormat, partial, decode, decode_payload, read_frame, from_code, with_format,
}

-- What the checks of the constructors give, and the ranges of the `u32` values.
pub record IsValid (f : AwtFrame) : Type 0 where
  pub wide : (0 < f.width) × (f.width ≤ max_canvas_dim)
  pub high : (0 < f.height) × (f.height ≤ max_canvas_dim)
  pub damaged : is_empty f.damage ≡ false
  pub inside : fits_in f.damage f.width f.height ≡ true
  pub packed : length f.pixels ≡ area f.damage

partial-IsValid :
    (seq width height : ℕ) (damage : Rect) (pixels : List ℕ) {f : AwtFrame}
    → partial seq width height damage pixels ≡ ok f
    → IsValid f
unfolding partial
partial-IsValid seq width height damage pixels h = ground arith

with_format-IsValid :
    (f : AwtFrame) (format : PixelFormat) → IsValid f → IsValid (with_format f format)
with_format-IsValid f format v = record {
  wide = v.wide;
  high = v.high;
  damaged = v.damaged;
  inside = v.inside;
  packed = v.packed;
}

rebuilt-IsValid :
    (r : RcResult AwtFrame) (format : PixelFormat) {f : AwtFrame}
    → ((g : AwtFrame) → r ≡ ok g → IsValid g)
    → (r >>= λ g. ok (with_format g format)) ≡ ok f
    → IsValid f
rebuilt-IsValid (ok g) format v h =
    subst IsValid (ok-injective h) (with_format-IsValid g format (v g refl))
rebuilt-IsValid (err e) format v h = absurd (cc)

read_frame-IsValid : (bytes : List ℕ) (f : AwtFrame) → read_frame bytes ≡ ok f → IsValid f
unfolding read_frame
read_frame-IsValid bytes f h = partial-IsValid _ _ _ _ _ h

decode_payload-IsValid :
    (bytes : List ℕ) (format : PixelFormat) {f : AwtFrame}
    → decode_payload bytes format ≡ ok f
    → IsValid f
unfolding decode_payload
decode_payload-IsValid bytes format h =
    rebuilt-IsValid (read_frame bytes) format (read_frame-IsValid bytes) (ground arith)

-- Whatever the bytes are, a frame that is decoded passes every check that the canvas relies on: a
-- screen of a legal size, a damage rectangle that is not empty and lies inside it, and one pixel
-- for each of the rectangle's.
pub decode-IsValid : (bytes : List ℕ) (f : AwtFrame) → decode bytes ≡ ok f → IsValid f
unfolding decode
decode-IsValid bytes f h = elim (Option-cases (from_code (u16_at bytes 6))) [
  | inl e ↦ absurd (ground arith)
  | inr (format, e) ↦ decode_payload-IsValid bytes format (ground arith)
]
