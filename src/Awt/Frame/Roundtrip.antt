-- ===== src/Awt/Frame/Roundtrip.antt =====
-- A frame of launch/awt.rs that is written and read back.
use native.Mathlib.Nat.{mul-le-mul}
use rc_launcher.Base.{
  ℕ, ◌+◌, ◌*◌, ◌≤◌, ◌<◌, ◌^◌, ◌≡◌, refl, sym, ap, some, List, [], ◌∷◌, ◌++◌, length, take, drop, ok,
  arith, length-append,
}
use rc_launcher.Awt.Bytes.{
  All, bytes_of, words_of, u16_at, u32_at, length-bytes_of, words_of-bytes_of,
}
use rc_launcher.Awt.Rect.{area}
use rc_launcher.Awt.Rect.Cover.{fits_in_edges}
use rc_launcher.Awt.Rows.{slice}
use rc_launcher.Awt.Frame.{
  AwtFrame, PixelFormat, int_argb, int_rgb, code, from_code, partial, encode, decode,
  decode_payload, read_frame, with_format, frame_magic, frame_version,
}
use rc_launcher.Awt.Frame.Wire.{IsValid}

take-append {ℓ} : {A : Type ℓ} (xs ys : List A) → take (length xs) (xs ++ ys) ≡ xs
take-append [] ys = refl
take-append (x ∷ xs) ys = ap (◌∷◌ x) (take-append xs ys)

take-length {ℓ} : {A : Type ℓ} (n : ℕ) (xs ys : List A) → n ≡ length xs → take n (xs ++ ys) ≡ xs
take-length n xs ys e = rw e (take-append xs ys)

-- The values of a frame are in the ranges of their `u32`s.
pub record InRange (f : AwtFrame) : Type 0 where
  pub seq : f.seq < 2 ^ 32
  pub pixels : All (λ w. w < 2 ^ 32) f.pixels

module _ (f : AwtFrame) (rest : List ℕ) where
  abbrev bytes : List ℕ
  bytes = encode f ++ rest

  width_at : f.width < 65536 → u16_at bytes 12 ≡ f.width
  unfolding encode
  width_at h = omega arith

  payload_at : drop 32 bytes ≡ bytes_of f.pixels ++ rest
  unfolding encode
  payload_at = refl

  length-bytes : length bytes ≡ 32 + length f.pixels * 4 + length rest
  unfolding encode
  length-bytes = omega (arith, length-append (bytes_of f.pixels) rest, length-bytes_of f.pixels)

  rect_at :
      IsValid f
      → (u16_at bytes 14 ≡ f.height)
        × (u16_at bytes 16 ≡ f.damage.x)
        × (u16_at bytes 18 ≡ f.damage.y)
        × (u16_at bytes 20 ≡ f.damage.width)
        × (u16_at bytes 22 ≡ f.damage.height)
  unfolding encode
  rect_at v =
      let high = v.high in
      let edges =
        fits_in_edges f.damage f.width f.height (omega (arith, v.wide)) (omega arith) v.inside in
      (omega arith, omega (arith, v.wide), omega arith, omega (arith, v.wide), omega arith)

  pixel_count : IsValid f → length f.pixels * 4 < 2 ^ 32
  unfolding area
  pixel_count v =
      let edges =
        fits_in_edges f.damage f.width f.height (omega (arith, v.wide)) (omega (arith, v.high))
          v.inside in
      let m : f.damage.width * f.damage.height ≤ 8192 * 8192 =
        mul-le-mul {n₂ = 8192} {m₂ = 8192} (omega (arith, v.wide)) (omega (arith, v.high)) in
      omega (arith, v.packed)

  payload_len_at : IsValid f → u32_at bytes 24 ≡ length f.pixels * 4
  unfolding encode
  payload_len_at v = let n = pixel_count v in omega arith

  seq_at : InRange f → u32_at bytes 8 ≡ f.seq
  unfolding encode
  seq_at r = let s = r.seq in omega arith

  words_at : IsValid f → InRange f → words_of (slice bytes 32 (u32_at bytes 24)) ≡ f.pixels
  words_at v r =
      rw (payload_len_at v, payload_at)
        (rw
          (take-length (length f.pixels * 4) (bytes_of f.pixels) rest
            (sym (length-bytes_of f.pixels)))
          (words_of-bytes_of f.pixels r.pixels))

-- The checks pass on a valid frame.
partial_of_valid :
    (f : AwtFrame)
    → IsValid f
    → partial f.seq f.width f.height f.damage f.pixels ≡ ok (with_format f int_argb)
unfolding partial
partial_of_valid f v = ground (arith, v.wide, v.high, v.damaged, v.inside, v.packed)

from_code-code : (p : PixelFormat) → from_code (code p) ≡ some p
unfolding from_code code
from_code-code int_argb = refl
from_code-code int_rgb = refl

code-lt : (p : PixelFormat) → code p < 2
unfolding code
code-lt int_argb = omega arith
code-lt int_rgb = omega arith

module _ (f : AwtFrame) (rest : List ℕ) where
  read_frame-bytes : IsValid f → InRange f → read_frame (bytes f rest) ≡ ok (with_format f int_argb)
  unfolding read_frame
  read_frame-bytes v r =
      let (h, x, y, w, k) = rect_at f rest v in
      rw (seq_at f rest r) (
        rw (width_at f rest (omega (arith, v.wide)))
          (rw (h, x, y, w, k) (rw (words_at f rest v r) (partial_of_valid f v))))

  decode_payload-bytes :
      IsValid f
      → InRange f
      → (p : PixelFormat) → decode_payload (bytes f rest) p ≡ ok (with_format f p)
  unfolding decode_payload
  decode_payload-bytes v r p =
      ground (arith, payload_len_at f rest v, length-bytes f rest, read_frame-bytes v r)

  fixed_at :
      (u32_at (bytes f rest) 0 ≡ frame_magic)
      × (u16_at (bytes f rest) 4 ≡ frame_version)
      × (from_code (u16_at (bytes f rest) 6) ≡ some f.format)
  unfolding encode
  fixed_at =
      let small = code-lt f.format in
      let e : u16_at (bytes f rest) 6 ≡ code f.format = omega arith in
      (refl, refl, rw e (from_code-code f.format))

  -- A valid frame, whose sequence number and pixels are 32-bit values, is read back from its
  -- encoding, whatever bytes follow it.
  pub decode-encode : IsValid f → InRange f → decode (encode f ++ rest) ≡ ok f
  unfolding decode
  decode-encode v r =
      let (magic, version, format) = fixed_at in
      ground (arith, magic, version, format, length-bytes f rest, decode_payload-bytes v r f.format)
