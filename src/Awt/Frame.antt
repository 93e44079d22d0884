-- ===== src/Awt/Frame.antt =====
-- `AwtFrame` of launch/awt.rs: one damaged rectangle of the desktop and its pixels, its checks, and
-- its wire format, a 32-byte little-endian header before the packed pixels.
pub mod Wire
pub mod Roundtrip
use rc_launcher.Base.{
  ℕ, zero, suc, ◌+◌, ◌*◌, ◌-◌, ◌%◌, ◌^◌, ◌≡◌, Bool, true, false, not, ◌&&◌, ◌||◌, Option, none,
  some, Result, ok, err, ◌>>=◌, ◌>>◌, List, [], ◌∷◌, ◌++◌, length, take, drop, ltb, leb, ◌==◌,
  if◌then◌else◌,
}
use rc_launcher.Error.{RcError, RcResult, launch}
use rc_launcher.Awt.Bytes.{le16, le32, u16_at, u32_at, bytes_of, words_of}
use rc_launcher.Awt.Rect.{Rect, whole, is_empty, area, fits_in, max_canvas_dim}
use rc_launcher.Awt.Rows.{slice}

pub data PixelFormat : Type 0 where
  int_argb int_rgb : PixelFormat

unfoldable pub code : PixelFormat → ℕ
code int_argb = 0
code int_rgb = 1

unfoldable pub from_code : ℕ → Option PixelFormat
from_code c = if c == 0 then some int_argb else if c == 1 then some int_rgb else none

abbrev pub frame_magic : ℕ
frame_magic = 0x52434146

abbrev pub frame_version : ℕ
frame_version = 1

abbrev pub frame_header_len : ℕ
frame_header_len = 32

pub record AwtFrame : Type 0 where
  pub seq : ℕ
  pub width : ℕ
  pub height : ℕ
  pub format : PixelFormat
  pub damage : Rect
  pub pixels : List ℕ

-- `if refused { return Err(…) }`
abbrev pub refuse : Bool → RcError → RcResult (Unit {0})
refuse true e = err e
refuse false e = ok tt

-- `Option::ok_or`
abbrev pub ok_or {ℓ} : {A : Type ℓ} → Option A → RcError → Result A RcError
ok_or none e = err e
ok_or (some a) e = ok a

unfoldable pub validate_dims : ℕ → ℕ → RcResult (Unit {0})
validate_dims width height = do
  refuse (width == 0 || height == 0) (launch "invalid AWT canvas size")
  refuse (ltb max_canvas_dim width || ltb max_canvas_dim height) (launch "AWT canvas too large")

unfoldable pub partial : ℕ → ℕ → ℕ → Rect → List ℕ → RcResult AwtFrame
unfolding validate_dims is_empty fits_in area
partial seq width height damage pixels = do
  validate_dims width height
  refuse (is_empty damage) (launch "AWT frame has an empty damage rectangle")
  refuse (not (fits_in damage width height)) (launch "AWT frame damage exceeds the screen")
  refuse (not (length pixels == area damage)) (launch "AWT frame payload has the wrong length")
  ok (record {
    seq = seq;
    width = width;
    height = height;
    format = int_argb;
    damage = damage;
    pixels = pixels;
  })

unfoldable pub full : ℕ → ℕ → ℕ → List ℕ → RcResult AwtFrame
unfolding partial
full seq width height pixels = partial seq width height (whole width height) pixels

abbrev pub with_format : AwtFrame → PixelFormat → AwtFrame
with_format f format = record f { format = format }

unfoldable pub is_full : AwtFrame → Bool
is_full f =
    f.damage.x == 0 && f.damage.y == 0 && f.damage.width == f.width && f.damage.height == f.height

-- The header: `as u16` and `as u32` keep the low bits.
unfoldable pub encode_header : AwtFrame → List ℕ
unfolding code is_full
encode_header f =
    le32 frame_magic
    ++ (le16 frame_version
        ++ (le16 (code f.format)
            ++ (le32 f.seq
                ++ (le16 (f.width % 65536)
                    ++ (le16 (f.height % 65536)
                        ++ (le16 (f.damage.x % 65536)
                            ++ (le16 (f.damage.y % 65536)
                                ++ (le16 (f.damage.width % 65536)
                                    ++ (le16 (f.damage.height % 65536)
                                        ++ (le32 (length f.pixels * 4 % 2 ^ 32)
                                            ++ le32 (if is_full f then 1 else 0)))))))))))

unfoldable pub encode : AwtFrame → List ℕ
unfolding encode_header
encode f = encode_header f ++ bytes_of f.pixels

-- The frame that the header's fields and the payload make, if it passes the checks.
unfoldable pub read_frame : List ℕ → RcResult AwtFrame
read_frame bytes =
    partial (u32_at bytes 8) (u16_at bytes 12) (u16_at bytes 14)
      (record {
        x = u16_at bytes 16;
        y = u16_at bytes 18;
        width = u16_at bytes 20;
        height = u16_at bytes 22;
      })
      (words_of (slice bytes frame_header_len (u32_at bytes 24)))

-- The rest of `decode`, once the header's fixed fields are checked. The flags at offset 28 are not
-- read.
unfoldable pub decode_payload : List ℕ → PixelFormat → RcResult AwtFrame
decode_payload bytes format = do
  refuse (ltb (length bytes - frame_header_len) (u32_at bytes 24)) (launch "AWT frame truncated")
  refuse (not (u32_at bytes 24 % 4 == 0)) (launch "AWT frame payload is not a multiple of 4")
  f ← read_frame bytes
  ok (with_format f format)

unfoldable pub decode : List ℕ → RcResult AwtFrame
unfolding from_code
decode bytes = do
  refuse (ltb (length bytes) frame_header_len) (launch "AWT frame truncated")
  refuse (not (u32_at bytes 0 == frame_magic)) (launch "AWT frame has bad magic")
  refuse (not (u16_at bytes 4 == frame_version)) (launch "unsupported AWT frame version")
  format ← ok_or (from_code (u16_at bytes 6)) (launch "unknown AWT frame pixel format")
  decode_payload bytes format
