-- ===== src/Awt/Event.antt =====
-- Input events of launch/awt.rs: the mouse buttons, the events of the user interface, and the
-- 32-byte records that the Java side reads. An `i32` is kept as its 32-bit pattern, in two's
-- complement, which is what `as i32` and the byte encoding see of it.
pub mod Codes
pub mod Batch
use rc_launcher.Base.{
  ℕ, zero, suc, ◌/◌, ◌%◌, Bool, true, false, not, Option, none, some, List, [], ◌∷◌, ◌++◌, length,
  take, drop, ok, ◌>>=◌, ◌>>◌, ltb, ◌==◌, if◌then◌else◌,
}
use rc_launcher.Error.{RcResult, launch}
use rc_launcher.Awt.Bytes.{u32_at, bytes_of}
use rc_launcher.Awt.Frame.{refuse}
use Codes.{
  button1_down, button2_down, button3_down, shift_down, ctrl_down, alt_down, meta_down, vk_shift,
  vk_control, vk_alt, vk_meta,
}

pub data MouseButton : Type 0 where
  left middle right : MouseButton

unfoldable pub number : MouseButton → ℕ
number left = 1
number middle = 2
number right = 3

unfoldable pub mask : MouseButton → ℕ
mask left = button1_down
mask middle = button2_down
mask right = button3_down

unfoldable pub from_number : ℕ → Option MouseButton
from_number n =
    if n == 1
    then some left
    else if n == 2
    then some middle
    else if n == 3
    then some right
    else none

unfoldable pub modifier_mask_for_vk : ℕ → Option ℕ
modifier_mask_for_vk code =
    if code == vk_shift
    then some shift_down
    else if code == vk_control
    then some ctrl_down
    else if code == vk_alt
    then some alt_down
    else if code == vk_meta
    then some meta_down
    else none

pub data AwtEvent : Type 0 where
  pointer_move : ℕ → ℕ → AwtEvent
  pointer_down pointer_up : ℕ → ℕ → MouseButton → AwtEvent
  scroll : ℕ → ℕ → ℕ → AwtEvent
  key_down key_up text : ℕ → AwtEvent
  focus : Bool → AwtEvent
  resize_event : ℕ → ℕ → AwtEvent

pub record AwtEventRecord : Type 0 where
  pub id : ℕ
  pub x : ℕ
  pub y : ℕ
  pub button : ℕ
  pub key_code : ℕ
  pub key_char : ℕ
  pub modifiers : ℕ
  pub wheel : ℕ

abbrev pub event_record_len : ℕ
event_record_len = 32

unfoldable pub encode_record : AwtEventRecord → List ℕ
encode_record r =
    bytes_of (r.id ∷ r.x ∷ r.y ∷ r.button ∷ r.key_code ∷ r.key_char ∷ r.modifiers ∷ r.wheel ∷ [])

unfoldable pub decode_record : List ℕ → RcResult AwtEventRecord
decode_record bytes = do
  refuse (ltb (length bytes) event_record_len) (launch "AWT event record truncated")
  ok (record {
    id = u32_at bytes 0;
    x = u32_at bytes 4;
    y = u32_at bytes 8;
    button = u32_at bytes 12;
    key_code = u32_at bytes 16;
    key_char = u32_at bytes 20;
    modifiers = u32_at bytes 24;
    wheel = u32_at bytes 28;
  })

unfoldable pub encode_batch : List AwtEventRecord → List ℕ
encode_batch [] = []
encode_batch (r ∷ rs) = encode_record r ++ encode_batch rs

-- The records of the first `n` pieces of 32 bytes.
unfoldable pub decode_pieces : ℕ → List ℕ → RcResult (List AwtEventRecord)
decode_pieces zero bytes = ok []
decode_pieces (suc n) bytes = do
  r ← decode_record (take event_record_len bytes)
  rs ← decode_pieces n (drop event_record_len bytes)
  ok (r ∷ rs)

unfoldable pub decode_batch : List ℕ → RcResult (List AwtEventRecord)
decode_batch bytes = do
  refuse (not (length bytes % event_record_len == 0)) (launch "AWT event batch of a bad length")
  decode_pieces (length bytes / event_record_len) bytes
