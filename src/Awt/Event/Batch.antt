-- ===== src/Awt/Event/Batch.antt =====
-- The event records of launch/awt.rs, written and read back.
use native.Mathlib.Nat.{mul-div_cancel}
use rc_launcher.Base.{
  ℕ, ◌*◌, ◌/◌, ◌%◌, ◌^◌, ◌<◌, ◌≡◌, refl, List, [], ◌∷◌, ◌++◌, length, take, drop, ok, false, not,
  ◌==◌, arith,
}
use rc_launcher.Awt.Bytes.{All, u32-le32}
use rc_launcher.Awt.Event.{
  AwtEventRecord, encode_record, decode_record, encode_batch, decode_pieces, decode_batch,
}

-- Every field is a 32-bit pattern.
pub record IsRecord (r : AwtEventRecord) : Type 0 where
  pub id : r.id < 2 ^ 32
  pub x : r.x < 2 ^ 32
  pub y : r.y < 2 ^ 32
  pub button : r.button < 2 ^ 32
  pub key_code : r.key_code < 2 ^ 32
  pub key_char : r.key_char < 2 ^ 32
  pub modifiers : r.modifiers < 2 ^ 32
  pub wheel : r.wheel < 2 ^ 32

decode_record-encode_record :
    (r : AwtEventRecord) → IsRecord r → decode_record (encode_record r) ≡ ok r
unfolding decode_record encode_record
decode_record-encode_record r h = rw (
  u32-le32 r.id h.id,
  u32-le32 r.x h.x,
  u32-le32 r.y h.y,
  u32-le32 r.button h.button,
  u32-le32 r.key_code h.key_code,
  u32-le32 r.key_char h.key_char,
  u32-le32 r.modifiers h.modifiers,
  u32-le32 r.wheel h.wheel,
)

take_record :
    (r : AwtEventRecord) (rest : List ℕ) → take 32 (encode_record r ++ rest) ≡ encode_record r
unfolding encode_record
take_record r rest = refl

drop_record : (r : AwtEventRecord) (rest : List ℕ) → drop 32 (encode_record r ++ rest) ≡ rest
unfolding encode_record
drop_record r rest = refl

length-encode_batch : (rs : List AwtEventRecord) → length (encode_batch rs) ≡ length rs * 32
unfolding encode_batch encode_record
length-encode_batch [] = refl
length-encode_batch (r ∷ rs) = omega (arith, length-encode_batch rs)

decode_pieces-encode_batch :
    (rs : List AwtEventRecord)
    → All IsRecord rs
    → decode_pieces (length rs) (encode_batch rs) ≡ ok rs
unfolding decode_pieces encode_batch
decode_pieces-encode_batch [] h = refl
decode_pieces-encode_batch (r ∷ rs) h =
    rw (take_record r (encode_batch rs), drop_record r (encode_batch rs))
      (rw (decode_record-encode_record r h.0, decode_pieces-encode_batch rs h.1))

-- A batch of records whose fields are 32-bit values is read back from its bytes, 32 for each
-- record.
pub decode_batch-encode_batch :
    (rs : List AwtEventRecord)
    → All IsRecord rs
    → (length (encode_batch rs) ≡ 32 * length rs) × (decode_batch (encode_batch rs) ≡ ok rs)
unfolding decode_batch
decode_batch-encode_batch rs h =
    let e = length-encode_batch rs in
    let q : (not (length rs * 32 % 32 == 0)) ≡ false = ground arith in
    let d : length rs * 32 / 32 ≡ length rs = mul-div_cancel (length rs) (omega arith) in
    (omega arith, rw e (rw (q, d) (decode_pieces-encode_batch rs h)))
