-- ===== src/Awt/Input/Tests.antt =====
-- Runs of the input translator and of the event records of launch/awt.rs.
use rc_launcher.Base.{◌*◌, ◌≡◌, false, max, leb, List, [], ◌∷◌, length, ok, if◌then◌else◌, arith}
use rc_launcher.Awt.Event.{
  AwtEvent, left, right, number, pointer_move, pointer_down, pointer_up, key_down, focus,
  AwtEventRecord, encode_batch, decode_batch,
}
use rc_launcher.Awt.Event.Codes.{mouse_pressed, mouse_released, mouse_clicked}
use rc_launcher.Awt.Event.Batch.{IsRecord, decode_batch-encode_batch}
use rc_launcher.Awt.Input.{new_translator, translate_all}
use rc_launcher.Awt.Input.Clicks.{kinds, distance, translate-press_release}
use rc_launcher.Awt.Input.Bits.{hold_all, nothing_held}
use rc_launcher.Awt.Input.Held.{IsHolding, translate_all-IsHolding}

abbrev wheel_back : AwtEventRecord
wheel_back = record {
  id = 507;
  x = 3;
  y = 4;
  button = 0;
  key_code = 0;
  key_char = 65535;
  modifiers = 64;
  wheel = 4294967295;
}

wheel_back-IsRecord : IsRecord wheel_back
wheel_back-IsRecord = record {
  id = omega arith;
  x = omega arith;
  y = omega arith;
  button = omega arith;
  key_code = omega arith;
  key_char = omega arith;
  modifiers = omega arith;
  wheel = omega arith;
}

decode_batch-encode_batch_example :
    (length (encode_batch (wheel_back ∷ wheel_back ∷ []))
      ≡ 32 * length (wheel_back ∷ wheel_back ∷ []))
    × (decode_batch (encode_batch (wheel_back ∷ wheel_back ∷ []))
        ≡ ok (wheel_back ∷ wheel_back ∷ []))
decode_batch-encode_batch_example =
    decode_batch-encode_batch (wheel_back ∷ wheel_back ∷ [])
      (wheel_back-IsRecord, (wheel_back-IsRecord, tt))

translate-press_release_example :
    kinds (translate_all new_translator (pointer_down 10 20 left ∷ pointer_up 15 18 left ∷ [])).1
    ≡ (mouse_pressed, number left)
      ∷ (mouse_released, number left)
      ∷ (if leb (max (distance 10 15) (distance 20 18)) 12
          then (mouse_clicked, number left) ∷ []
          else [])
translate-press_release_example =
    translate-press_release new_translator left 10 20 15 18 (omega arith) (omega arith)
      (omega arith) (omega arith)

abbrev gesture : List AwtEvent
gesture =
    key_down 17
    ∷ pointer_down 1 1 right
    ∷ focus false
    ∷ pointer_down 2 2 left
    ∷ pointer_move 5 5
    ∷ []

translate_all-IsHolding_example :
    IsHolding
      (hold_all nothing_held gesture)
      (translate_all (record new_translator { click_slop = 12 }) gesture).0
translate_all-IsHolding_example = translate_all-IsHolding 12 gesture
