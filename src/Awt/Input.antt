-- ===== src/Awt/Input.antt =====
-- `AwtInputTranslator` of launch/awt.rs: from the events of the user interface to AWT records, with
-- the held buttons and modifier keys. An `i32` is kept as its 32-bit pattern.
pub mod Clicks
pub mod Bits
pub mod Held
mod Tests
use Prim.Native.Nat.{bit_or, bit_and}
use rc_launcher.Base.{
  ℕ, ◌+◌, ◌-◌, ◌%◌, ◌^◌, max, Bool, true, false, not, ◌&&◌, ◌||◌, Option, none, some, List, [], ◌∷◌,
  ◌++◌, ltb, leb, ◌==◌, if◌then◌else◌,
}
use rc_launcher.Awt.Event.{
  MouseButton, left, middle, right, number, mask, modifier_mask_for_vk, AwtEvent, pointer_move,
  pointer_down, pointer_up, scroll, key_down, key_up, text, focus, resize_event, AwtEventRecord,
}
use rc_launcher.Awt.Event.Codes.{
  key_typed, key_pressed, key_released, mouse_clicked, mouse_pressed, mouse_released, mouse_moved,
  mouse_dragged, mouse_wheel, component_resized, focus_gained, focus_lost, shift_down, ctrl_down,
  alt_down, meta_down, vk_shift, vk_control, vk_alt, vk_meta, char_undefined,
}

pub record AwtInputTranslator : Type 0 where
  pub modifier_keys : ℕ
  pub buttons : ℕ
  pub pointer : ℕ × ℕ
  pub press_origin : Option (ℕ × ℕ × MouseButton)
  pub click_slop : ℕ

abbrev pub new_translator : AwtInputTranslator
new_translator = record {
  modifier_keys = 0;
  buttons = 0;
  pointer = (0, 0);
  press_origin = none;
  click_slop = 12;
}

abbrev pub with_click_slop : AwtInputTranslator → ℕ → AwtInputTranslator
with_click_slop t slop = record t { click_slop = slop }

-- `getModifiersEx()`
unfoldable pub modifiers : AwtInputTranslator → ℕ
modifiers t = bit_or t.modifier_keys t.buttons

-- `a & !b` of 32 bits
abbrev pub bit_clear : ℕ → ℕ → ℕ
bit_clear a b = bit_and a (2 ^ 32 - 1 - b)

-- `(a - b).unsigned_abs()` of two `i32`, with wrap-around
abbrev pub abs_diff : ℕ → ℕ → ℕ
abs_diff a b = let d = (a + 2 ^ 32 - b) % 2 ^ 32 in if ltb d (2 ^ 31) then d else 2 ^ 32 - d

unfoldable pub mouse_record : AwtInputTranslator → ℕ → ℕ → ℕ → AwtEventRecord
mouse_record t id button wheel = record {
  id = id;
  x = t.pointer.0;
  y = t.pointer.1;
  button = button;
  key_code = 0;
  key_char = char_undefined;
  modifiers = modifiers t;
  wheel = wheel;
}

unfoldable pub key_record : AwtInputTranslator → ℕ → ℕ → ℕ → AwtEventRecord
key_record t id code ch = record {
  id = id;
  x = t.pointer.0;
  y = t.pointer.1;
  button = 0;
  key_code = code;
  key_char = ch;
  modifiers = modifiers t;
  wheel = 0;
}

-- One turn of the loop over the buttons: a held one is released.
unfoldable pub release_button :
    MouseButton
    → AwtInputTranslator × List AwtEventRecord
    → AwtInputTranslator × List AwtEventRecord
release_button b (t, out) =
    let t' = record t { buttons = bit_clear t.buttons (mask b) } in
    if not (bit_and t.buttons (mask b) == 0)
    then (t', out ++ mouse_record t' mouse_released (number b) 0 ∷ [])
    else (t, out)

-- One turn of the loop over the modifier keys.
unfoldable pub release_key :
    ℕ → ℕ → AwtInputTranslator × List AwtEventRecord → AwtInputTranslator × List AwtEventRecord
release_key m code (t, out) =
    let t' = record t { modifier_keys = bit_clear t.modifier_keys m } in
    if not (bit_and t.modifier_keys m == 0)
    then (t', out ++ key_record t' key_released code char_undefined ∷ [])
    else (t, out)

unfoldable pub release_all : AwtInputTranslator → AwtInputTranslator × List AwtEventRecord
release_all t =
    let after_buttons =
      release_button right (release_button middle (release_button left (t, []))) in
    let after_keys = release_key meta_down vk_meta (
      release_key alt_down vk_alt
        (release_key ctrl_down vk_control (release_key shift_down vk_shift after_buttons))) in
    (record after_keys.0 { press_origin = none }, after_keys.1)

-- `==` of two buttons
unfoldable pub same_button : MouseButton → MouseButton → Bool
same_button left left = true
same_button middle middle = true
same_button right right = true
same_button _ _ = false

-- `PointerUp`: the click that follows a release near the press.
unfoldable pub click_after : AwtInputTranslator → ℕ → ℕ → MouseButton → List AwtEventRecord
click_after t x y button = elim t.press_origin [
  | none ↦ []
  | some (px, py, pb) ↦
      if same_button pb button && leb (max (abs_diff px x) (abs_diff py y)) t.click_slop
      then mouse_record t mouse_clicked (number button) 0 ∷ []
      else []
]

-- The bare record of a focus or resize event.
abbrev pub plain_record : AwtInputTranslator → ℕ → ℕ → ℕ → AwtEventRecord
plain_record t id x y = record {
  id = id;
  x = x;
  y = y;
  button = 0;
  key_code = 0;
  key_char = char_undefined;
  modifiers = modifiers t;
  wheel = 0;
}

unfoldable pub translate : AwtInputTranslator → AwtEvent → AwtInputTranslator × List AwtEventRecord
translate t (pointer_move x y) =
    let t' = record t { pointer = (x, y) } in
    (t', mouse_record t' (if not (t.buttons == 0) then mouse_dragged else mouse_moved) 0 0 ∷ [])
translate t (pointer_down x y button) =
    let t' = record t {
      pointer = (x, y);
      buttons = bit_or t.buttons (mask button);
      press_origin = some (x, y, button);
    } in
    (t', mouse_record t' mouse_pressed (number button) 0 ∷ [])
translate t (pointer_up x y button) =
    let t' = record t { pointer = (x, y); buttons = bit_clear t.buttons (mask button) } in
    (
      record t' { press_origin = none },
      mouse_record t' mouse_released (number button) 0 ∷ click_after t' x y button,
    )
translate t (scroll x y ticks) =
    let t' = record t { pointer = (x, y) } in (t', mouse_record t' mouse_wheel 0 ticks ∷ [])
translate t (key_down code) =
    let t' : AwtInputTranslator = elim (modifier_mask_for_vk code) [
      | some m ↦ record t { modifier_keys = bit_or t.modifier_keys m }
      | none ↦ t
    ] in
    (t', key_record t' key_pressed code char_undefined ∷ [])
translate t (key_up code) =
    let t' : AwtInputTranslator = elim (modifier_mask_for_vk code) [
      | some m ↦ record t { modifier_keys = bit_clear t.modifier_keys m }
      | none ↦ t
    ] in
    (t', key_record t' key_released code char_undefined ∷ [])
translate t (text ch) = (t, key_record t key_typed 0 ch ∷ [])
translate t (focus true) = (t, plain_record t focus_gained 0 0 ∷ [])
translate t (focus false) =
    let r = release_all t in (r.0, r.1 ++ plain_record r.0 focus_lost 0 0 ∷ [])
translate t (resize_event width height) = (t, plain_record t component_resized width height ∷ [])

unfoldable pub translate_all :
    AwtInputTranslator → List AwtEvent → AwtInputTranslator × List AwtEventRecord
translate_all t [] = (t, [])
translate_all t (e ∷ es) =
    let one = translate t e in let rest = translate_all one.0 es in (rest.0, one.1 ++ rest.1)

-- `type_str`, for the list of the text's characters
unfoldable pub type_str : AwtInputTranslator → List ℕ → List AwtEventRecord
type_str t [] = []
type_str t (ch ∷ chs) = key_record t key_typed 0 ch ∷ type_str t chs

abbrev pub reset : AwtInputTranslator → AwtInputTranslator
reset t = record t { modifier_keys = 0; buttons = 0; pointer = (0, 0); press_origin = none }
