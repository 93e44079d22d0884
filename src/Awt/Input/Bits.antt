-- ===== src/Awt/Input/Bits.antt =====
-- The bits of the held buttons and modifier keys of launch/awt.rs, against the set of what is held:
-- what the events have pressed and not yet released.
use Prim.Native.Nat.{bit_or, bit_and}
use rc_launcher.Base.{
  ℕ, ◌+◌, ◌≡◌, refl, Bool, true, false, ◌==◌, if◌then◌else◌, arith, List, [], ◌∷◌, not, ◌||◌,
}
use rc_launcher.Awt.Event.{
  MouseButton, left, middle, right, mask, AwtEvent, pointer_down, pointer_up, key_down, key_up,
  focus,
}
use rc_launcher.Awt.Event.Codes.{vk_shift, vk_control, vk_alt, vk_meta}
use rc_launcher.Awt.Input.{bit_clear}

abbrev pub bit_if : Bool → ℕ → ℕ
bit_if true n = n
bit_if false n = 0

-- What is held, as a set.
pub record Held : Type 0 where
  pub left_down : Bool
  pub middle_down : Bool
  pub right_down : Bool
  pub shift : Bool
  pub ctrl : Bool
  pub alt : Bool
  pub meta : Bool

abbrev pub button_bits : Bool → Bool → Bool → ℕ
button_bits l m r = bit_if l 1024 + bit_if m 2048 + bit_if r 4096

abbrev pub key_bits : Bool → Bool → Bool → Bool → ℕ
key_bits s c a m = bit_if s 64 + bit_if c 128 + bit_if a 512 + bit_if m 256

unfoldable pub set_button : MouseButton → Bool → Held → Held
set_button left v h = record h { left_down = v }
set_button middle v h = record h { middle_down = v }
set_button right v h = record h { right_down = v }

-- A key that is no modifier changes nothing.
unfoldable pub set_key : ℕ → Bool → Held → Held
set_key code v h =
    if code == vk_shift
    then record h { shift = v }
    else if code == vk_control
    then record h { ctrl = v }
    else if code == vk_alt
    then record h { alt = v }
    else if code == vk_meta
    then record h { meta = v }
    else h

abbrev pub nothing_held : Held
nothing_held = record {
  left_down = false;
  middle_down = false;
  right_down = false;
  shift = false;
  ctrl = false;
  alt = false;
  meta = false;
}

-- What an event does to the set: a loss of the focus empties it.
unfoldable pub hold : Held → AwtEvent → Held
hold h (pointer_down x y b) = set_button b true h
hold h (pointer_up x y b) = set_button b false h
hold h (key_down code) = set_key code true h
hold h (key_up code) = set_key code false h
hold h (focus false) = nothing_held
hold h _ = h

unfoldable pub hold_all : Held → List AwtEvent → Held
hold_all h [] = h
hold_all h (e ∷ es) = hold_all (hold h e) es

pub press_button :
    (b : MouseButton) (h : Held)
    → bit_or (button_bits h.left_down h.middle_down h.right_down) (mask b)
      ≡ (let k = set_button b true h in button_bits k.left_down k.middle_down k.right_down)
unfolding mask set_button
press_button left h = ground arith
press_button middle h = ground arith
press_button right h = ground arith

pub release_bits :
    (b : MouseButton) (h : Held)
    → bit_clear (button_bits h.left_down h.middle_down h.right_down) (mask b)
      ≡ (let k = set_button b false h in button_bits k.left_down k.middle_down k.right_down)
unfolding mask set_button
release_bits left h = ground arith
release_bits middle h = ground arith
release_bits right h = ground arith

pub unheld :
    (b : MouseButton) (h : Held)
    → (bit_and (button_bits h.left_down h.middle_down h.right_down) (mask b) == 0) ≡ true
    → set_button b false h ≡ h
unfolding mask set_button
unheld left h e = ground arith
unheld middle h e = ground arith
unheld right h e = ground arith

pub press_shift : (s c a m : Bool) → bit_or (key_bits s c a m) 64 ≡ key_bits true c a m
press_shift s c a m = ground arith

pub press_ctrl : (s c a m : Bool) → bit_or (key_bits s c a m) 128 ≡ key_bits s true a m
press_ctrl s c a m = ground arith

pub press_alt : (s c a m : Bool) → bit_or (key_bits s c a m) 512 ≡ key_bits s c true m
press_alt s c a m = ground arith

pub press_meta : (s c a m : Bool) → bit_or (key_bits s c a m) 256 ≡ key_bits s c a true
press_meta s c a m = ground arith

pub clear_shift : (s c a m : Bool) → bit_clear (key_bits s c a m) 64 ≡ key_bits false c a m
clear_shift s c a m = ground arith

pub clear_ctrl : (s c a m : Bool) → bit_clear (key_bits s c a m) 128 ≡ key_bits s false a m
clear_ctrl s c a m = ground arith

pub clear_alt : (s c a m : Bool) → bit_clear (key_bits s c a m) 512 ≡ key_bits s c false m
clear_alt s c a m = ground arith

pub clear_meta : (s c a m : Bool) → bit_clear (key_bits s c a m) 256 ≡ key_bits s c a false
clear_meta s c a m = ground arith

pub keys_kept :
    (b : MouseButton) (v : Bool) (h : Held)
    → (let k = set_button b v h in key_bits k.shift k.ctrl k.alt k.meta)
      ≡ key_bits h.shift h.ctrl h.alt h.meta
unfolding set_button
keys_kept left v h = refl
keys_kept middle v h = refl
keys_kept right v h = refl

pub up_shift :
    (s c a m : Bool)
    → (bit_and (key_bits s c a m) 64 == 0) ≡ true
    → key_bits s c a m ≡ key_bits false c a m
up_shift s c a m h = ground arith

pub up_ctrl :
    (s c a m : Bool)
    → (bit_and (key_bits s c a m) 128 == 0) ≡ true
    → key_bits s c a m ≡ key_bits s false a m
up_ctrl s c a m h = ground arith

pub up_alt :
    (s c a m : Bool)
    → (bit_and (key_bits s c a m) 512 == 0) ≡ true
    → key_bits s c a m ≡ key_bits s c false m
up_alt s c a m h = ground arith

pub up_meta :
    (s c a m : Bool)
    → (bit_and (key_bits s c a m) 256 == 0) ≡ true
    → key_bits s c a m ≡ key_bits s c a false
up_meta s c a m h = ground arith

pub some_bit : (l m r : Bool) → (button_bits l m r == 0) ≡ not (l || m || r)
some_bit l m r = ground arith
