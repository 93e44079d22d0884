-- ===== src/Awt/Event/Codes.antt =====
-- The constants of launch/awt.rs that mirror those of `java.awt`: event ids, modifier masks, and the
-- codes of the modifier keys.
use rc_launcher.Base.{ℕ}

abbrev pub key_typed : ℕ
key_typed = 400

abbrev pub key_pressed : ℕ
key_pressed = 401

abbrev pub key_released : ℕ
key_released = 402

abbrev pub mouse_clicked : ℕ
mouse_clicked = 500

abbrev pub mouse_pressed : ℕ
mouse_pressed = 501

abbrev pub mouse_released : ℕ
mouse_released = 502

abbrev pub mouse_moved : ℕ
mouse_moved = 503

abbrev pub mouse_dragged : ℕ
mouse_dragged = 506

abbrev pub mouse_wheel : ℕ
mouse_wheel = 507

abbrev pub component_resized : ℕ
component_resized = 101

abbrev pub focus_gained : ℕ
focus_gained = 1004

abbrev pub focus_lost : ℕ
focus_lost = 1005

abbrev pub shift_down : ℕ
shift_down = 64

abbrev pub ctrl_down : ℕ
ctrl_down = 128

abbrev pub meta_down : ℕ
meta_down = 256

abbrev pub alt_down : ℕ
alt_down = 512

abbrev pub button1_down : ℕ
button1_down = 1024

abbrev pub button2_down : ℕ
button2_down = 2048

abbrev pub button3_down : ℕ
button3_down = 4096

abbrev pub vk_shift : ℕ
vk_shift = 16

abbrev pub vk_control : ℕ
vk_control = 17

abbrev pub vk_alt : ℕ
vk_alt = 18

abbrev pub vk_meta : ℕ
vk_meta = 157

abbrev pub char_undefined : ℕ
char_undefined = 65535
