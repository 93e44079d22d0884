-- ===== src/Awt/Input/Clicks.antt =====
-- Clicks and drags of launch/awt.rs.
use rc_launcher.Base.{
  ℕ, ◌-◌, ◌^◌, ◌<◌, max, ◌≡◌, refl, true, Bool-cases, inl, inr, leb, List, [], ◌∷◌, if◌then◌else◌,
  arith,
}
use rc_launcher.Awt.Event.{
  MouseButton, left, middle, right, number, pointer_down, pointer_up, AwtEventRecord,
}
use rc_launcher.Awt.Event.Codes.{mouse_clicked, mouse_pressed, mouse_released}
use rc_launcher.Awt.Input.{
  AwtInputTranslator, translate, translate_all, mouse_record, click_after, same_button, abs_diff,
}

-- The distance of two coordinates.
abbrev pub distance : ℕ → ℕ → ℕ
distance a b = max a b - (if leb a b then a else b)

abs_diff-eq : (a b : ℕ) → a < 2 ^ 31 → b < 2 ^ 31 → abs_diff a b ≡ distance a b
abs_diff-eq a b h k = ground arith

same_button_refl : (b : MouseButton) → same_button b b ≡ true
unfolding same_button
same_button_refl left = refl
same_button_refl middle = refl
same_button_refl right = refl

-- The id and the button of a record.
abbrev pub kind_of : AwtEventRecord → ℕ × ℕ
kind_of r = (r.id, r.button)

abbrev pub kinds : List AwtEventRecord → List (ℕ × ℕ)
kinds [] = []
kinds (r ∷ rs) = kind_of r ∷ kinds rs

-- A press of a button and its release, at coordinates below 2^31, are reported as such, and a click
-- follows exactly if the pointer travelled at most the tolerance in both directions.
pub translate-press_release :
    (t : AwtInputTranslator) (button : MouseButton) (x y x' y' : ℕ)
    → x < 2 ^ 31
    → y < 2 ^ 31
    → x' < 2 ^ 31
    → y' < 2 ^ 31
    → kinds (translate_all t (pointer_down x y button ∷ pointer_up x' y' button ∷ [])).1
      ≡ (mouse_pressed, number button)
        ∷ (mouse_released, number button)
        ∷ (if leb (max (distance x x') (distance y y')) t.click_slop
            then (mouse_clicked, number button) ∷ []
            else [])
unfolding translate_all translate click_after mouse_record
translate-press_release t button x y x' y' hx hy hx' hy' = rw (same_button_refl button) (
    rw (abs_diff-eq x x' hx hx', abs_diff-eq y y' hy hy')
      (elim (Bool-cases (leb (max (distance x x') (distance y y')) t.click_slop)) [
        | inl e ↦ rw e
        | inr e ↦ rw e
      ]))
