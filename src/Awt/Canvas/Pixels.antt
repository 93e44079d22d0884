-- ===== src/Awt/Canvas/Pixels.antt =====
-- What a submitted frame and a publish show, pixel by pixel and as whole buffers.
use mathlib.Core.Bool.{false≢true}
use mathlib.Core.Option
use native.Mathlib.Nat.{div-add-mod', div-lt_iff_lt-mul, mod-lt, mul_comm}
use rc_launcher.Base.{
  ℕ, ◌+◌, ◌*◌, ◌-◌, ◌/◌, ◌%◌, ◌<◌, ◌≡◌, refl, sym, ◌∙◌, inl, inr, Option, none, List, length,
  get_elem?, ok, list_ext, arith,
}
use rc_launcher.Awt.Rect.{no_damage, take_damage, damaged}
use rc_launcher.Awt.Rect.Cover.{Covers, Covers-is_empty}
use rc_launcher.Awt.Frame.{AwtFrame}
use rc_launcher.Awt.Canvas.{AwtCanvas, submit, blit, publish, present_at}
use rc_launcher.Awt.Canvas.Cells.{shown, blit_inside, length-publish}
use rc_launcher.Awt.Canvas.Buffers.{
  IsValid, submit-eq-ok, damaged-cases, blit_miss, in_back, edges, publish_cell,
}

-- The frame's value for the pixel of the screen, in its packed rows.
abbrev pub payload_at : AwtFrame → ℕ → ℕ → Option ℕ
payload_at f px py = get_elem? f.pixels ((py - f.damage.y) * f.damage.width + (px - f.damage.x))

-- The value of a buffer of the canvas at a pixel.
abbrev pub cell : AwtCanvas → List ℕ → ℕ → ℕ → Option ℕ
cell c buffer px py = get_elem? buffer (py * c.width + px)

-- A frame that a valid canvas accepts changes exactly the pixels of its damage: there the back
-- buffer holds the frame's value (made opaque if the format has no alpha); at every other pixel it
-- holds what it held. The front buffer, which the UI reads, is untouched.
pub submit-cell :
    (c c' : AwtCanvas) (f : AwtFrame) (px py : ℕ)
    → IsValid c
    → submit c f ≡ ok c'
    → px < c.width
    → py < c.height
    → (Covers f.damage px py
        → cell c c'.back px py ≡ Option.map (shown f.format) (payload_at f px py))
      × (¬ Covers f.damage px py → cell c c'.back px py ≡ cell c c.back px py)
      × (c'.front ≡ c.front)
submit-cell c c' f px py v h w k =
    let (a, e) = submit-eq-ok c f h in
    rw (← e) (
      (λ covers.
          blit_inside c f a.packed (edges v f.damage a.inside).0 px py w covers
            (in_back v px py w k)),
      (λ misses. blit_miss v f a px py w k misses),
      unfold blit in refl,
    )

-- Two full buffers that hold the same at every pixel are equal.
buffer_ext :
    (width height : ℕ) (xs ys : List ℕ)
    → 0 < width
    → length xs ≡ width * height
    → length ys ≡ width * height
    → ((px py : ℕ)
        → px < width
        → py < height
        → get_elem? xs (py * width + px) ≡ get_elem? ys (py * width + px))
    → xs ≡ ys
buffer_ext width height xs ys w lx ly h = list_ext xs ys (lx ∙ sym ly) λ i k.
    let e : i / width * width + i % width ≡ i = div-add-mod' i width in
    let below : i / width < height =
      (div-lt_iff_lt-mul w).1 (omega (arith, lx, mul_comm width height)) in
    rw e at (h (i % width) (i / width) (mod-lt i w) below)

nothing_left : damaged no_damage ≡ none
unfolding damaged
nothing_left = refl

-- After a publish the two buffers of a valid canvas are the same: the UI sees everything that was
-- submitted. The rectangle that is returned is the pending damage, if there was any, and nothing
-- is left pending.
pub present_at_lem :
    (c : AwtCanvas) (now : ℕ)
    → IsValid c
    → ((present_at c now).0.front ≡ c.back)
      × ((present_at c now).0.back ≡ c.back)
      × ((present_at c now).1 ≡ damaged c.pending)
      × (damaged (present_at c now).0.pending ≡ none)
unfolding present_at take_damage
present_at_lem c now v = elim (damaged-cases c.pending) [
  | inl (clean, empty) ↦
      rw (clean, present_at)
        (
          buffer_ext c.width c.height c.front c.back v.wide.0 v.front_sized v.back_sized
              (λ px py h k. sym (
                v.agree px py h k
                  (λ m. false≢true (sym (Covers-is_empty c.pending.area_of px py m) ∙ empty)))),
          refl,
          refl,
          nothing_left,
        )
  | inr (some_rect, _) ↦
      rw (some_rect, present_at)
        (
          buffer_ext c.width c.height (publish c now c.pending.area_of).front c.back v.wide.0
              (length-publish c now c.pending.area_of ∙ v.front_sized) v.back_sized
              (publish_cell v now c.pending.area_of refl),
          unfold publish in refl,
          refl,
          unfold publish in nothing_left,
        )
]
