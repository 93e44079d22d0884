-- ===== src/Awt/Canvas/Steps.antt =====
-- The canvas of launch/awt.rs over any sequence of calls from its two sides.
use rc_launcher.Base.{
  ℕ, ◌+◌, ◌*◌, ◌≤◌, ◌<◌, ◌≡◌, refl, sym, ap, ◌∙◌, inl, inr, List, [], ◌∷◌, length, get_elem?, ok,
  err, Bool-cases, Result-cases, ok-injective, length-replicate, length-map, ◌==◌, ◌&&◌, arith,
}
use mathlib.Core.Path.{subst}
use mathlib.Core.Bool.{false≢true}
use rc_launcher.Awt.Rect.Cover.{Covers-is_empty}
use rc_launcher.Error.{RcResult}
use rc_launcher.Awt.Rect.{take_damage, no_damage, full_damage, max_canvas_dim}
use rc_launcher.Awt.Frame.{AwtFrame, validate_dims}
use rc_launcher.Awt.Canvas.{
  AwtCanvas, new, submit, present_at, take_dirty, fill, resize, resized, opaque_black,
}
use rc_launcher.Awt.Canvas.Buffers.{
  IsValid, fits_in-no_rect, fits_in-whole, damaged-cases, submit-eq-ok, blit-IsValid,
  publish-IsValid,
}

validate_dims_bounds :
    (width height : ℕ)
    → validate_dims width height ≡ ok tt
    → ((0 < width) × (width ≤ max_canvas_dim)) × ((0 < height) × (height ≤ max_canvas_dim))
unfolding validate_dims
validate_dims_bounds width height h = (ground arith, ground arith)

-- Two buffers of one colour, everything to be shown.
plain-IsValid :
    (c : AwtCanvas)
    → (0 < c.width) × (c.width ≤ max_canvas_dim)
    → (0 < c.height) × (c.height ≤ max_canvas_dim)
    → length c.back ≡ c.width * c.height
    → c.front ≡ c.back
    → c.pending ≡ no_damage
    → c.dirty ≡ full_damage c.width c.height
    → IsValid c
plain-IsValid c wide high sized same clean full = record {
  wide = wide;
  high = high;
  back_sized = sized;
  front_sized = rw same sized;
  pending_fits = rw clean (fits_in-no_rect c.width c.height);
  dirty_fits = rw full (fits_in-whole c.width c.height);
  agree = λ px py h k n. ap (λ (b : List ℕ). get_elem? b (py * c.width + px)) (sym same);
}

pub new-IsValid : (width height : ℕ) {c : AwtCanvas} → new width height ≡ ok c → IsValid c
unfolding new
new-IsValid width height h = elim (Result-cases (validate_dims width height)) [
  | inl (_, e) ↦
      let (wide, high) = validate_dims_bounds width height e in
      subst IsValid (ok-injective (rw (e, new) at h))
        (plain-IsValid _ wide high (length-replicate (width * height) opaque_black) refl refl refl)
  | inr (_, e) ↦ absurd (cc (rw (e, new) at h))
]

-- A new canvas is to be shown whole.
pub dirty-new :
    (width height : ℕ) {c : AwtCanvas}
    → new width height ≡ ok c
    → c.dirty ≡ full_damage c.width c.height
unfolding new
dirty-new width height h = elim (Result-cases (validate_dims width height)) [
  | inl (_, e) ↦
      subst (λ d. d.dirty ≡ full_damage d.width d.height) (ok-injective (rw (e, new) at h)) refl
  | inr (_, e) ↦ absurd (cc (rw (e, new) at h))
]

resize-IsValid :
    (c : AwtCanvas) (width height : ℕ) {c' : AwtCanvas}
    → resize c width height ≡ ok c'
    → IsValid c
    → IsValid c'
unfolding resize
resize-IsValid c width height h v = elim (Result-cases (validate_dims width height)) [
  | inl (_, e) ↦ elim (Bool-cases (width == c.width && height == c.height)) [
    | inl same ↦ subst IsValid (ok-injective (rw (e, same, resize) at h)) v
    | inr other ↦
        let (wide, high) = validate_dims_bounds width height e in
        subst IsValid (ok-injective (rw (e, other, resize) at h)) (
          plain-IsValid (resized c width height) wide high
            (length-replicate (width * height) opaque_black) refl refl refl)
  ]
  | inr (_, e) ↦ absurd (cc (rw (e, resize) at h))
]

pub submit-IsValid :
    (c : AwtCanvas) (f : AwtFrame) {c' : AwtCanvas} → submit c f ≡ ok c' → IsValid c → IsValid c'
submit-IsValid c f h v = let (a, e) = submit-eq-ok c f h in subst IsValid e (blit-IsValid v f a)

pub present_at-IsValid : (c : AwtCanvas) (now : ℕ) → IsValid c → IsValid (present_at c now).0
unfolding present_at take_damage
present_at-IsValid c now v = elim (damaged-cases c.pending) [
  | inl (clean, empty) ↦
      rw (clean, present_at)
        (record {
          wide = v.wide;
          high = v.high;
          back_sized = v.back_sized;
          front_sized = v.front_sized;
          pending_fits = fits_in-no_rect c.width c.height;
          dirty_fits = v.dirty_fits;
          agree = λ px py h k n.
              v.agree px py h k
                (λ m. false≢true (sym (Covers-is_empty c.pending.area_of px py m) ∙ empty));
        })
  | inr (some_rect, _) ↦ rw (some_rect, present_at) (publish-IsValid v now c.pending.area_of refl)
]

pub take_dirty-IsValid : (c : AwtCanvas) → IsValid c → IsValid (take_dirty c).0
unfolding take_dirty take_damage
take_dirty-IsValid c v = record {
  wide = v.wide;
  high = v.high;
  back_sized = v.back_sized;
  front_sized = v.front_sized;
  pending_fits = v.pending_fits;
  dirty_fits = fits_in-no_rect c.width c.height;
  agree = v.agree;
}

pub fill-IsValid : (c : AwtCanvas) (argb : ℕ) → IsValid c → IsValid (fill c argb)
unfolding fill
fill-IsValid c argb v =
    plain-IsValid (fill c argb) v.wide v.high (length-map (λ _. argb) c.back ∙ v.back_sized) refl
      refl refl

-- A call of one of the two sides.
pub data Call : Type 0 where
  resize_to : ℕ → ℕ → Call
  submit_frame : AwtFrame → Call
  present_now : ℕ → Call
  consume : Call
  fill_with : ℕ → Call

-- A method that returns an error leaves the canvas as it was.
abbrev pub or_same : AwtCanvas → RcResult AwtCanvas → AwtCanvas
or_same c (ok c') = c'
or_same c (err _) = c

unfoldable pub call : AwtCanvas → Call → AwtCanvas
call c (resize_to width height) = or_same c (resize c width height)
call c (submit_frame f) = or_same c (submit c f)
call c (present_now now) = (present_at c now).0
call c consume = (take_dirty c).0
call c (fill_with argb) = fill c argb

unfoldable pub run : List Call → AwtCanvas → AwtCanvas
unfolding call
run [] c = c
run (x ∷ xs) c = run xs (call c x)

pub or_same-IsValid :
    (c : AwtCanvas) (r : RcResult AwtCanvas)
    → ((c' : AwtCanvas) → r ≡ ok c' → IsValid c')
    → IsValid c
    → IsValid (or_same c r)
or_same-IsValid c (ok c') h v = h c' refl
or_same-IsValid c (err _) h v = v

call-IsValid : (c : AwtCanvas) (x : Call) → IsValid c → IsValid (call c x)
unfolding call
call-IsValid c (resize_to width height) v =
    or_same-IsValid c (resize c width height) (λ c' h. resize-IsValid c width height h v) v
call-IsValid c (submit_frame f) v =
    or_same-IsValid c (submit c f) (λ c' h. submit-IsValid c f h v) v
call-IsValid c (present_now now) v = present_at-IsValid c now v
call-IsValid c consume v = take_dirty-IsValid c v
call-IsValid c (fill_with argb) v = fill-IsValid c argb v

run_of_IsValid : (xs : List Call) (c : AwtCanvas) → IsValid c → IsValid (run xs c)
unfolding run
run_of_IsValid [] c v = v
run_of_IsValid (x ∷ xs) c v = run_of_IsValid xs (call c x) (call-IsValid c x v)

-- From a new canvas, after any sequence of resizes, frames (accepted or rejected), publishes,
-- reads of the damage and fills: the size is legal, both buffers have exactly one cell for each
-- pixel, the pending and the published damage lie inside the screen, and the two buffers hold the
-- same at every pixel outside the pending damage.
pub run-IsValid :
    (width height : ℕ) (c : AwtCanvas) (calls : List Call)
    → new width height ≡ ok c
    → IsValid (run calls c)
run-IsValid width height c calls h = run_of_IsValid calls c (new-IsValid width height h)
