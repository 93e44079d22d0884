-- ===== src/Awt/Poll/Shown.antt =====
-- After a poll of launch/fakefx.rs the framebuffer shows the whole front buffer.
use rc_launcher.Base.{
  ℕ, ◌≤◌, ◌<◌, ◌≡◌, refl, sym, ap, ◌∙◌, inl, inr, Option, some, List, [], ◌∷◌, length, ok,
  Result-cases, arith,
}
use mathlib.Core.Bool.{false≢true}
use mathlib.Core.Path.{subst}
use rc_launcher.Error.{RcResult}
use rc_launcher.Awt.Rect.{union, add_damage, take_damage}
use rc_launcher.Awt.Rect.Cover.{
  Covers, Covers-is_empty, Covers-union, dec-Covers, Covers-whole, Covers-not-Misses,
}
use rc_launcher.Awt.Frame.{AwtFrame}
use rc_launcher.Awt.Canvas.{
  AwtCanvas, rgba_len, take_dirty, submit, blit, present_at, publish, fill, new,
}
use rc_launcher.Awt.Canvas.Buffers.{IsValid, damaged-cases, submit-eq-ok, edges, in_u32}
use rc_launcher.Awt.Canvas.Cells.{publish_outside}
use rc_launcher.Awt.Canvas.Steps.{
  or_same, submit-IsValid, present_at-IsValid, take_dirty-IsValid, fill-IsValid, new-IsValid,
  dirty-new,
}
use rc_launcher.Awt.Poll.{Polled, poll_frame_into}
use rc_launcher.Awt.Poll.Coherence.{
  byte_of, ShowsPixel, InStep, written, length-written, written_inside, written_outside,
  copy_in_full,
}

-- Every pixel of the screen is shown.
abbrev pub ShowsAll : AwtCanvas → List ℕ → Type 0
ShowsAll c fb = (px py : ℕ) → px < c.width → py < c.height → ShowsPixel c fb px py

-- The canvas and the framebuffer after a poll; an error or no damage leaves both.
abbrev pub after_poll : AwtCanvas → List ℕ → RcResult (Option Polled) → AwtCanvas × List ℕ
after_poll c fb (ok (some p)) = (p.canvas, p.framebuffer)
after_poll c fb _ = (c, fb)

-- What the two sides rely on: a valid canvas, a framebuffer with room for it, and everything
-- outside the published damage shown.
pub record Follows (c : AwtCanvas) (fb : List ℕ) : Type 0 where
  pub valid : IsValid c
  pub room : rgba_len c ≤ length fb
  pub in_step : InStep c fb

poll_lem :
    {c : AwtCanvas} {fb : List ℕ}
    → Follows c fb
    → let (c', fb') = after_poll c fb (poll_frame_into c fb) in
      Follows c' fb' × ShowsAll c' fb' × (c'.front ≡ c.front)
unfolding poll_frame_into take_dirty take_damage rgba_len
poll_lem {c} {fb} s = elim (damaged-cases c.dirty) [
  | inl (clean, empty) ↦
      rw (clean, poll_frame_into)
        (
          s,
          (λ px py h k.
              s.in_step px py h k
                (λ m. false≢true (sym (Covers-is_empty c.dirty.area_of px py m) ∙ empty))),
          refl,
        )
  | inr (found, full) ↦
      let v = s.valid in
      let rect = c.dirty.area_of in
      let shown : (px py : ℕ)
          → px < c.width
          → py < c.height
          → ShowsPixel c (written c rect fb) px py =
        λ px py h k n small.
          let (p, q) = in_u32 v px py h k in
          elim (dec-Covers rect px py p q) [
            | inl covers ↦ written_inside v rect v.dirty_fits fb s.room px py h k n small covers
            | inr misses ↦
                written_outside v rect v.dirty_fits fb s.room px py h k n small misses
                ∙ s.in_step px py h k (λ m. Covers-not-Misses rect px py m misses) n small
          ] in
      rw (found, poll_frame_into)
        (rw (copy_in_full v rect v.dirty_fits fb s.room full) (
          (record {
            valid = take_dirty-IsValid c v;
            room = rw (length-written c rect fb) (s.room);
            in_step = λ px py h k _. shown px py h k;
          }),
          shown,
          refl,
        ))
]

submit-Follows :
    {c : AwtCanvas} {fb : List ℕ} (f : AwtFrame)
    → Follows c fb
    → Follows (or_same c (submit c f)) fb
unfolding rgba_len
submit-Follows {c} {fb} f s = elim (Result-cases (submit c f)) [
  | inl (c', e) ↦
      let (a, b) = submit-eq-ok c f e in
      rw e (
        subst (λ d. Follows d fb) b
          (record {
            valid = subst IsValid (sym b) (submit-IsValid c f e s.valid);
            room = unfold blit in s.room;
            in_step = unfold blit in s.in_step;
          }))
  | inr (x, e) ↦ rw e s
]

publish-InStep :
    {c : AwtCanvas} {fb : List ℕ} (now : ℕ)
    → Follows c fb
    → InStep (publish c now c.pending.area_of) fb
publish-InStep {c} {fb} now s px py h k n i small =
    let v = s.valid in
    let rect = c.pending.area_of in
    let (w, l) = edges v rect v.pending_fits in
    let (p, q) = in_u32 v px py (unfold publish in h) (unfold publish in k) in
    let apart : ¬ Covers (union c.dirty.area_of rect) px py = unfold publish add_damage in n in
    elim (dec-Covers rect px py p q) [
      | inl covers ↦ absurd (apart (Covers-union c.dirty.area_of rect px py (inr covers)))
      | inr misses ↦
          unfold publish in
          (s.in_step px py h k (λ m. apart (Covers-union c.dirty.area_of rect px py (inl m))) i
              small
            ∙ ap (λ (o : Option ℕ). byte_of o i)
                (sym (publish_outside c now rect w l v.back_sized px py h misses)))
    ]

present_at-Follows :
    {c : AwtCanvas} {fb : List ℕ} (now : ℕ) → Follows c fb → Follows (present_at c now).0 fb
unfolding rgba_len present_at take_damage
present_at-Follows {c} {fb} now s = elim (damaged-cases c.pending) [
  | inl (clean, _) ↦
      rw (clean, present_at)
        (record {
          valid = rw (clean, present_at) at (present_at-IsValid c now s.valid);
          room = s.room;
          in_step = s.in_step;
        })
  | inr (found, _) ↦
      rw (found, present_at)
        (record {
          valid = rw (found, present_at) at (present_at-IsValid c now s.valid);
          room = unfold publish in s.room;
          in_step = publish-InStep now s;
        })
]

fill-Follows : {c : AwtCanvas} {fb : List ℕ} (argb : ℕ) → Follows c fb → Follows (fill c argb) fb
unfolding rgba_len
fill-Follows {c} {fb} argb s = record {
  valid = fill-IsValid c argb s.valid;
  room = unfold fill in s.room;
  in_step = λ px py h k n.
      unfold fill in
      absurd (
        n (
          Covers-whole c.width c.height px py (omega (arith, s.valid.wide))
            (omega (arith, s.valid.high)) h k));
}

new-Follows :
    (width height : ℕ) {c : AwtCanvas} {fb : List ℕ}
    → new width height ≡ ok c
    → rgba_len c ≤ length fb
    → Follows c fb
new-Follows width height {c} made room =
    let v = new-IsValid width height made in
    record {
      valid = v;
      room = room;
      in_step = λ px py h k n. absurd (
          n (
            rw (dirty-new width height made) (
              Covers-whole c.width c.height px py (omega (arith, v.wide)) (omega (arith, v.high)) h
                k)));
    }

-- A call of the producer, of the launcher, or of the UI.
pub data UiCall : Type 0 where
  frame : AwtFrame → UiCall
  present : ℕ → UiCall
  paint : ℕ → UiCall
  poll : UiCall

unfoldable pub ui_call : AwtCanvas × List ℕ → UiCall → AwtCanvas × List ℕ
ui_call (c, fb) (frame f) = (or_same c (submit c f), fb)
ui_call (c, fb) (present now) = ((present_at c now).0, fb)
ui_call (c, fb) (paint argb) = (fill c argb, fb)
ui_call (c, fb) poll = after_poll c fb (poll_frame_into c fb)

unfoldable pub ui_run : List UiCall → AwtCanvas × List ℕ → AwtCanvas × List ℕ
unfolding ui_call
ui_run [] s = s
ui_run (x ∷ xs) s = ui_run xs (ui_call s x)

ui_call-Follows :
    (s : AwtCanvas × List ℕ) (x : UiCall)
    → Follows s.0 s.1
    → Follows (ui_call s x).0 (ui_call s x).1
unfolding ui_call
ui_call-Follows s (frame f) h = submit-Follows f h
ui_call-Follows s (present now) h = present_at-Follows now h
ui_call-Follows s (paint argb) h = fill-Follows argb h
ui_call-Follows s poll h = (poll_lem h).0

ui_run-Follows :
    (xs : List UiCall) (s : AwtCanvas × List ℕ)
    → Follows s.0 s.1
    → Follows (ui_run xs s).0 (ui_run xs s).1
unfolding ui_run
ui_run-Follows [] s h = h
ui_run-Follows (x ∷ xs) s h = ui_run-Follows xs (ui_call s x) (ui_call-Follows s x h)

-- Start from a new canvas and a framebuffer with room for it, whatever it holds. After any
-- sequence of frames, publishes, fills and polls, one more poll leaves a framebuffer that shows
-- the front buffer at every pixel, although each poll rewrites the damaged rectangle only; and the
-- poll does not change the front buffer.
pub poll-ui_run :
    (width height : ℕ) (c : AwtCanvas) (fb : List ℕ) (calls : List UiCall)
    → new width height ≡ ok c
    → rgba_len c ≤ length fb
    → let s = ui_run calls (c, fb) in
      let s' = ui_call s poll in ShowsAll s'.0 s'.1 × (s'.0.front ≡ s.0.front)
unfolding ui_call
poll-ui_run width height c fb calls made room =
    let follows = ui_run-Follows calls (c, fb) (new-Follows width height made room) in
    ((poll_lem follows).1, (poll_lem follows).2)
