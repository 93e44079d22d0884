-- ===== src/Awt/Poll/Pooled.antt =====
-- `poll_frame_into_pooled` of launch/fakefx.rs takes a buffer of the damaged rectangle's size, and
-- hands it to the copy that wants room for the whole screen.
use rc_launcher.Base.{
  ℕ, ◌*◌, ◌≤◌, ◌<◌, ◌≡◌, some, List, replicate, length, ok, err, length-replicate, lt→ltb, arith,
  inl, inr,
}
use rc_launcher.Error.{launch}
use rc_launcher.Awt.Rect.{area, damaged}
use rc_launcher.Awt.Canvas.{AwtCanvas, rgba_len, copy_region_into_framebuffer, take_dirty}
use rc_launcher.Awt.Canvas.Buffers.{IsValid, damaged-cases, edges}
use rc_launcher.Awt.Poll.{poll_frame_into_pooled, take_copied}
use rc_launcher.Awt.Poll.Coherence.{clamp_to_of_fits, copy_in_full, written}

-- The published damage of a valid canvas that has some: either it is smaller than the screen, the
-- pooled poll fails, and the canvas with its damage stays as it was; or it has as many pixels as the
-- screen, the poll succeeds with the converted pixels of the damage written over its buffer, and
-- takes the damage.
pub poll_frame_into_pooled_lem :
    (c : AwtCanvas)
    → IsValid c
    → damaged c.dirty ≡ some c.dirty.area_of
    → (area c.dirty.area_of < c.width * c.height
        → poll_frame_into_pooled c ≡ (c, err (launch "RGBA framebuffer too small")))
      × (c.width * c.height ≤ area c.dirty.area_of
          → poll_frame_into_pooled c ≡ (
            (take_dirty c).0,
            ok (
                some (record {
                  buf = written c c.dirty.area_of (replicate (area c.dirty.area_of * 4) 0);
                  rect = c.dirty.area_of;
                  len = area c.dirty.area_of * 4;
                })),
          ))
unfolding poll_frame_into_pooled take_copied area rgba_len
poll_frame_into_pooled_lem c v found = elim (damaged-cases c.dirty) [
  | inl (clean, _) ↦ absurd (cc)
  | inr (_, full) ↦
      let rect = c.dirty.area_of in
      let (w, h) = edges v rect v.dirty_fits in
      let fb : List ℕ = replicate (rect.width * rect.height * 4) 0 in
      let size : length fb ≡ rect.width * rect.height * 4 =
        length-replicate (rect.width * rect.height * 4) 0 in
      rw (found, poll_frame_into_pooled)
        (
          (λ small.
              unfold copy_region_into_framebuffer in
              rw (clamp_to_of_fits rect c.width c.height full w h v.wide.1 v.high.1)
                (rw full (rw (lt→ltb (length fb) (rgba_len c) (omega arith))))),
          (λ large. rw (copy_in_full v rect v.dirty_fits fb (omega arith) full)),
        )
]
