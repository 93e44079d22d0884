-- ===== src/Awt/Poll.antt =====
-- How the UI reads the canvas, `poll_frame_into` and `poll_frame_into_pooled` of launch/fakefx.rs.
-- Each returns the canvas as it leaves it, and what it has copied.
pub mod Coherence
pub mod Shown
pub mod Pooled
use rc_launcher.Base.{ℕ, ◌*◌, Option, none, some, List, replicate, ok, err, ◌>>=◌}
use rc_launcher.Error.{RcResult}
use rc_launcher.Awt.Rect.{Rect, damaged}
use rc_launcher.Awt.Canvas.{AwtCanvas, take_dirty, copy_region_into_framebuffer}

-- What a poll that found damage returns: the canvas, the framebuffer, the rectangle, and the
-- number of bytes that were rewritten.
pub record Polled : Type 0 where
  pub canvas : AwtCanvas
  pub framebuffer : List ℕ
  pub rect : Rect
  pub written : ℕ

unfoldable pub poll_frame_into : AwtCanvas → List ℕ → RcResult (Option Polled)
poll_frame_into c dst = elim (damaged c.dirty) [
  | none ↦ ok none
  | some rect ↦ do
    (dst', n) ← copy_region_into_framebuffer c rect dst
    ok (some (record { canvas = (take_dirty c).0; framebuffer = dst'; rect = rect; written = n }))
]

-- `PooledFrame`: the buffer, the rectangle, and the number of bytes that were written.
pub record PooledFrame : Type 0 where
  pub buf : List ℕ
  pub rect : Rect
  pub len : ℕ

-- What follows the copy: its error leaves the canvas, else the damage is taken.
unfoldable pub take_copied :
    AwtCanvas → Rect → RcResult (List ℕ × ℕ) → AwtCanvas × RcResult (Option PooledFrame)
take_copied c rect (err e) = (c, err e)
take_copied c rect (ok (dst, n)) =
    ((take_dirty c).0, ok (some (record { buf = dst; rect = rect; len = n })))

-- The canvas afterwards, and the result. `buf.clear(); buf.fit(need)`: a buffer from the pool is
-- emptied, and filled up with zeros.
unfoldable pub poll_frame_into_pooled : AwtCanvas → AwtCanvas × RcResult (Option PooledFrame)
poll_frame_into_pooled c = elim (damaged c.dirty) [
  | none ↦ (c, ok none)
  | some rect ↦
      take_copied c rect
        (copy_region_into_framebuffer c rect (replicate (rect.width * rect.height * 4) 0))
]
