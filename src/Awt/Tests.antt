-- ===== src/Awt/Tests.antt =====
-- Runs of the virtual desktop of launch/awt.rs on a screen of 3 by 2 pixels.
use rc_launcher.Base.{
  ◌+◌, ◌*◌, ◌≤◌, ◌<◌, ◌≡◌, ◌⊎◌, refl, none, some, List, [], ◌∷◌, ◌++◌, replicate, ok, err, arith,
}
use rc_launcher.Base.Int.{pos_part, neg_part}
use mathlib.Core.Option
use rc_launcher.Error.{launch}
use rc_launcher.Awt.Rect.{Rect, whole, area, is_empty, fits_in, damaged}
use rc_launcher.Awt.Rect.Cover.{Covers}
use rc_launcher.Awt.Frame.{AwtFrame, int_rgb, encode, decode, validate_dims}
use rc_launcher.Awt.Frame.Wire as Wire
use rc_launcher.Awt.Frame.Wire.{decode-IsValid}
use rc_launcher.Awt.Frame.Roundtrip.{decode-encode}
use rc_launcher.Awt.Canvas.{
  AwtCanvas, new, blit, submit, present_at, take_dirty, rgba_len, no_stats, opaque_black,
}
use rc_launcher.Awt.Canvas.Buffers.{IsValid}
use rc_launcher.Awt.Canvas.Cells.{shown}
use rc_launcher.Awt.Canvas.Steps.{
  Call, submit_frame, present_now, consume, resize_to, run, run-IsValid, submit-IsValid,
}
use rc_launcher.Awt.Canvas.Pixels.{payload_at, cell, submit-cell, present_at_lem}
use rc_launcher.Awt.Poll.{poll_frame_into_pooled}
use rc_launcher.Awt.Poll.Coherence.{written}
use rc_launcher.Awt.Poll.Shown.{frame, present, poll, ShowsAll, ui_call, ui_run, poll-ui_run}
use rc_launcher.Awt.Poll.Pooled.{poll_frame_into_pooled_lem}
use rc_launcher.Awt.Viewport.{Viewport, fit, fill_crop, placement}
use rc_launcher.Awt.Viewport.Bounds.{IsVisible, IsCentred, placement_fit, placement_fill_crop}

abbrev small : Rect
small = record { x = 1; y = 0; width = 2; height = 1 }

abbrev corner : Rect
corner = record { x = 0; y = 0; width = 2; height = 2 }

abbrev dot : AwtFrame
dot = record {
  seq = 7;
  width = 3;
  height = 2;
  format = int_rgb;
  damage = small;
  pixels = 5 ∷ 6 ∷ [];
}

abbrev fresh : AwtCanvas
fresh = record {
  width = 3;
  height = 2;
  back = replicate 6 opaque_black;
  front = replicate 6 opaque_black;
  pending = record { area_of = record { x = 0; y = 0; width = 0; height = 0 } };
  dirty = record { area_of = whole 3 2 };
  stats = no_stats;
  present_times = [];
}

fresh-new : new 3 2 ≡ ok fresh
unfolding new validate_dims
fresh-new = refl

abbrev history : List Call
history = submit_frame dot ∷ present_now 16 ∷ consume ∷ resize_to 0 9 ∷ submit_frame dot ∷ []

run-IsValid_example : IsValid (run history fresh)
run-IsValid_example = run-IsValid 3 2 fresh history fresh-new

fresh-IsValid : IsValid fresh
unfolding run
fresh-IsValid = run-IsValid 3 2 fresh [] fresh-new

poll-ui_run_example :
    let s = ui_run (frame dot ∷ present 16 ∷ poll ∷ frame dot ∷ []) (fresh, replicate 24 9) in
    let s' = ui_call s poll in ShowsAll s'.0 s'.1 × (s'.0.front ≡ s.0.front)
unfolding rgba_len
poll-ui_run_example =
    poll-ui_run 3 2 fresh (replicate 24 9) (frame dot ∷ present 16 ∷ poll ∷ frame dot ∷ [])
      fresh-new (omega arith)

dot-IsValid : Wire.IsValid dot
unfolding is_empty fits_in area
dot-IsValid = record {
  wide = (omega arith, omega arith);
  high = (omega arith, omega arith);
  damaged = refl;
  inside = refl;
  packed = refl;
}

decode-encode_example : decode (encode dot ++ 1 ∷ []) ≡ ok dot
decode-encode_example =
    decode-encode dot (1 ∷ []) dot-IsValid
      (record { seq = omega arith; pixels = (omega arith, (omega arith, tt)) })

decode-IsValid_example : Wire.IsValid dot
decode-IsValid_example = decode-IsValid (encode dot ++ 1 ∷ []) dot decode-encode_example

abbrev drawn : AwtCanvas
drawn = blit fresh dot

drawn-submit : submit fresh dot ≡ ok drawn
unfolding submit area is_empty fits_in
drawn-submit = refl

drawn-IsValid : IsValid drawn
drawn-IsValid = submit-IsValid fresh dot drawn-submit fresh-IsValid

submit-cell_example :
    (Covers small 1 0 → cell fresh drawn.back 1 0 ≡ Option.map (shown int_rgb) (payload_at dot 1 0))
    × (¬ Covers small 1 0 → cell fresh drawn.back 1 0 ≡ cell fresh fresh.back 1 0)
    × (drawn.front ≡ fresh.front)
submit-cell_example =
    submit-cell fresh drawn dot 1 0 fresh-IsValid drawn-submit (omega arith) (omega arith)

present_at_lem_example :
    ((present_at drawn 16).0.front ≡ drawn.back)
    × ((present_at drawn 16).0.back ≡ drawn.back)
    × ((present_at drawn 16).1 ≡ damaged drawn.pending)
    × (damaged (present_at drawn 16).0.pending ≡ none)
present_at_lem_example = present_at_lem drawn 16 drawn-IsValid

-- The canvas after the UI has read everything, and a frame that is drawn and published.
abbrev shown_once : AwtCanvas
shown_once = record fresh { dirty = record { area_of = small } }

shown_once-IsValid : IsValid shown_once
unfolding fits_in
shown_once-IsValid = record {
  wide = (omega arith, omega arith);
  high = (omega arith, omega arith);
  back_sized = refl;
  front_sized = refl;
  pending_fits = refl;
  dirty_fits = refl;
  agree = λ px py h k n. refl;
}

found : damaged shown_once.dirty ≡ some small
unfolding damaged
found = refl

poll_frame_into_pooled_lem_example :
    (area small < 3 * 2
      → poll_frame_into_pooled shown_once ≡ (shown_once, err (launch "RGBA framebuffer too small")))
    × (3 * 2 ≤ area small
        → poll_frame_into_pooled shown_once ≡ (
          (take_dirty shown_once).0,
          ok (
              some (record {
                buf = written shown_once small (replicate (area small * 4) 0);
                rect = small;
                len = area small * 4;
              })),
        ))
poll_frame_into_pooled_lem_example = poll_frame_into_pooled_lem shown_once shown_once-IsValid found

abbrev phone : Viewport
phone = record {
  screen_width = 800;
  screen_height = 600;
  surface_width = 1920;
  surface_height = 1080;
  mode = fit;
}

abbrev cropped : Viewport
cropped = record phone { mode = fill_crop }

phone-IsVisible : IsVisible phone
phone-IsVisible = record {
  screen_wide = omega arith;
  screen_high = omega arith;
  surface_wide = omega arith;
  surface_high = omega arith;
  wide = omega arith;
  high = omega arith;
}

cropped-IsVisible : IsVisible cropped
cropped-IsVisible = record {
  screen_wide = omega arith;
  screen_high = omega arith;
  surface_wide = omega arith;
  surface_high = omega arith;
  wide = omega arith;
  high = omega arith;
}

placement_fit_example :
    let p = placement phone in
    (0 < p.width)
    × (0 < p.height)
    × ((p.width ≡ phone.surface_width) ⊎ (p.height ≡ phone.surface_height))
    × IsCentred p.x p.width phone.surface_width
    × IsCentred p.y p.height phone.surface_height
placement_fit_example = placement_fit phone phone-IsVisible refl

placement_fill_crop_example :
    let p = placement cropped in
    (pos_part p.x ≡ 0)
    × (cropped.surface_width + neg_part p.x ≤ p.width)
    × (pos_part p.y ≡ 0)
    × (cropped.surface_height + neg_part p.y ≤ p.height)
    × ((p.width ≡ cropped.surface_width) ⊎ (p.height ≡ cropped.surface_height))
placement_fill_crop_example =
    placement_fill_crop cropped cropped-IsVisible refl (omega arith) (omega arith)
