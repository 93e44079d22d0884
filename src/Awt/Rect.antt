-- ===== src/Awt/Rect.antt =====
-- `Rect` and `Damage` of launch/awt.rs. Coordinates are `u32`, kept as plain numbers: the edges
-- saturate as in the source, and every other operation of it stays in range.
pub mod Cover
use rc_launcher.Base.{
  ℕ, ◌+◌, ◌-◌, ◌*◌, ◌^◌, ◌≤◌, min, max, ◌≡◌, Bool, true, false, not, ◌&&◌, ◌||◌, Option, none, some,
  ltb, leb, ◌==◌, if◌then◌else◌,
}

abbrev pub u32_max : ℕ
u32_max = 2 ^ 32 - 1

-- `MAX_CANVAS_DIM`
abbrev pub max_canvas_dim : ℕ
max_canvas_dim = 8192

pub record Rect : Type 0 where
  pub x : ℕ
  pub y : ℕ
  pub width : ℕ
  pub height : ℕ

-- `Rect::default()`
abbrev pub no_rect : Rect
no_rect = record { x = 0; y = 0; width = 0; height = 0 }

abbrev pub whole : ℕ → ℕ → Rect
whole width height = record { x = 0; y = 0; width = width; height = height }

unfoldable pub is_empty : Rect → Bool
is_empty r = r.width == 0 || r.height == 0

unfoldable pub right : Rect → ℕ
right r = min (r.x + r.width) u32_max

unfoldable pub bottom : Rect → ℕ
bottom r = min (r.y + r.height) u32_max

unfoldable pub area : Rect → ℕ
area r = r.width * r.height

unfoldable pub union : Rect → Rect → Rect
unfolding is_empty right bottom
union a b =
    if is_empty a
    then b
    else if is_empty b
    then a
    else let x = min a.x b.x in
      let y = min a.y b.y in
      record {
        x = x;
        y = y;
        width = max (right a) (right b) - x;
        height = max (bottom a) (bottom b) - y;
      }

unfoldable pub intersect : Rect → Rect → Rect
unfolding right bottom
intersect a b =
    let x = max a.x b.x in
    let y = max a.y b.y in
    let right' = min (right a) (right b) in
    let bottom' = min (bottom a) (bottom b) in
    if leb right' x || leb bottom' y
    then no_rect
    else record { x = x; y = y; width = right' - x; height = bottom' - y }

unfoldable pub clamp_to : Rect → ℕ → ℕ → Rect
unfolding intersect
clamp_to r width height = intersect r (whole width height)

unfoldable pub fits_in : Rect → ℕ → ℕ → Bool
unfolding right bottom
fits_in r width height = leb (right r) width && leb (bottom r) height

-- `Damage`: one coalesced rectangle
pub record Damage : Type 0 where
  pub area_of : Rect

abbrev pub no_damage : Damage
no_damage = record { area_of = no_rect }

abbrev pub full_damage : ℕ → ℕ → Damage
full_damage width height = record { area_of = whole width height }

-- `Damage::add`
unfoldable pub add_damage : Damage → Rect → Damage
unfolding union
add_damage d r = record { area_of = union d.area_of r }

-- `Damage::is_empty`
unfoldable pub is_clean : Damage → Bool
unfolding is_empty
is_clean d = is_empty d.area_of

-- `Damage::rect`
unfoldable pub damaged : Damage → Option Rect
unfolding is_clean
damaged d = if is_clean d then none else some d.area_of

-- `Damage::take`: the damage, and the clean state that is left
unfoldable pub take_damage : Damage → Option Rect × Damage
unfolding damaged
take_damage d = (damaged d, no_damage)
