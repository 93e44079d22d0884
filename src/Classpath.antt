-- ===== src/Classpath.antt =====
-- launch/classpath.rs: the order of Maven versions by which duplicate libraries are collapsed.
pub mod Swap
mod Tests
use Prim.Native.Nat.{compare, Ordering, lt, eq, gt}
use rc_launcher.Base.{
  ℕ, ◌+◌, ◌-◌, ◌*◌, ◌^◌, Bool, true, false, not, ◌&&◌, ◌||◌, Option, none, some, List, [], ◌∷◌, map,
  leb, ltb, ◌==◌, if◌then◌else◌,
}
use rc_launcher.Base.Text.{Text, codes, starts_with, on_head}
use rc_launcher.Download.Manager.{lower}

-- The separators `.`, `-`, `_` and `+`.
abbrev pub is_separator : ℕ → Bool
is_separator c = (c == b'.') || (c == b'-') || (c == b'_') || (c == b'+')

-- `split` at the separators
unfoldable pub split_pieces : Text → List Text
split_pieces [] = [] ∷ []
split_pieces (c ∷ t) =
    let rest = split_pieces t in if is_separator c then [] ∷ rest else on_head c rest

unfoldable pub without_empty : List Text → List Text
without_empty [] = []
without_empty ([] ∷ ts) = without_empty ts
without_empty ((c ∷ t) ∷ ts) = (c ∷ t) ∷ without_empty ts

abbrev pub segments : Text → List Text
segments t = without_empty (split_pieces t)

-- `parse::<u64>()` of a segment, from the value of the digits before; a `+` is a separator.
unfoldable pub parse_u64 : ℕ → Text → Option ℕ
parse_u64 n [] = if ltb n (2 ^ 64) then some n else none
parse_u64 n (c ∷ t) =
    let rest = parse_u64 (10 * n + (c - b'0')) t in if leb b'0' c && leb c b'9' then rest else none

abbrev pub to_lower : Text → Text
to_lower = map lower

-- `cmp` of two strings
unfoldable pub compare_texts : Text → Text → Ordering
compare_texts [] [] = eq
compare_texts [] (y ∷ ys) = lt
compare_texts (x ∷ xs) [] = gt
compare_texts (x ∷ xs) (y ∷ ys) = elim (compare x y) [
  | lt ↦ lt
  | eq ↦ compare_texts xs ys
  | gt ↦ gt
]

-- `is_prerelease`: each of the markers is a prefix of itself, and what starts with one is no number.
unfoldable pub is_prerelease : Text → Bool
is_prerelease s =
    let l = to_lower s in
    starts_with (codes "alpha") l
    || starts_with (codes "beta") l
    || starts_with (codes "rc") l
    || starts_with (codes "snapshot") l
    || starts_with (codes "pre") l
    || starts_with (codes "m") l

-- Two segments, with the numbers that they are.
unfoldable pub compare_parsed : Option ℕ → Option ℕ → Text → Text → Ordering
compare_parsed (some n) (some m) x y = compare n m
compare_parsed (some n) none x y = gt
compare_parsed none (some m) x y = lt
compare_parsed none none x y = compare_texts (to_lower x) (to_lower y)

abbrev pub compare_segments : Text → Text → Ordering
compare_segments x y = compare_parsed (parse_u64 0 x) (parse_u64 0 y) x y

-- The loop over the segments.
unfoldable pub compare_all : List Text → List Text → Ordering
compare_all [] [] = eq
compare_all (x ∷ xs) [] = if is_prerelease x then lt else gt
compare_all [] (y ∷ ys) = if is_prerelease y then gt else lt
compare_all (x ∷ xs) (y ∷ ys) = elim (compare_segments x y) [
  | lt ↦ lt
  | eq ↦ compare_all xs ys
  | gt ↦ gt
]

unfoldable pub compare_maven_versions : Text → Text → Ordering
compare_maven_versions a b = compare_all (segments a) (segments b)
