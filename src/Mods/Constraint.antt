-- ===== src/Mods/Constraint.antt =====
-- mods/constraint.rs: version constraints. The ranges of the crate semver are a parameter: their
-- parser, and which versions a range holds.
use rc_launcher.Base.{
  ℕ, ◌+◌, ◌-◌, ◌*◌, ◌^◌, Bool, false, not, ◌&&◌, ◌||◌, Option, none, some, List, [], ◌∷◌, ◌++◌, ok,
  err, leb, ltb, ◌==◌, if◌then◌else◌,
}
use rc_launcher.Base.Text.{Text, codes, split_on, starts_with}
use rc_launcher.Error.{RcResult, other}

-- `semver::Version`, as `Version::new` makes it
pub record Version : Type 0 where
  pub major : ℕ
  pub minor : ℕ
  pub patch : ℕ

-- What the code uses of `semver::VersionReq`.
pub record Semver (Req : Type 0) : Type 0 where
  pub parse : Text → Option Req
  pub holds : Req → Version → Bool

pub record VersionConstraint (Req : Type 0) : Type 0 where
  pub raw : Text
  pub req : Req

-- `char::is_whitespace`
abbrev pub is_whitespace : ℕ → Bool
is_whitespace c =
    (leb 9 c && leb c 13)
    || (c == 32)
    || (c == 133)
    || (c == 160)
    || (c == 5760)
    || (leb 8192 c && leb c 8202)
    || (c == 8232)
    || (c == 8233)
    || (c == 8239)
    || (c == 8287)
    || (c == 12288)

-- `trim_start_matches` of the characters of a test
unfoldable pub skip_start : (ℕ → Bool) → Text → Text
skip_start p [] = []
skip_start p (c ∷ t) = let rest = skip_start p t in if p c then rest else c ∷ t

-- `trim_end_matches` of the characters of a test
unfoldable pub skip_end : (ℕ → Bool) → Text → Text
skip_end p [] = []
skip_end p (c ∷ t) = elim (skip_end p t) [ [] ↦ if p c then [] else c ∷ [] | d ∷ u ↦ c ∷ d ∷ u ]

-- `str::trim`
abbrev pub trim : Text → Text
trim t = skip_start is_whitespace (skip_end is_whitespace t)

abbrev pub is_ascii_digit : ℕ → Bool
is_ascii_digit c = leb b'0' c && leb c b'9'

-- `take_while` of the digits and dots
unfoldable pub numeric : Text → Text
numeric [] = []
numeric (c ∷ t) = let rest = numeric t in if is_ascii_digit c || (c == b'.') then c ∷ rest else []

-- `parse::<u64>()` of digits, from the value of those before them
unfoldable pub parse_digits : ℕ → Text → Option ℕ
parse_digits n [] = if ltb n (2 ^ 64) then some n else none
parse_digits n (c ∷ t) = parse_digits (10 * n + (c - b'0')) t

-- `filter`, `map` and `collect` of the parts between the dots
unfoldable pub parse_parts : List Text → Option (List ℕ)
parse_parts [] = some []
parse_parts ([] ∷ ts) = parse_parts ts
parse_parts ((c ∷ t) ∷ ts) = elim (parse_digits 0 (c ∷ t)) [
  | none ↦ none
  | some n ↦ elim (parse_parts ts) [ none ↦ none | some ns ↦ some (n ∷ ns) ]
]

-- The first three parts, with zeros where there are fewer.
unfoldable pub version_of : List ℕ → Option Version
version_of [] = none
version_of (a ∷ []) = some (record { major = a; minor = 0; patch = 0 })
version_of (a ∷ b ∷ []) = some (record { major = a; minor = b; patch = 0 })
version_of (a ∷ b ∷ c ∷ _) = some (record { major = a; minor = b; patch = c })

-- `coerce_mc_version` of a trimmed text
unfoldable pub coerce_trimmed : Text → Option Version
coerce_trimmed [] = none
coerce_trimmed (c ∷ t) = elim (parse_parts (split_on b'.' (numeric (c ∷ t)))) [
  | none ↦ none
  | some ns ↦ version_of ns
]

unfoldable pub coerce_mc_version : Text → Option Version
coerce_mc_version s = coerce_trimmed (trim s)

unfoldable pub has_char : ℕ → Text → Bool
has_char c [] = false
has_char c (d ∷ t) = let later = has_char c t in (c == d) || later

-- `starts_with(['>', '<', '=', '^', '~', '*'])`
abbrev pub starts_with_operator : Text → Bool
starts_with_operator [] = false
starts_with_operator (c ∷ t) =
    (c == b'>') || (c == b'<') || (c == b'=') || (c == b'^') || (c == b'~') || (c == b'*')

unfoldable pub ends_with_bracket : Text → Bool
ends_with_bracket [] = false
ends_with_bracket (c ∷ []) = c == b']'
ends_with_bracket (c ∷ d ∷ t) = ends_with_bracket (d ∷ t)

-- The first two of the trimmed pieces between the commas.
abbrev pub ends : List Text → Text × Text
ends [] = ([], [])
ends (a ∷ []) = (trim a, [])
ends (a ∷ b ∷ _) = (trim a, trim b)

-- The requirement for a lower and an upper end, empty where there is none.
unfoldable pub interval : Bool → Bool → Text → Text → Text
interval lower_in upper_in [] [] = codes "*"
interval lower_in upper_in (c ∷ lower) [] =
    (if lower_in then codes ">=" else codes ">") ++ (c ∷ lower)
interval lower_in upper_in [] (d ∷ upper) =
    (if upper_in then codes "<=" else codes "<") ++ (d ∷ upper)
interval lower_in upper_in (c ∷ lower) (d ∷ upper) =
    ((if lower_in then codes ">=" else codes ">") ++ (c ∷ lower))
    ++ (b',' ∷ ((if upper_in then codes "<=" else codes "<") ++ (d ∷ upper)))

-- What is between the brackets.
abbrev pub body_of : Text → Text
body_of s =
    skip_end (λ c. (c == b']') || (c == b')')) (skip_start (λ c. (c == b'[') || (c == b'(')) s)

-- The requirement for a text with brackets or commas, of that body.
unfoldable pub convert_body : Text → Text → Text
convert_body s body =
    let (lower, upper) = ends (split_on b',' body) in
    if has_char b',' body
    then interval (starts_with (codes "[") s) (ends_with_bracket s) lower upper
    else b'=' ∷ body

-- `convert_maven_range` of a trimmed text
unfoldable pub convert_trimmed : Text → Text
convert_trimmed s =
    if not (has_char b'[' s) && (not (has_char b'(' s) && not (has_char b',' s))
    then (if starts_with_operator s then s else b'=' ∷ s)
    else convert_body s (body_of s)

unfoldable pub convert_maven_range : Text → Text
convert_maven_range s = convert_trimmed (trim s)

module _ {Req : Type 0} (sem : Semver Req) where
  -- `VersionConstraint::parse` of a trimmed text
  unfoldable pub parse_trimmed : Text → RcResult (VersionConstraint Req)
  parse_trimmed [] = err (other "empty version constraint")
  parse_trimmed (c ∷ t) = elim (sem.parse (convert_maven_range (c ∷ t))) [
    | none ↦ err (other "invalid version constraint")
    | some req ↦ ok (record { raw = c ∷ t; req = req })
  ]

  -- `VersionConstraint::parse`
  unfoldable pub parse_constraint : Text → RcResult (VersionConstraint Req)
  parse_constraint s = parse_trimmed (trim s)

  -- `VersionConstraint::matches`
  unfoldable pub constraint_matches : VersionConstraint Req → Text → Bool
  constraint_matches c version = elim (coerce_mc_version version) [
    | none ↦ false
    | some v ↦ sem.holds c.req v
  ]
