-- ===== src/Launch/Text.antt =====
-- The operations on strings that rust/crates/rc-launcher-core/src/launch uses, on the codes of
-- their characters: searching, splitting, replacing, joining, and the digits of a number.
use rc_launcher.Base.{
  ℕ, zero, suc, ◌+◌, ◌/◌, ◌%◌, Bool, true, false, ◌||◌, Option, none, some, List, [], ◌∷◌, ◌++◌,
  if◌then◌else◌, ◌==◌, ltb, length, drop,
}
use rc_launcher.Base.Text.{Text, starts_with, on_head}
use rc_launcher.Mods.Constraint.{is_whitespace}

-- The part before the separator has one character more.
abbrev pub after_char : ℕ → Option (Text × Text) → Option (Text × Text)
after_char c none = none
after_char c (some (before, after)) = some (c ∷ before, after)

-- `str::find` of a character, with the text before it and the text after it
unfoldable pub split_once : ℕ → Text → Option (Text × Text)
split_once sep [] = none
split_once sep (c ∷ t) =
    let rest = split_once sep t in if c == sep then some ([], t) else after_char c rest

-- `str::contains` of a text
unfoldable pub has_text : Text → Text → Bool
has_text p [] = starts_with p []
has_text p (c ∷ t) = let later = has_text p t in starts_with p (c ∷ t) || later

-- `str::ends_with` of a text
unfoldable pub ends_with : Text → Text → Bool
ends_with p [] = starts_with p []
ends_with p (c ∷ t) =
    let later = ends_with p t in
    (if length p == length (c ∷ t) then starts_with p (c ∷ t) else false) || later

-- `str::replace` of a text that is not empty, from the left, on fuel: each round reads a character
-- at least.
unfoldable pub replace_fuel : ℕ → Text → Text → Text → Text
replace_fuel zero p new t = t
replace_fuel (suc n) p new [] = []
replace_fuel (suc n) p new (c ∷ t) = elim (starts_with p (c ∷ t)) [
  | true ↦ new ++ replace_fuel n p new (drop (length p) (c ∷ t))
  | false ↦ c ∷ replace_fuel n p new t
]

abbrev pub replace_text : Text → Text → Text → Text
replace_text p new t = replace_fuel (length t) p new t

-- `join` of a list of texts
unfoldable pub join_with : Text → List Text → Text
join_with sep [] = []
join_with sep (t ∷ []) = t
join_with sep (t ∷ u ∷ rest) = t ++ (sep ++ join_with sep (u ∷ rest))

-- The word that a character begins or goes on with.
abbrev pub grow : ℕ → Bool → List Text → List Text
grow c true [] = (c ∷ []) ∷ []
grow c true (w ∷ ws) = (c ∷ w) ∷ ws
grow c false ws = (c ∷ []) ∷ ws

-- Whether a text begins with a character of a word.
abbrev pub begins_word : Text → Bool
begins_word [] = false
begins_word (c ∷ t) = if is_whitespace c then false else true

-- `str::split_whitespace`
unfoldable pub split_whitespace : Text → List Text
split_whitespace [] = []
split_whitespace (c ∷ t) =
    let rest = split_whitespace t in if is_whitespace c then rest else grow c (begins_word t) rest

-- The digits of a number before the digits `acc`, on fuel: a number has fewer digits than its successor has
-- units.
unfoldable pub digits_fuel : ℕ → ℕ → Text → Text
digits_fuel zero k acc = acc
digits_fuel (suc n) k acc =
    let higher = digits_fuel n (k / 10) ((b'0' + k % 10) ∷ acc) in
    if ltb k 10 then (b'0' + k) ∷ acc else higher

-- `to_string` of an unsigned number
abbrev pub show_nat : ℕ → Text
show_nat k = digits_fuel (suc k) k []

-- `str::split` at the characters of a test
unfoldable pub split_where : (ℕ → Bool) → Text → List Text
split_where p [] = [] ∷ []
split_where p (c ∷ t) = let rest = split_where p t in if p c then [] ∷ rest else on_head c rest

-- The bytes of a character in UTF-8
unfoldable pub utf8_len : ℕ → ℕ
utf8_len c = if ltb c 128 then 1 else if ltb c 2048 then 2 else if ltb c 65536 then 3 else 4

-- `str::len`
unfoldable pub byte_len : Text → ℕ
byte_len [] = 0
byte_len (c ∷ t) = utf8_len c + byte_len t
