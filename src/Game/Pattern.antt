-- ===== src/Game/Pattern.antt =====
-- The matcher of OS versions in game/platform.rs: a pattern is parsed into nodes, and a backtracking
-- matcher tries them on the text. A text is the list of the codes of its characters, so that an
-- index into it is the list that is left.
pub mod Language
use rc_launcher.Base.{
  ℕ, suc, Bool, true, false, ◌&&◌, ◌||◌, List, [], ◌∷◌, Option, none, some, leb, ◌==◌,
  if◌then◌else◌,
}
use rc_launcher.Base.Text.{Text}

-- `Tok`
pub data Tok : Type 0 where
  literal : ℕ → Tok
  any_char digit : Tok

pub data Quant : Type 0 where
  once star plus : Quant

pub record Node : Type 0 where
  pub tok : Tok
  pub quant : Quant

-- `is_ascii_digit`
abbrev pub is_digit : ℕ → Bool
is_digit c = leb b'0' c && leb c b'9'

unfoldable pub match_one : Tok → ℕ → Bool
match_one (literal c) ch = c == ch
match_one any_char ch = true
match_one digit ch = is_digit ch

-- Where the loop of `parse_pattern` is in a node: before it, after a backslash, or behind its token,
-- where it looks for a quantifier.
pub data Place : Type 0 where
  before after_backslash : Place
  behind : Tok → Place

-- The place after the first character of a node.
unfoldable pub begin_node : ℕ → Place
begin_node c =
    if c == b'\\' then after_backslash else behind (if c == b'.' then any_char else literal c)

-- The character after a backslash.
unfoldable pub escaped : ℕ → Tok
escaped c = if c == b'd' then digit else literal c

abbrev pub node : Tok → Quant → Node
node t q = record { tok = t; quant = q }

-- A backslash at the end of the pattern stands for itself.
unfoldable pub parse_at : Place → Text → List Node
parse_at before [] = []
parse_at after_backslash [] = node (literal b'\\') once ∷ []
parse_at (behind t) [] = node t once ∷ []
parse_at before (c ∷ rest) = parse_at (begin_node c) rest
parse_at after_backslash (c ∷ rest) = parse_at (behind (escaped c)) rest
parse_at (behind t) (c ∷ rest) =
    let fresh = parse_at before rest in
    let next = parse_at (begin_node c) rest in
    if c == b'*'
    then node t star ∷ fresh
    else if c == b'+'
    then node t plus ∷ fresh
    else node t once ∷ next

unfoldable pub parse_pattern : Text → List Node
unfolding parse_at begin_node escaped
parse_pattern = parse_at before

-- The loop over the end `k` of a repetition: `rest` is the match of the nodes after it.
unfoldable pub try_each : (Text → Bool) → Tok → Text → Bool
try_each rest tok [] = rest []
try_each rest tok (ch ∷ t) =
    let longer = try_each rest tok t in rest (ch ∷ t) || (match_one tok ch && longer)

unfoldable pub matches_at : List Node → Text → Bool
matches_at [] [] = true
matches_at [] (ch ∷ t) = false
matches_at (n ∷ ns) t = elim (n.quant) [
  | star ↦ try_each (matches_at ns) n.tok t
  | once ↦ elim t [ [] ↦ false | ch ∷ t' ↦ match_one n.tok ch && matches_at ns t' ]
  | plus ↦ elim t [ [] ↦ false | ch ∷ t' ↦ match_one n.tok ch && try_each (matches_at ns) n.tok t' ]
]

-- `strip_prefix('^').unwrap_or(pattern)`
abbrev pub strip_caret : Text → Text
strip_caret [] = []
strip_caret (c ∷ t) = if c == b'^' then t else c ∷ t

-- `strip_suffix('$')`
unfoldable pub strip_dollar : Text → Option Text
strip_dollar [] = none
strip_dollar (c ∷ []) = if c == b'$' then some [] else none
strip_dollar (c ∷ d ∷ t) = elim (strip_dollar (d ∷ t)) [ none ↦ none | some u ↦ some (c ∷ u) ]

-- Without a final `$` it is the pattern itself that is taken, with its `^`.
abbrev pub stripped : Text → Text
stripped regex = elim (strip_dollar (strip_caret regex)) [ none ↦ regex | some t ↦ t ]

unfoldable pub version_matches : Text → Text → Bool
version_matches regex version = matches_at (parse_pattern (stripped regex)) version
