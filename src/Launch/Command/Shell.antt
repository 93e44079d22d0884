-- ===== src/Launch/Command/Shell.antt =====
-- The shell form of a command in launch/command.rs, read back by the rules that POSIX gives for words:
-- quotes, the backslash, and the characters that have a meaning when they stand outside quotes.
use mathlib.Core.List.{append_assoc, append-nil}
use rc_launcher.Base.{
  ℕ, ◌≡◌, refl, ap, sym, ◌∙◌, Bool, true, false, Option, none, some, List, [], ◌∷◌, ◌++◌, map,
  arith, Bool-cases, inl, inr, both_true, if◌then◌else◌, ◌==◌, ==_iff,
}
use rc_launcher.Base.Text.{Text, codes}
use rc_launcher.Launch.Command.{
  LaunchCommand, command_args, redact_with, is_safe, all_safe, escape_quotes, shell_quote,
  to_shell_string,
}
use rc_launcher.Launch.Text.{join_with}
use rc_launcher.Mods.Constraint.{has_char}

-- The characters with a meaning outside quotes, the backslash, the quote and the space among them.
unfoldable pub is_special : ℕ → Bool
is_special c = has_char c (codes "|&;<>()$`\\\"'*?[]#~!{} \t\n")

abbrev grow_word : Option Text → Text → Option Text
grow_word none t = some t
grow_word (some w) t = some (w ++ t)

abbrev end_word : Option Text → Option (List Text) → Option (List Text)
end_word none rest = rest
end_word (some w) none = none
end_word (some w) (some ws) = some (w ∷ ws)

-- Where a reader of words stands: outside quotes, behind a backslash, inside quotes.
pub data Mode : Type 0 where
  outside escaped inside : Mode

-- What an unquoted character is.
pub data Kind : Type 0 where
  space quote backslash refused plain : Kind

unfoldable pub kind_of : ℕ → Kind
kind_of c =
    if c == b' '
    then space
    else if c == b'\''
    then quote
    else if c == b'\\'
    then backslash
    else if is_special c
    then refused
    else plain

-- The words of a text, given the word so far; none if a quote stays open or a special character is not
-- quoted.
unfoldable pub read : Text → Mode → Option Text → Option (List Text)
read [] outside w = end_word w (some [])
read [] escaped w = none
read [] inside w = none
read (c ∷ t) outside w = elim (kind_of c) [
  | space ↦ end_word w (read t outside none)
  | quote ↦ read t inside (grow_word w [])
  | backslash ↦ read t escaped w
  | refused ↦ none
  | plain ↦ read t outside (grow_word w (c ∷ []))
]
read (c ∷ t) escaped w = read t outside (grow_word w (c ∷ []))
read (c ∷ t) inside w = elim (c == b'\'') [
  | true ↦ read t outside w
  | false ↦ read t inside (grow_word w (c ∷ []))
]

unfoldable pub shell_words : Text → Option (List Text)
shell_words t = read t outside none

is_safe-plain : (c : ℕ) → is_safe c ≡ true → kind_of c ≡ plain
unfolding kind_of is_special has_char
is_safe-plain c h = ground (arith, h)

read-plain :
    (c : ℕ) (t : Text) (w : Option Text)
    → kind_of c ≡ plain
    → read (c ∷ t) outside w ≡ read t outside (grow_word w (c ∷ []))
unfolding read
read-plain c t w h = rw (read, h) refl

all_safe-cons :
    (c : ℕ) (s : Text) → all_safe (c ∷ s) ≡ true → (is_safe c ≡ true) × (all_safe s ≡ true)
unfolding all_safe
all_safe-cons c s h = both_true (is_safe c) (all_safe s) h

read-safe :
    (s t w : Text)
    → all_safe s ≡ true
    → read (s ++ t) outside (some w) ≡ read t outside (some (w ++ s))
read-safe [] t w h = ap (λ u. read t outside (some u)) (sym (append-nil w))
read-safe (c ∷ s) t w h =
    let b = all_safe-cons c s h in
    read-plain c (s ++ t) (some w) (is_safe-plain c b.0)
    ∙ (read-safe s t (w ++ (c ∷ [])) b.1
        ∙ ap (λ u. read t outside (some u)) (append_assoc w (c ∷ []) s))

read-inside :
    (c : ℕ) (t w : Text)
    → (c == b'\'') ≡ false
    → read (c ∷ t) inside (some w) ≡ read t inside (some (w ++ (c ∷ [])))
unfolding read
read-inside c t w h = rw (read, h) refl

-- A quoted quote: the quotes close, and open again behind it.
read-quote :
    (t w : Text)
    → read (b'\'' ∷ b'\\' ∷ b'\'' ∷ b'\'' ∷ t) inside (some w)
      ≡ read t inside (some (w ++ (b'\'' ∷ [])))
unfolding read kind_of
read-quote t w = ap (λ u. read t inside (some u)) (append-nil (w ++ (b'\'' ∷ [])))

read-escape_quotes :
    (s t w : Text)
    → read (escape_quotes s ++ (b'\'' ∷ t)) inside (some w) ≡ read t outside (some (w ++ s))
unfolding escape_quotes read kind_of
read-escape_quotes [] t w = ap (λ u. read t outside (some u)) (sym (append-nil w))
read-escape_quotes (c ∷ s) t w = elim (Bool-cases (c == b'\'')) [
  | inl q ↦
      let e = (==_iff c b'\'').0 q in
      rw (q) (
        read-quote (escape_quotes s ++ (b'\'' ∷ t)) w
        ∙ (read-escape_quotes s t (w ++ (b'\'' ∷ []))
            ∙ ap (λ u. read t outside (some u))
                (append_assoc w (b'\'' ∷ []) s ∙ ap (λ d. w ++ (d ∷ s)) (sym e))))
  | inr q ↦ rw (q) (
      read-inside c (escape_quotes s ++ (b'\'' ∷ t)) w q
      ∙ (read-escape_quotes s t (w ++ (c ∷ []))
          ∙ ap (λ u. read t outside (some u)) (append_assoc w (c ∷ []) s)))
]

read-shell_quote : (s t : Text) → read (shell_quote s ++ t) outside none ≡ read t outside (some s)
unfolding shell_quote read escape_quotes kind_of
read-shell_quote [] t = refl
read-shell_quote (c ∷ s) t = elim (Bool-cases (all_safe (c ∷ s))) [
  | inl b ↦
      let a = all_safe-cons c s b in
      rw (b) (read-plain c (s ++ t) none (is_safe-plain c a.0) ∙ read-safe s t (c ∷ []) a.1)
  | inr b ↦ rw (b) (
      ap (λ u. read u inside (some [])) (append_assoc (escape_quotes (c ∷ s)) (b'\'' ∷ []) t)
      ∙ read-escape_quotes (c ∷ s) t [])
]

read-join_with :
    (w : Text) (ws : List Text)
    → read (join_with (codes " ") (map shell_quote (w ∷ ws))) outside none ≡ some (w ∷ ws)
unfolding join_with read kind_of
read-join_with w [] =
    ap (λ t. read t outside none) (sym (append-nil (shell_quote w))) ∙ read-shell_quote w []
read-join_with w (v ∷ ws) =
    read-shell_quote w (b' ' ∷ join_with (codes " ") (map shell_quote (v ∷ ws)))
    ∙ ap (end_word (some w)) (read-join_with v ws)

map-map : (f g : Text → Text) (ts : List Text) → map (λ t. f (g t)) ts ≡ map f (map g ts)
map-map f g [] = refl
map-map f g (t ∷ ts) = ap (λ us. f (g t) ∷ us) (map-map f g ts)

-- The shell form of a command is read back as its program and its redacted arguments, one word each,
-- and leaves no special character outside quotes.
pub shell_words-to_shell_string :
    (c : LaunchCommand)
    → shell_words (to_shell_string c)
      ≡ some (c.program ∷ map (redact_with c.secrets) (command_args c))
unfolding shell_words to_shell_string
shell_words-to_shell_string c =
    let redact = redact_with c.secrets in
    ap (λ ts. read (join_with (codes " ") (shell_quote c.program ∷ ts)) outside none)
      (map-map shell_quote redact (command_args c))
    ∙ read-join_with c.program (map redact (command_args c))
