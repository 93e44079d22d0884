-- ===== src/Launch/Command.antt =====
-- launch/command.rs: the assembled command line, its check, its redaction and its form for a shell.
pub mod Redact
pub mod Shell
use rc_launcher.Base.{
  ℕ, Bool, true, false, not, ◌&&◌, ◌||◌, Option, none, some, List, [], ◌∷◌, ◌++◌, map, ok, err,
  ◌>>=◌, ◌>>◌, if◌then◌else◌, ◌==◌, leb,
}
use rc_launcher.Base.Text.{Text, codes, text_eq, contains, starts_with}
use rc_launcher.Error.{RcResult, launch}
use rc_launcher.Launch.Options.{refuse_if}
use rc_launcher.Launch.Path.{is_empty_text}
use rc_launcher.Launch.Text.{has_text, replace_text, join_with, split_once, byte_len}
use rc_launcher.Mods.Constraint.{trim, is_ascii_digit, has_char}

pub record LaunchCommand : Type 0 where
  pub program : Text
  pub jvm_args : List Text
  pub main_class : Text
  pub game_args : List Text
  pub working_dir : Text
  pub env : List (Text × Text)
  pub version_id : Text
  pub notes : List Text
  pub secrets : List Text

-- `LaunchCommand::args`
unfoldable pub command_args : LaunchCommand → List Text
command_args c = c.jvm_args ++ (c.main_class ∷ c.game_args)

unfoldable pub redact_with : List Text → Text → Text
redact_with [] s = s
redact_with (secret ∷ secrets) s = redact_with secrets (
    if leb 8 (byte_len secret) && has_text secret s
    then replace_text secret (codes "<redacted>") s
    else s)

abbrev pub is_ascii_alphanumeric : ℕ → Bool
is_ascii_alphanumeric c =
    is_ascii_digit c || (leb b'a' c && leb c b'z') || (leb b'A' c && leb c b'Z')

-- A character that needs no quotes.
abbrev pub is_safe : ℕ → Bool
is_safe c = is_ascii_alphanumeric c || has_char c (codes "._-+=/:,@%")

unfoldable pub all_safe : Text → Bool
all_safe [] = true
all_safe (c ∷ t) = is_safe c && all_safe t

-- `replace('\'', r"'\''")`
unfoldable pub escape_quotes : Text → Text
escape_quotes [] = []
escape_quotes (c ∷ t) =
    let rest = escape_quotes t in
    if c == b'\'' then b'\'' ∷ b'\\' ∷ b'\'' ∷ b'\'' ∷ rest else c ∷ rest

unfoldable pub shell_quote : Text → Text
shell_quote s =
    if not (is_empty_text s) && all_safe s then s else b'\'' ∷ (escape_quotes s ++ (b'\'' ∷ []))

-- `LaunchCommand::to_shell_string`
unfoldable pub to_shell_string : LaunchCommand → Text
to_shell_string c =
    join_with (codes " ")
      (shell_quote c.program ∷ map (λ a. shell_quote (redact_with c.secrets a)) (command_args c))

-- `CLASSPATH_FLAGS.contains(..)`
unfoldable pub is_classpath_flag : Text → Bool
is_classpath_flag a = contains a (codes "-cp" ∷ codes "-classpath" ∷ codes "--class-path" ∷ [])

unfoldable pub has_classpath_flag : List Text → Bool
has_classpath_flag [] = false
has_classpath_flag (a ∷ args) = let later = has_classpath_flag args in is_classpath_flag a || later

unfoldable pub any_placeholder : List Text → Bool
any_placeholder [] = false
any_placeholder (a ∷ args) = let later = any_placeholder args in has_text (codes "${") a || later

-- `LaunchCommand::validate`
unfoldable pub validate_command : LaunchCommand → RcResult (Unit {0})
validate_command c =
    refuse_if (is_empty_text (trim c.main_class)) "main class is empty"
    >> (refuse_if (not (has_classpath_flag c.jvm_args)) "command has no -cp"
        >> refuse_if (any_placeholder (command_args c)) "unresolved placeholder in argument")

abbrev pub before_equals : Option (Text × Text) → Text → Text
before_equals none arg = arg
before_equals (some (key, value)) arg = key

unfoldable pub property_key : Text → Option Text
property_key arg =
    if starts_with (codes "-D") arg then some (before_equals (split_once b'=' arg) arg) else none
