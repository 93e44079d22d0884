-- ===== src/Launch/Crash/Line.antt =====
-- launch/crash.rs: what a line of the log names: a pattern, an exception, a report of the virtual machine.
use rc_launcher.Base.{
  ℕ, Bool, false, ◌&&◌, ◌||◌, Option, none, some, List, [], ◌∷◌, ◌++◌, if◌then◌else◌, ◌==◌, leb,
  length, take,
}
use rc_launcher.Base.Text.{Text, codes, trim_end}
use rc_launcher.Launch.Path.{contains_path}
use rc_launcher.Launch.Text.{has_text, ends_with, split_whitespace, split_where}
use rc_launcher.Mods.Constraint.{is_whitespace, skip_end, has_char}

-- `MAX_EVIDENCE_LEN` and `MAX_EVIDENCE_LINES`
abbrev pub max_evidence_len : ℕ
max_evidence_len = 400

abbrev pub max_evidence_lines : ℕ
max_evidence_lines = 12

-- A text longer than the limit is cut and ends in `…`.
unfoldable pub truncate : Text → Text
truncate s = if leb (length s) max_evidence_len then s else take max_evidence_len s ++ (8230 ∷ [])

-- Whether a text contains one of the patterns.
unfoldable pub has_any : List Text → Text → Bool
has_any [] t = false
has_any (p ∷ ps) t = let later = has_any ps t in has_text p t || later

-- A token such as `java.io.IOException:`
abbrev pub names_exception : Text → Bool
names_exception token =
    let name = trim_end b':' token in
    (ends_with (codes "Exception") name || ends_with (codes "Error") name) && has_char b'.' name

unfoldable pub any_exception : List Text → Bool
any_exception [] = false
any_exception (token ∷ tokens) = let later = any_exception tokens in names_exception token || later

unfoldable pub extract_exception : Text → Text → Option Text
extract_exception line lower =
    if has_any (codes "exception in thread" ∷ codes "caused by:" ∷ []) lower
    then some line
    else if any_exception (split_whitespace line)
    then some line
    else none

-- The tokens of a line: between white space and quotes.
abbrev pub is_token_end : ℕ → Bool
is_token_end c = is_whitespace c || (c == b'"') || (c == b'\'')

abbrev pub is_trailing : ℕ → Bool
is_trailing c = (c == b'.') || (c == b',') || (c == b')')

unfoldable pub hs_err_of : List Text → List Text
hs_err_of [] = []
hs_err_of (token ∷ tokens) =
    let t = skip_end is_trailing token in
    let rest = hs_err_of tokens in
    if has_text (codes "hs_err_pid") t && ends_with (codes ".log") t then t ∷ rest else rest

unfoldable pub extract_hs_err_paths : Text → List Text
extract_hs_err_paths line = hs_err_of (split_where is_token_end line)

unfoldable pub add_files : List Text → List Text → List Text
add_files [] files = files
add_files (hs ∷ found) files =
    add_files found (if contains_path hs files then files else files ++ (hs ∷ []))
