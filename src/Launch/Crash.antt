-- ===== src/Launch/Crash.antt =====
-- launch/crash.rs: the diagnosis of a run from its exit code, its signal and its log. A number of the
-- operating system is an integer; a path is a text until it is compared.
pub mod Line
pub mod Rules
pub mod Verdict
pub mod Evidence
use rc_launcher.Launch.Crash.Line.{
  max_evidence_len, max_evidence_lines, truncate, has_any, names_exception, any_exception,
  extract_exception, is_token_end, is_trailing, hs_err_of, extract_hs_err_paths, add_files,
}
use rc_launcher.Launch.Crash.Rules.{
  CrashCategory, category_id, CrashRule, rules, clean_exit, user_terminated, killed_by_system,
  out_of_memory, unsupported_java_version, missing_native_library, graphics_failure, native_crash,
  corrupted_file, missing_main_class, authentication_failure, disk_full, permission_denied,
  mod_loader_failure, game_error, unknown,
}
use rc_launcher.Base.{
  ℕ, zero, suc, Bool, true, false, not, ◌&&◌, ◌||◌, Option, none, some, List, [], ◌∷◌, ◌++◌, map,
  if◌then◌else◌, ◌==◌, ltb, leb, length, take, get_elem?, String,
}
use rc_launcher.Base.Int.{ℤ, pos, negsuc}
use rc_launcher.Base.Text.{Text, codes, text_eq, contains, trim_end}
use rc_launcher.Classpath.{to_lower}
use rc_launcher.Launch.Path.{contains_path}
use rc_launcher.Launch.Text.{has_text, ends_with, split_whitespace, split_where}
use rc_launcher.Mods.Constraint.{trim, is_whitespace, skip_end, has_char}

-- `sig == n` of an `i32` and a literal
abbrev pub is_number : ℕ → ℤ → Bool
is_number n (pos m) = m == n
is_number n (negsuc m) = false

unfoldable pub signal_name : ℤ → Option Text
signal_name sig =
    if is_number 2 sig
    then some (codes "SIGINT")
    else if is_number 4 sig
    then some (codes "SIGILL")
    else if is_number 6 sig
    then some (codes "SIGABRT")
    else if is_number 7 sig
    then some (codes "SIGBUS")
    else if is_number 8 sig
    then some (codes "SIGFPE")
    else if is_number 9 sig
    then some (codes "SIGKILL")
    else if is_number 11 sig
    then some (codes "SIGSEGV")
    else if is_number 13 sig
    then some (codes "SIGPIPE")
    else if is_number 15 sig
    then some (codes "SIGTERM")
    else none

pub record CrashReport : Type 0 where
  pub category : CrashCategory
  pub exit_code : Option ℤ
  pub signal : Option ℤ
  pub signal_name : Option Text
  pub evidence : List Text
  pub exception : Option Text
  pub hs_err_files : List Text

-- What the scan of the log has found: `best`, and the fields of the report that it fills.
pub record Scan : Type 0 where
  pub best : Option ℕ
  pub evidence : List Text
  pub exception : Option Text
  pub hs_err_files : List Text

-- The index of the first rule with a pattern that the line has.
abbrev pub next_index : Option ℕ → Option ℕ
next_index none = none
next_index (some i) = some (suc i)

unfoldable pub find_rule : List CrashRule → Text → Option ℕ
find_rule [] lower = none
find_rule (r ∷ rs) lower =
    let later = find_rule rs lower in if has_any r.patterns lower then some 0 else next_index later

-- `best.is_none_or(|b| idx < b)`
abbrev pub better : ℕ → Option ℕ → Option ℕ
better idx none = some idx
better idx (some b) = if ltb idx b then some idx else some b

unfoldable pub add_evidence : Text → List Text → List Text
add_evidence t ts =
    if ltb (length ts) max_evidence_lines && not (contains t ts) then ts ++ (t ∷ []) else ts

-- A rule that applies to the line, or none.
unfoldable pub note_rule : Option ℕ → Text → Scan → Scan
note_rule none line s = s
note_rule (some idx) line s = record s {
  best = better idx s.best;
  evidence = add_evidence (truncate line) s.evidence;
}

abbrev pub first_exception : Option Text → Option Text → Option Text
first_exception (some e) found = some e
first_exception none none = none
first_exception none (some e) = some (truncate e)

-- The body of the loop, for a line that is not blank.
unfoldable pub scan_trimmed : List CrashRule → Text → Scan → Scan
scan_trimmed rs line s =
    let lower = to_lower line in
    note_rule (find_rule rs lower) line (record s {
      exception = first_exception s.exception (extract_exception line lower);
      hs_err_files = add_files (extract_hs_err_paths line) s.hs_err_files;
    })

abbrev pub is_blank : Text → Bool
is_blank [] = true
is_blank (c ∷ t) = false

unfoldable pub scan_line : List CrashRule → Text → Scan → Scan
scan_line rs raw s = if is_blank (trim raw) then s else scan_trimmed rs (trim raw) s

unfoldable pub scan_lines : List CrashRule → List Text → Scan → Scan
scan_lines rs [] s = s
scan_lines rs (raw ∷ lines) s = scan_lines rs lines (scan_line rs raw s)

-- `best.map(|b| RULES[b].category)`; no index is out of range.
abbrev pub category_of : Option CrashRule → Option CrashCategory
category_of none = none
category_of (some r) = some r.category

abbrev pub category_at : List CrashRule → Option ℕ → Option CrashCategory
category_at rs none = none
category_at rs (some b) = category_of (get_elem? rs b)

-- What a native signal means, given what the log names.
unfoldable pub native_cause : Option CrashCategory → CrashCategory
native_cause (some out_of_memory) = out_of_memory
native_cause (some graphics_failure) = graphics_failure
native_cause (some missing_native_library) = missing_native_library
native_cause _ = native_crash

abbrev pub named_cause : Option CrashCategory → CrashCategory
named_cause none = unknown
named_cause (some c) = c

-- The `match` on the signal
unfoldable pub signal_cause : Option ℤ → Option CrashCategory → CrashCategory
signal_cause none cause = named_cause cause
signal_cause (some sig) cause =
    if is_number 15 sig || is_number 2 sig
    then user_terminated
    else if is_number 9 sig
    then killed_by_system
    else if is_number 4 sig
        || is_number 6 sig
        || is_number 7 sig
        || is_number 8 sig
        || is_number 11 sig
    then native_cause cause
    else named_cause cause

-- `signal.is_none() && code == Some(0)`
unfoldable pub exited_cleanly : Option ℤ → Option ℤ → Bool
exited_cleanly (some code) none = is_number 0 code
exited_cleanly _ _ = false

unfoldable pub verdict : Option ℤ → Option ℤ → Bool → Option CrashCategory → CrashCategory
verdict code signal requested_stop cause =
    if exited_cleanly code signal
    then clean_exit
    else if requested_stop
    then user_terminated
    else signal_cause signal cause

abbrev pub name_of : Option ℤ → Option Text
name_of none = none
name_of (some sig) = signal_name sig

abbrev pub no_scan : Scan
no_scan = record { best = none; evidence = []; exception = none; hs_err_files = [] }

unfoldable pub diagnose : Option ℤ → Option ℤ → List Text → Bool → CrashReport
diagnose code signal lines requested_stop =
    let s = scan_lines rules lines no_scan in
    let clean = exited_cleanly code signal in
    record {
      category = verdict code signal requested_stop (category_at rules s.best);
      exit_code = code;
      signal = signal;
      signal_name = name_of signal;
      evidence = if clean then [] else s.evidence;
      exception = if clean then none else s.exception;
      hs_err_files = s.hs_err_files;
    }
