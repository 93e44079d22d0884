-- ===== src/Launch/Crash/Evidence.antt =====
-- The fields of a report of launch/crash.rs: how much of the log it keeps.
use rc_launcher.Base.{
  ℕ, ◌≤◌, Bool, not, ◌&&◌, Option, none, some, List, [], ◌∷◌, All, Bool-cases, inl, inr, arith,
  length, length-append, take, length-take_of_le, leb, ltb, ltb→lt, both_true, not-true,
}
use rc_launcher.Base.Int.{ℤ}
use rc_launcher.Base.Text.{Text, contains}
use rc_launcher.Launch.Args.Prune.{All-append}
use rc_launcher.Launch.Crash.{
  Scan, add_evidence, note_rule, first_exception, scan_trimmed, scan_line, scan_lines, no_scan,
  is_blank, diagnose, exited_cleanly,
}
use rc_launcher.Launch.Crash.Line.{truncate}
use rc_launcher.Launch.Crash.Rules.{CrashRule, rules}
use rc_launcher.Game.Version.Index.{Distinct, Distinct-push}
use rc_launcher.Mods.Constraint.{trim}

-- At most 400 characters and the ellipsis.
abbrev pub Short : Text → Type 0
Short t = length t ≤ 401

unfoldable pub AllShort : Option Text → Type 0
AllShort none = Unit {0}
AllShort (some t) = Short t

-- What a report keeps of a log: at most twelve lines, no two alike, and all of them and the exception
-- cut.
pub record Brief (evidence : List Text) (exception : Option Text) : Type 0 where
  pub few : length evidence ≤ 12
  pub distinct : Distinct evidence
  pub short : All Short evidence
  pub cut : AllShort exception

truncate-Short : (t : Text) → Short (truncate t)
unfolding truncate
truncate-Short t = elim (Bool-cases (leb (length t) 400)) [
  | inl h ↦ rw (h) (ground (arith, h))
  | inr h ↦ rw (h) (
      omega (
        arith,
        length-append (take 400 t) (8230 ∷ []),
        length-take_of_le 400 t (ground (arith, h)),
      ))
]

add_evidence-Brief :
    (t : Text) (ts : List Text) (e : Option Text)
    → Short t
    → Brief ts e
    → Brief (add_evidence t ts) e
unfolding add_evidence
add_evidence-Brief t ts e k b = elim (Bool-cases (ltb (length ts) 12 && not (contains t ts))) [
  | inr f ↦ rw (f) b
  | inl f ↦ rw (f) (record {
    few = omega (
      arith,
      length-append ts (t ∷ []),
      ltb→lt (length ts) 12 ((both_true (ltb (length ts) 12) (not (contains t ts)) f).0),
    );
    distinct =
        Distinct-push t ts
          (not-true (contains t ts) ((both_true (ltb (length ts) 12) (not (contains t ts)) f).1))
          b.distinct;
    short = All-append Short ts _ b.short (k, tt);
    cut = b.cut;
  })
]

first_exception-AllShort :
    (old found : Option Text) → AllShort old → AllShort (first_exception old found)
unfolding AllShort
first_exception-AllShort (some e) found h = h
first_exception-AllShort none none h = h
first_exception-AllShort none (some e) h = truncate-Short e

note_rule-Brief :
    (found : Option ℕ) (line : Text) (s : Scan)
    → Brief s.evidence s.exception
    → Brief (note_rule found line s).evidence (note_rule found line s).exception
unfolding note_rule
note_rule-Brief none line s b = b
note_rule-Brief (some idx) line s b =
    add_evidence-Brief (truncate line) s.evidence s.exception (truncate-Short line) b

scan_line-Brief :
    (rs : List CrashRule) (raw : Text) (s : Scan)
    → Brief s.evidence s.exception
    → Brief (scan_line rs raw s).evidence (scan_line rs raw s).exception
unfolding scan_line scan_trimmed
scan_line-Brief rs raw s b = elim (Bool-cases (is_blank (trim raw))) [
  | inl h ↦ rw (h) b
  | inr h ↦ rw (h) (
      note_rule-Brief _ (trim raw) _ (record {
        few = b.few;
        distinct = b.distinct;
        short = b.short;
        cut = first_exception-AllShort s.exception _ b.cut;
      }))
]

scan_lines-Brief :
    (rs : List CrashRule) (lines : List Text) (s : Scan)
    → Brief s.evidence s.exception
    → Brief (scan_lines rs lines s).evidence (scan_lines rs lines s).exception
unfolding scan_lines
scan_lines-Brief rs [] s b = b
scan_lines-Brief rs (raw ∷ lines) s b =
    scan_lines-Brief rs lines (scan_line rs raw s) (scan_line-Brief rs raw s b)

nothing-Brief : Brief [] none
unfolding Distinct AllShort
nothing-Brief = record { few = omega arith; distinct = tt; short = tt; cut = tt }

-- Whatever the log holds, a report keeps at most twelve of its lines, no two alike, and each of them,
-- and the exception, with at most 400 characters and an ellipsis.
pub diagnose-Brief :
    (code signal : Option ℤ) (lines : List Text) (requested_stop : Bool)
    → let r = diagnose code signal lines requested_stop in Brief r.evidence r.exception
unfolding diagnose
diagnose-Brief code signal lines requested_stop = elim (Bool-cases (exited_cleanly code signal)) [
  | inl c ↦ rw (c) nothing-Brief
  | inr c ↦ rw (c) (scan_lines-Brief rules lines no_scan nothing-Brief)
]
