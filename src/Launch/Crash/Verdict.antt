-- ===== src/Launch/Crash/Verdict.antt =====
-- The category that launch/crash.rs gives a run: the scan of the log keeps the lowest index of a rule
-- that applies to a line, which is the first rule of the table that applies to any.
use rc_launcher.Base.{
  ℕ, ◌≡◌, refl, ap, ◌∙◌, Bool, true, false, not, ◌&&◌, ◌||◌, Option, none, some, List, [], ◌∷◌,
  Bool-cases, inl, inr, arith, if◌then◌else◌,
}
use rc_launcher.Base.Int.{ℤ}
use rc_launcher.Base.Text.{Text}
use rc_launcher.Classpath.{to_lower}
use rc_launcher.Launch.Crash.{
  Scan, is_blank, next_index, find_rule, better, note_rule, scan_trimmed, scan_line, scan_lines,
  category_at, verdict, no_scan, diagnose,
}
use rc_launcher.Launch.Crash.Line.{has_any}
use rc_launcher.Launch.Crash.Rules.{CrashCategory, CrashRule, rules}
use rc_launcher.Mods.Constraint.{trim}

-- The line is not blank and has a pattern of the rule.
unfoldable pub applies : CrashRule → Text → Bool
applies r raw = not (is_blank (trim raw)) && has_any r.patterns (to_lower (trim raw))

unfoldable pub applies_to_any : CrashRule → List Text → Bool
applies_to_any r [] = false
applies_to_any r (raw ∷ lines) = let later = applies_to_any r lines in applies r raw || later

-- The category of the first rule that applies to a line of the log.
unfoldable pub first_cause : List CrashRule → List Text → Option CrashCategory
first_cause [] lines = none
first_cause (r ∷ rs) lines =
    let later = first_cause rs lines in if applies_to_any r lines then some r.category else later

-- The index of the first rule that applies to the line.
unfoldable rule_for : List CrashRule → Text → Option ℕ
rule_for [] raw = none
rule_for (r ∷ rs) raw =
    let later = rule_for rs raw in if applies r raw then some 0 else next_index later

abbrev improve : Option ℕ → Option ℕ → Option ℕ
improve none b = b
improve (some i) b = better i b

unfoldable best_of : List CrashRule → List Text → Option ℕ → Option ℕ
best_of rs [] b = b
best_of rs (raw ∷ lines) b = best_of rs lines (improve (rule_for rs raw) b)

rule_for-blank :
    (rs : List CrashRule) (raw : Text) → is_blank (trim raw) ≡ true → rule_for rs raw ≡ none
unfolding rule_for applies
rule_for-blank [] raw h = refl
rule_for-blank (r ∷ rs) raw h = rw (h, rule_for-blank rs raw h)

rule_for-find_rule :
    (rs : List CrashRule) (raw : Text)
    → is_blank (trim raw) ≡ false
    → rule_for rs raw ≡ find_rule rs (to_lower (trim raw))
unfolding rule_for find_rule applies
rule_for-find_rule [] raw h = refl
rule_for-find_rule (r ∷ rs) raw h = rw (h, rule_for-find_rule rs raw h)

note_rule-best :
    (found : Option ℕ) (line : Text) (s : Scan)
    → (note_rule found line s).best ≡ improve found s.best
unfolding note_rule
note_rule-best none line s = refl
note_rule-best (some idx) line s = refl

scan_line-best :
    (rs : List CrashRule) (raw : Text) (s : Scan)
    → (scan_line rs raw s).best ≡ improve (rule_for rs raw) s.best
unfolding scan_line scan_trimmed
scan_line-best rs raw s = elim (Bool-cases (is_blank (trim raw))) [
  | inl b ↦ rw (b, rule_for-blank rs raw b) refl
  | inr b ↦ rw (b, rule_for-find_rule rs raw b) (note_rule-best _ (trim raw) _)
]

scan_lines-best :
    (rs : List CrashRule) (lines : List Text) (s : Scan)
    → (scan_lines rs lines s).best ≡ best_of rs lines s.best
unfolding scan_lines best_of
scan_lines-best rs [] s = refl
scan_lines-best rs (raw ∷ lines) s =
    scan_lines-best rs lines (scan_line rs raw s) ∙ ap (best_of rs lines) (scan_line-best rs raw s)

improve-zero : (o : Option ℕ) → improve o (some 0) ≡ some 0
improve-zero none = refl
improve-zero (some i) = ground arith

zero-improve : (b : Option ℕ) → better 0 (next_index b) ≡ some 0
zero-improve none = refl
zero-improve (some j) = ground arith

improve-next_index :
    (o b : Option ℕ) → improve (next_index o) (next_index b) ≡ next_index (improve o b)
improve-next_index none b = refl
improve-next_index (some i) none = refl
improve-next_index (some i) (some j) = ground arith

best_of-zero : (rs : List CrashRule) (lines : List Text) → best_of rs lines (some 0) ≡ some 0
unfolding best_of
best_of-zero rs [] = refl
best_of-zero rs (raw ∷ lines) =
    ap (best_of rs lines) (improve-zero (rule_for rs raw)) ∙ best_of-zero rs lines

improve-cons :
    (r : CrashRule) (rs : List CrashRule) (raw : Text) (b : Option ℕ)
    → improve (rule_for (r ∷ rs) raw) (next_index b)
      ≡ (if applies r raw then some 0 else next_index (improve (rule_for rs raw) b))
unfolding rule_for
improve-cons r rs raw b = elim (Bool-cases (applies r raw)) [
  | inl t ↦ rw (t) (zero-improve b)
  | inr t ↦ rw (t) (improve-next_index (rule_for rs raw) b)
]

best_of-cons :
    (r : CrashRule) (rs : List CrashRule) (lines : List Text) (b : Option ℕ)
    → best_of (r ∷ rs) lines (next_index b)
      ≡ (if applies_to_any r lines then some 0 else next_index (best_of rs lines b))
unfolding best_of applies_to_any
best_of-cons r rs [] b = refl
best_of-cons r rs (raw ∷ lines) b =
    ap (best_of (r ∷ rs) lines) (improve-cons r rs raw b) ∙ elim (Bool-cases (applies r raw)) [
      | inl t ↦ rw (t) (best_of-zero (r ∷ rs) lines)
      | inr t ↦ rw (t) (best_of-cons r rs lines (improve (rule_for rs raw) b))
    ]

best_of-nil : (lines : List Text) → best_of [] lines none ≡ none
unfolding best_of rule_for
best_of-nil [] = refl
best_of-nil (raw ∷ lines) = best_of-nil lines

category_at-next_index :
    (r : CrashRule) (rs : List CrashRule) (b : Option ℕ)
    → category_at (r ∷ rs) (next_index b) ≡ category_at rs b
category_at-next_index r rs none = refl
category_at-next_index r rs (some b) = refl

category_at-best_of :
    (rs : List CrashRule) (lines : List Text)
    → category_at rs (best_of rs lines none) ≡ first_cause rs lines
unfolding first_cause
category_at-best_of [] lines = rw (best_of-nil lines) refl
category_at-best_of (r ∷ rs) lines = elim (Bool-cases (applies_to_any r lines)) [
  | inl t ↦ rw (best_of-cons r rs lines none, t) refl
  | inr t ↦
      rw (best_of-cons r rs lines none, t)
        (category_at-next_index r rs _ ∙ category_at-best_of rs lines)
]

-- The category of a run is the verdict on its exit code, its signal and whether a stop was requested,
-- with the first rule of the table that applies to any line of the log as the cause.
pub diagnose-verdict :
    (code signal : Option ℤ) (lines : List Text) (requested_stop : Bool)
    → (diagnose code signal lines requested_stop).category
      ≡ verdict code signal requested_stop (first_cause rules lines)
unfolding diagnose
diagnose-verdict code signal lines requested_stop =
    ap (verdict code signal requested_stop) (
      ap (category_at rules) (scan_lines-best rules lines no_scan)
      ∙ category_at-best_of rules lines)
