-- ===== src/Mods/Tests.antt =====
-- Runs of the modules of Mods on concrete inputs.
use rc_launcher.Base.{All, ℕ, ◌≡◌, ◌↔◌, refl, true, none, some, List, [], ◌∷◌, map, ◌==◌}
use rc_launcher.Base.Text.{Text, codes, text_eq, split_on, starts_with, lookup}
use rc_launcher.Mods.Constraint.{
  Semver, coerce_mc_version, coerce_trimmed, parse_parts, parse_digits, numeric, version_of,
  skip_start, skip_end, convert_maven_range, convert_trimmed, convert_body, has_char, interval,
  ends_with_bracket, constraint_matches,
}
use rc_launcher.Mods.Conflict.{
  ModView, ModDependency, fabric, resolve_issues, all_mod_issues, index_mods, push_version,
  mod_issues, minecraft_issues, dependency_issues, dependency_issue, conflict_issues,
  conflict_issue, any_admitted, admits, present, duplicates, enabled_same_id,
}
use rc_launcher.Mods.Sound.{Sound}
use rc_launcher.Mods.Loadout.{Unique, enabled_ids, resolve_issues-iff-Sound}

coerce_mc_version_run :
    coerce_mc_version (codes " 1.20.1-pre2") ≡ some (record { major = 1; minor = 20; patch = 1 })
unfolding coerce_mc_version coerce_trimmed parse_parts parse_digits numeric version_of skip_start
    skip_end split_on
coerce_mc_version_run = refl

convert_maven_range_run : convert_maven_range (codes "[1.0, 2.0)") ≡ codes ">=1.0,<2.0"
unfolding convert_maven_range convert_trimmed convert_body has_char interval ends_with_bracket
    skip_start skip_end split_on starts_with
convert_maven_range_run = refl

-- A semver range of two comparators is taken for an interval of Maven.
convert_maven_range_comma_run : convert_maven_range (codes ">=1.16,<1.17") ≡ codes ">>=1.16,<<1.17"
unfolding convert_maven_range convert_trimmed convert_body has_char interval ends_with_bracket
    skip_start skip_end split_on starts_with
convert_maven_range_comma_run = refl

-- The ranges that hold one major version.
abbrev majors : Semver ℕ
majors = record { parse = λ t. none; holds = λ r v. r == v.major }

abbrev needs : Text → ModDependency ℕ
needs id = record {
  modid = id;
  range = some (record { raw = codes "2"; req = 2 });
  required = true;
}

abbrev mod_of : Text → Text → List (ModDependency ℕ) → ModView ℕ
mod_of id version deps = record {
  meta = record {
    modid = id;
    name = id;
    version = some version;
    description = none;
    authors = [];
    loader = fabric;
    minecraft = none;
    dependencies = deps;
    conflicts = [];
    recommends = [];
  };
  is_enabled = true;
}

abbrev loadout : List (ModView ℕ)
loadout =
    mod_of (codes "a") (codes "1.0") (needs (codes "b") ∷ [])
    ∷ mod_of (codes "b") (codes "2.1") []
    ∷ []

resolve_issues_run : resolve_issues majors loadout (some (codes "1.20.1")) ≡ []
unfolding resolve_issues all_mod_issues index_mods push_version mod_issues minecraft_issues
    dependency_issues dependency_issue conflict_issues conflict_issue any_admitted admits present
    duplicates enabled_same_id text_eq lookup constraint_matches coerce_mc_version coerce_trimmed
    parse_parts parse_digits numeric version_of skip_start skip_end split_on
resolve_issues_run = refl

-- Of two ids that occur twice, the first one is reported.
twice_two_run :
    map
      (λ i. i.source_modid)
      (resolve_issues majors
        (mod_of (codes "a") (codes "1") []
          ∷ mod_of (codes "b") (codes "1") []
          ∷ mod_of (codes "a") (codes "1") []
          ∷ mod_of (codes "b") (codes "1") []
          ∷ [])
        none)
    ≡ codes "a" ∷ []
unfolding resolve_issues all_mod_issues index_mods push_version mod_issues minecraft_issues
    dependency_issues dependency_issue conflict_issues conflict_issue any_admitted admits present
    duplicates enabled_same_id text_eq lookup
twice_two_run = refl

resolve_issues-iff-Sound_example :
    (resolve_issues majors loadout (some (codes "1.20.1")) ≡ [])
    ↔ (All (Sound majors loadout (some (codes "1.20.1"))) loadout × Unique (enabled_ids loadout))
resolve_issues-iff-Sound_example = resolve_issues-iff-Sound majors loadout (some (codes "1.20.1"))
