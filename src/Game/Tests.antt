-- ===== src/Game/Tests.antt =====
-- Runs of the modules of Game on concrete inputs: patterns, rules, coordinates, chains and plans.
use rc_launcher.Base.{
  ℕ, ◌≡◌, ◌≢◌, ◌↔◌, ◌⊎◌, refl, sym, some-injective, true, false, Option, none, some, List, [], ◌∷◌,
  map, ok, err, arith,
}
use rc_launcher.Base.Text.{
  Text, codes, text_eq, split_on, rsplit_once, Lacks, lookup, replace_char, trim_end, starts_with,
  contains,
}
use rc_launcher.Error.{RcResult, other}
use rc_launcher.Game.Pattern.{
  parse_pattern, parse_at, begin_node, escaped, version_matches, matches_at, try_each, match_one,
  strip_dollar,
}
use rc_launcher.Game.Pattern.Language.{Matches, matches_at-iff-Matches}
use rc_launcher.Game.Platform.{OsRule, android, os_matches, is_os, os_from_rule, os_eq, os_rule_str}
use rc_launcher.Game.Library.{
  Library, LibraryDownloads, Rule, allow, disallow, Coordinate, parse_maven, maven_path, is_allowed,
  artifact_url, given_url, last_verdict, rule_matches, is_allow, native_classifier,
}
use rc_launcher.Game.Library.Rules.{LastMatch, is_allowed-iff-LastMatch}
use rc_launcher.Game.Library.Maven.{Plain, parse_maven-full_coordinate}
use rc_launcher.Game.Version.{
  VersionJson, ResolvedVersion, VersionManifest, VersionEntry, merge_chain, reverse_onto,
  resolve_version, fetch_entry, no_downloads, default_resolved,
}
use rc_launcher.Game.Version.Libraries.{
  libraries-merge_chain, last_named, all_libraries, distinct_after, names,
}
use rc_launcher.Game.Version.Walk.{Line}
use rc_launcher.Game.Version.Ends.{resolve_version-iff-Line}
use rc_launcher.Mirror.{Url, new_provider, rewrite_all, preferred, offers}
use rc_launcher.Game.Path.{path_eq, texts_eq, join, components}
use rc_launcher.Game.Plan.{
  Resolver, Json, AssetsIndex, build_full_plan, build_plan, client_item, index_item, main_jar,
  native_jar, logging_item, item, plan_library, plan_libraries, add, add_all, dedup, dedup_after,
  plan_assets, has_path, complete, add_mirrors,
}
use rc_launcher.Game.Plan.Merged.{merged_at, dests_after, dests}
use rc_launcher.Game.Plan.Items.{all_items, build_full_plan_lem}

abbrev macos_10 : Text
macos_10 = codes "10\\.\\d+"

version_matches_run : version_matches (codes "^10\\.\\d+$") (codes "10.15") ≡ true
unfolding version_matches parse_pattern parse_at begin_node escaped matches_at try_each match_one
    strip_dollar
version_matches_run = refl

-- A pattern that starts with `^` and does not end with `$` keeps its `^`.
version_matches_caret_run : version_matches (codes "^10") (codes "10") ≡ false
unfolding version_matches parse_pattern parse_at begin_node escaped matches_at try_each match_one
    strip_dollar
version_matches_caret_run = refl

matches_at-iff-Matches_example :
    (matches_at (parse_pattern macos_10) (codes "10.15") ≡ true)
    ↔ Matches (parse_pattern macos_10) (codes "10.15")
matches_at-iff-Matches_example = matches_at-iff-Matches (parse_pattern macos_10) (codes "10.15")

abbrev os_rule : Text → OsRule
os_rule name = record { name = some name; arch = none; version = none }

abbrev not_on_linux : List Rule
not_on_linux =
    record { action = allow; os = none; features = none }
    ∷ record { action = disallow; os = some (os_rule (codes "linux")); features = none }
    ∷ []

abbrev no_artifact : LibraryDownloads
no_artifact = record { artifact = none; classifiers = [] }

abbrev plain_library : Text → List Rule → Library
plain_library name rules = record {
  name = name;
  url = none;
  downloads = no_artifact;
  natives = [];
  extract = none;
  rules = rules;
  client_req = none;
  serverreq = none;
}

is_allowed_run : is_allowed (plain_library (codes "a:b:1") not_on_linux) android [] ≡ false
unfolding is_allowed last_verdict rule_matches is_allow os_matches is_os os_from_rule os_eq text_eq
is_allowed_run = refl

is_allowed-iff-LastMatch_example :
    (is_allowed (plain_library (codes "a:b:1") not_on_linux) android [] ≡ true) ↔ (
      (not_on_linux ≡ []) ⊎ ((r : Rule) × LastMatch android [] not_on_linux r × (r.action ≡ allow)))
is_allowed-iff-LastMatch_example =
    is_allowed-iff-LastMatch (plain_library (codes "a:b:1") not_on_linux) android []

abbrev zip_coordinate : Coordinate
zip_coordinate = record {
  group = codes "a.b";
  artifact = codes "c";
  version = codes "1";
  classifier = some (codes "n");
  ext = codes "zip";
}

zip_coordinate-Plain : Plain zip_coordinate
unfolding Lacks
zip_coordinate-Plain = record {
  group = (refl, (refl, (refl, tt)));
  artifact = (refl, tt);
  version = (refl, tt);
  classifier = of_some;
}
  where
    of_some : (t : Text) → zip_coordinate.classifier ≡ some t → Lacks b':' t
    of_some t e = rw (sym (some-injective e)) (refl, tt)

parse_maven-full_coordinate_example : parse_maven (codes "a.b:c:1:n@zip") ≡ zip_coordinate
unfolding Lacks
parse_maven-full_coordinate_example =
    parse_maven-full_coordinate zip_coordinate zip_coordinate-Plain (refl, (refl, (refl, tt)))

abbrev version_json : Text → Option Text → List Library → VersionJson ℕ
version_json id parent libraries = record {
  id = some id;
  kind = none;
  inherits_from = parent;
  asset_index = none;
  assets = none;
  client = none;
  server = none;
  downloads = no_downloads;
  libraries = libraries;
  main_class = none;
  minecraft_arguments = none;
  arguments = none;
  java_version = none;
  logging = none;
  minimum_launcher_version = none;
}

abbrev base_version : VersionJson ℕ
base_version =
    version_json (codes "1") none
      (plain_library (codes "a:b:1") [] ∷ plain_library (codes "c:d:1") [] ∷ [])

abbrev forge_version : VersionJson ℕ
forge_version =
    version_json (codes "f") (some (codes "1")) (plain_library (codes "a:b:1") not_on_linux ∷ [])

libraries-merge_chain_example :
    map some ((merge_chain (base_version ∷ forge_version ∷ [])).libraries)
    ≡ map
        (λ n. last_named n none (all_libraries (base_version ∷ forge_version ∷ [])))
        (distinct_after [] (names (all_libraries (base_version ∷ forge_version ∷ []))))
libraries-merge_chain_example = libraries-merge_chain (base_version ∷ forge_version ∷ [])

abbrev entry : Text → VersionEntry
entry id = record {
  id = id;
  kind = codes "release";
  url = id;
  sha1 = none;
  time = none;
  release_time = none;
}

abbrev manifest : VersionManifest
manifest = record {
  latest = record { release = codes "1"; snapshot = codes "1" };
  versions = entry (codes "1") ∷ entry (codes "f") ∷ [];
}

abbrev server : Text → RcResult (VersionJson ℕ)
server url = elim (text_eq url (codes "f")) [
  | true ↦ ok forge_version
  | false ↦ elim (text_eq url (codes "1")) [
    | true ↦ ok base_version
    | false ↦ err (other "not there")
  ]
]

resolve_version-iff-Line_example :
    (resolve_version server manifest 3 (codes "f") ≢ none)
    × ((resolve_version server manifest 3 (codes "f")
          ≡ some (ok (merge_chain (base_version ∷ forge_version ∷ []))))
        ↔ ((vs : List (VersionJson ℕ)) × Line (fetch_entry server manifest) (codes "f") vs
            × (merge_chain (base_version ∷ forge_version ∷ []) ≡ merge_chain (reverse_onto vs []))))
resolve_version-iff-Line_example =
    resolve_version-iff-Line server manifest 3 (codes "f") (omega arith)
      (merge_chain (base_version ∷ forge_version ∷ []))

-- Two jars of one artifact, told apart by the classifier of their coordinates only.
abbrev jar_at : Text → Text → Library
jar_at name path = record (plain_library name []) {
  downloads = record {
    artifact = some (record { path = some path; sha1 = none; size = none; url = none });
    classifiers = [];
  };
}

abbrev two_jars : ResolvedVersion ℕ
two_jars = record default_resolved {
  libraries =
      jar_at (codes "o:l:1") (codes "o/l/1/l-1.jar")
      ∷ jar_at (codes "o:l:1:natives") (codes "o/l/1/l-1-natives.jar")
      ∷ [];
}

abbrev resolver : Resolver
resolver = record {
  platform = android;
  mirror = new_provider [];
  root = record { absolute = true; parts = codes "data" ∷ [] };
}

abbrev no_url : Text → Option Url
no_url u = none

abbrev numbers : Json ℕ
numbers = record { get = λ v k. none; as_str = λ v. none; as_u64 = λ v. some v }

abbrev no_assets : AssetsIndex
no_assets = record { id = none; objects = []; map_to_resources = none }

-- The second jar has the destination of the first one, so that one jar is planned.
two_jars_run :
    map (λ i. i.url) (build_full_plan no_url resolver numbers two_jars no_assets)
    ≡ codes "https://libraries.minecraft.net/o/l/1/l-1.jar" ∷ []
unfolding build_full_plan build_plan client_item index_item plan_libraries plan_library main_jar
    native_jar logging_item item add add_all dedup dedup_after plan_assets has_path path_eq texts_eq
    join components complete is_allowed artifact_url given_url maven_path parse_maven rsplit_once
    split_on replace_char trim_end starts_with native_classifier lookup os_rule_str rewrite_all
    preferred offers text_eq add_mirrors contains
two_jars_run = refl

build_full_plan_lem_example :
    map some (build_full_plan no_url resolver numbers two_jars no_assets)
    ≡ map
        (λ p. merged_at p none (all_items no_url resolver numbers two_jars no_assets))
        (dests_after [] (dests (all_items no_url resolver numbers two_jars no_assets)))
build_full_plan_lem_example = build_full_plan_lem no_url resolver numbers two_jars no_assets
