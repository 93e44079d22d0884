-- ===== src/Game/Library.antt =====
-- game/library.rs: the libraries of a version, their Maven coordinates, the URLs of their jars, and
-- the rules that include them. A map is the list of its entries.
pub mod Rules
pub mod Maven
use rc_launcher.Base.{
  ℕ, Bool, true, false, not, ◌&&◌, Option, none, some, List, [], ◌∷◌, ◌++◌, if◌then◌else◌,
  get_elem?,
}
use rc_launcher.Base.Text.{
  Text, codes, text_eq, split_on, rsplit_once, replace_char, trim_end, lookup,
}
use rc_launcher.Game.Platform.{OsName, Platform, OsRule, os_matches, os_rule_str, holds_for}

pub data Action : Type 0 where
  allow disallow : Action

-- `rule.action == Action::Allow`
unfoldable pub is_allow : Action → Bool
is_allow allow = true
is_allow disallow = false

-- `Features`: the flags by name
abbrev pub Features : Type 0
Features = List (Text × Bool)

pub record Rule : Type 0 where
  pub action : Action
  pub os : Option OsRule
  pub features : Option Features

-- `have == *want`
abbrev pub same_flag : Bool → Bool → Bool
same_flag true b = b
same_flag false b = not b

-- The loop of `Rule::matches` over the features that a rule asks for.
unfoldable pub features_hold : Features → Features → Bool
features_hold [] have = true
features_hold ((k, want) ∷ rest) have =
    same_flag (elim (lookup k have) [ none ↦ false | some b ↦ b ]) want && features_hold rest have

-- `Rule::matches`
unfoldable pub rule_matches : Rule → Platform → Features → Bool
rule_matches r p have =
    holds_for r.os (λ os. os_matches os p) && holds_for r.features (λ fs. features_hold fs have)

pub record Artifact : Type 0 where
  pub path : Option Text
  pub sha1 : Option Text
  pub size : Option ℕ
  pub url : Option Text

pub record LibraryDownloads : Type 0 where
  pub artifact : Option Artifact
  pub classifiers : List (Text × Artifact)

pub record ExtractRule : Type 0 where
  pub exclude : List Text

pub record Library : Type 0 where
  pub name : Text
  pub url : Option Text
  pub downloads : LibraryDownloads
  pub natives : List (Text × Text)
  pub extract : Option ExtractRule
  pub rules : List Rule
  pub client_req : Option Bool
  pub serverreq : Option Bool

-- The tuple that `parse_maven` returns.
pub record Coordinate : Type 0 where
  pub group : Text
  pub artifact : Text
  pub version : Text
  pub classifier : Option Text
  pub ext : Text

-- `unwrap_or("")`
abbrev pub or_empty : Option Text → Text
or_empty none = []
or_empty (some t) = t

-- The coordinate whose pieces between the colons these are.
abbrev pub of_pieces : List Text → Text → Coordinate
of_pieces ps ext = record {
  group = or_empty (get_elem? ps 0);
  artifact = or_empty (get_elem? ps 1);
  version = or_empty (get_elem? ps 2);
  classifier = get_elem? ps 3;
  ext = ext;
}

unfoldable pub parse_maven : Text → Coordinate
parse_maven name = elim (rsplit_once b'@' name) [
  | some (head, tail) ↦ of_pieces (split_on b':' head) tail
  | none ↦ of_pieces (split_on b':' name) (codes "jar")
]

-- The name of the jar without its extension.
abbrev pub jar_stem : Coordinate → Option Text → Text
jar_stem c none = c.artifact ++ (b'-' ∷ c.version)
jar_stem c (some cls) = c.artifact ++ (b'-' ∷ (c.version ++ (b'-' ∷ cls)))

unfoldable pub maven_path : Text → Option Text → Text
maven_path name classifier =
    let c = parse_maven name in
    replace_char b'.' b'/' c.group
    ++ (b'/'
        ∷ (c.artifact
            ++ (b'/' ∷ (c.version ++ (b'/' ∷ (jar_stem c classifier ++ (b'.' ∷ c.ext)))))))

abbrev pub base_url : Library → Text
base_url lib = elim lib.url [ some u ↦ u | none ↦ codes "https://libraries.minecraft.net" ]

-- `format!("{}/{}", self.base_url().trim_end_matches('/'), path)`
abbrev pub from_base : Library → Text → Text
from_base lib path = trim_end b'/' (base_url lib) ++ (b'/' ∷ path)

-- The URL that the manifest gives for an artifact, if it gives one.
unfoldable pub given_url : Library → Option Artifact → Option Text
given_url lib none = none
given_url lib (some art) = elim art.url [
  | some u ↦ some u
  | none ↦ elim art.path [ some p ↦ some (from_base lib p) | none ↦ none ]
]

unfoldable pub artifact_url : Library → Option Text
artifact_url lib = elim (given_url lib lib.downloads.artifact) [
  | some u ↦ some u
  | none ↦ elim ((parse_maven lib.name).classifier) [
    | some _ ↦ none
    | none ↦ some (from_base lib (maven_path lib.name none))
  ]
]

unfoldable pub classifier_url : Library → Text → Option Text
classifier_url lib classifier = elim (given_url lib (lookup classifier lib.downloads.classifiers)) [
  | some u ↦ some u
  | none ↦ some (from_base lib (maven_path lib.name (some classifier)))
]

unfoldable pub native_classifier : Library → Platform → Option Text
native_classifier lib p = lookup (os_rule_str p.os) lib.natives

-- The loop of `is_allowed`, with `allowed` as it is before it.
unfoldable pub last_verdict : Platform → Features → Bool → List Rule → Bool
last_verdict p have allowed [] = allowed
last_verdict p have allowed (r ∷ rs) =
    last_verdict p have (if rule_matches r p have then is_allow r.action else allowed) rs

unfoldable pub is_allowed : Library → Platform → Features → Bool
is_allowed lib p have = elim lib.rules [ [] ↦ true | r ∷ rs ↦ last_verdict p have false (r ∷ rs) ]
