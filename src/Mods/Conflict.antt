-- ===== src/Mods/Conflict.antt =====
-- mods/conflict.rs: the issues of a loadout of mods. The text for the user (`detail`) is left out:
-- nothing branches on it.
use rc_launcher.Base.{
  ℕ, ◌+◌, Bool, true, false, not, ◌&&◌, ◌||◌, Option, none, some, List, [], ◌∷◌, ◌++◌, ltb,
  if◌then◌else◌,
}
use rc_launcher.Base.Text.{Text, codes, text_eq, lookup}
use rc_launcher.Mods.Constraint.{Semver, VersionConstraint, constraint_matches}

pub data ModIssueKind : Type 0 where
  missing_dependency incompatible_dependency conflict incompatible_minecraft duplicate_mod :
      ModIssueKind

-- `ModIssueKind::code`
unfoldable pub kind_code : ModIssueKind → Text
kind_code missing_dependency = codes "missing_dependency"
kind_code incompatible_dependency = codes "incompatible_dependency"
kind_code conflict = codes "conflict"
kind_code incompatible_minecraft = codes "incompatible_minecraft"
kind_code duplicate_mod = codes "duplicate_mod"

pub record ModIssue : Type 0 where
  pub source_modid : Text
  pub kind : ModIssueKind
  pub target : Option Text

pub data ModLoader : Type 0 where
  vanilla forge fabric quilt lite_loader opti_fine : ModLoader

pub record ModDependency (Req : Type 0) : Type 0 where
  pub modid : Text
  pub range : Option (VersionConstraint Req)
  pub required : Bool

pub record ModMetadata (Req : Type 0) : Type 0 where
  pub modid : Text
  pub name : Text
  pub version : Option Text
  pub description : Option Text
  pub authors : List Text
  pub loader : ModLoader
  pub minecraft : Option (VersionConstraint Req)
  pub dependencies : List (ModDependency Req)
  pub conflicts : List (ModDependency Req)
  pub recommends : List (ModDependency Req)

-- What a `ModView` shows.
pub record ModView (Req : Type 0) : Type 0 where
  pub meta : ModMetadata Req
  pub is_enabled : Bool

-- The versions that are there, by id.
abbrev pub Index : Type 0
Index = List (Text × List (Option Text))

-- `entry(id).or_default().push(version)`
unfoldable pub push_version : Text → Option Text → Index → Index
push_version id v [] = (id, v ∷ []) ∷ []
push_version id v ((k, vs) ∷ rest) =
    let later = push_version id v rest in
    if text_eq k id then (k, vs ++ (v ∷ [])) ∷ rest else (k, vs) ∷ later

-- `get(id).cloned().unwrap_or_default()`
unfoldable pub present : Text → Index → List (Option Text)
present id ix = elim (lookup id ix) [ none ↦ [] | some vs ↦ vs ]

-- The count of the enabled mods of an id.
unfoldable pub enabled_same_id : {Req : Type 0} → Text → List (ModView Req) → ℕ
enabled_same_id id [] = 0
enabled_same_id id (m ∷ ms) =
    (if m.is_enabled && text_eq m.meta.modid id then 1 else 0) + enabled_same_id id ms

module _ {Req : Type 0} where
  -- The loop that fills `by_id`.
  unfoldable pub index_mods : Index → List (ModView Req) → Index
  index_mods ix [] = ix
  index_mods ix (m ∷ ms) =
      index_mods (if m.is_enabled then push_version m.meta.modid m.meta.version ix else ix) ms

  -- The loop for the duplicate ids: it ends with the first report.
  unfoldable pub duplicates : List (ModView Req) → List (ModView Req) → List ModIssue
  duplicates mods [] = []
  duplicates mods (m ∷ ms) =
      let rest = duplicates mods ms in
      let id = m.meta.modid in
      if m.is_enabled && ltb 1 (enabled_same_id id mods)
      then record { source_modid = id; kind = duplicate_mod; target = some id } ∷ []
      else rest

module _ {Req : Type 0} (sem : Semver Req) where
  -- The closure of the two `any`: whether an installed version lies in a range.
  unfoldable pub admits : Option (VersionConstraint Req) → Option Text → Bool
  admits none v = true
  admits (some c) none = false
  admits (some c) (some ver) = constraint_matches sem c ver

  unfoldable pub any_admitted : Option (VersionConstraint Req) → List (Option Text) → Bool
  any_admitted range [] = false
  any_admitted range (v ∷ vs) = admits range v || any_admitted range vs

  -- The issue of the Minecraft version that a mod asks for.
  unfoldable pub minecraft_issues : Option Text → ModMetadata Req → List ModIssue
  minecraft_issues none meta = []
  minecraft_issues (some gv) meta = elim meta.minecraft [
    | none ↦ []
    | some c ↦
        if constraint_matches sem c gv
        then []
        else record {
          source_modid = meta.modid;
          kind = incompatible_minecraft;
          target = some (codes "minecraft");
        }
          ∷ []
  ]

  -- The issue of a dependency, with the versions of it that are there.
  unfoldable pub dependency_issue : Text → ModDependency Req → List (Option Text) → List ModIssue
  dependency_issue source dep [] =
      if dep.required
      then record { source_modid = source; kind = missing_dependency; target = some dep.modid } ∷ []
      else []
  dependency_issue source dep (v ∷ vs) =
      if dep.required && not (any_admitted dep.range (v ∷ vs))
      then record { source_modid = source; kind = incompatible_dependency; target = some dep.modid }
        ∷ []
      else []

  unfoldable pub dependency_issues : Index → Text → List (ModDependency Req) → List ModIssue
  dependency_issues ix source [] = []
  dependency_issues ix source (dep ∷ deps) =
      (if text_eq dep.modid (codes "minecraft")
        then []
        else dependency_issue source dep (present dep.modid ix))
      ++ dependency_issues ix source deps

  -- The issue of a conflict with the Minecraft version.
  unfoldable pub breaks_minecraft : Option Text → Text → ModDependency Req → List ModIssue
  breaks_minecraft none source cf = []
  breaks_minecraft (some gv) source cf =
      if admits cf.range (some gv)
      then record {
        source_modid = source;
        kind = incompatible_minecraft;
        target = some (codes "minecraft");
      }
        ∷ []
      else []

  -- `!present.is_empty() && clashes`: there is no clash where nothing is present.
  unfoldable pub conflict_issue : Index → Text → ModDependency Req → List ModIssue
  conflict_issue ix source cf =
      if any_admitted cf.range (present cf.modid ix)
      then record { source_modid = source; kind = conflict; target = some cf.modid } ∷ []
      else []

  unfoldable pub conflict_issues :
      Index → Option Text → Text → List (ModDependency Req) → List ModIssue
  conflict_issues ix gv source [] = []
  conflict_issues ix gv source (cf ∷ cfs) =
      (if text_eq cf.modid (codes "minecraft")
        then breaks_minecraft gv source cf
        else conflict_issue ix source cf)
      ++ conflict_issues ix gv source cfs

  -- What the loop over the mods reports of one.
  unfoldable pub mod_issues : Index → Option Text → ModMetadata Req → List ModIssue
  mod_issues ix gv meta =
      minecraft_issues gv meta
      ++ (dependency_issues ix meta.modid meta.dependencies
          ++ conflict_issues ix gv meta.modid meta.conflicts)

  unfoldable pub all_mod_issues : Index → Option Text → List (ModView Req) → List ModIssue
  all_mod_issues ix gv [] = []
  all_mod_issues ix gv (m ∷ ms) =
      (if m.is_enabled then mod_issues ix gv m.meta else []) ++ all_mod_issues ix gv ms

  unfoldable pub resolve_issues : List (ModView Req) → Option Text → List ModIssue
  resolve_issues mods gv = all_mod_issues (index_mods [] mods) gv mods ++ duplicates mods mods
