-- ===== src/Launch/Classpath.antt =====
-- launch/classpath.rs: the builder of the class path. What the runtime bundle holds is an argument. A
-- map is the list of its entries, the newest first.
pub mod Contend
pub mod Winners
pub mod Sound
mod Tests
use Prim.Native.Nat.{compare, Ordering, lt, eq, gt}
use rc_launcher.Base.{
  ℕ, zero, suc, Bool, true, false, not, ◌&&◌, ◌||◌, Option, none, some, List, [], ◌∷◌, ◌++◌, ok,
  err, ◌>>=◌, if◌then◌else◌, length,
}
use rc_launcher.Base.Text.{Text, codes, text_eq, starts_with, lookup}
use rc_launcher.Classpath.{compare_maven_versions, compare_texts}
use rc_launcher.Error.{RcResult}
use rc_launcher.Game.Library.{
  Library, Features, Artifact, is_allowed, native_classifier, maven_path, parse_maven,
}
use rc_launcher.Game.Path.{PathBuf}
use rc_launcher.Game.Platform.{Platform}
use rc_launcher.Launch.Bridge.Bundle.{
  AwtBackend, backend_for_java, artifacts, scan_bundle, paths_with_role, on_classpath,
}
use rc_launcher.Launch.Env.{push_dirs}
use rc_launcher.Launch.Path.{join_path, path_of}
use rc_launcher.Runtime.{JavaVersion}

-- `Classpath`
pub record Classpath : Type 0 where
  pub entries : List Text
  pub native_jars : List Text
  pub native_dirs : List Text
  pub substituted : List Text
  pub collapsed : List Text

pub record ClasspathPolicy : Type 0 where
  pub substitute_lwjgl : Bool
  pub client_jar_last : Bool
  pub collapse_duplicates : Bool
  pub extra_excludes : List Text

-- What the builder reads of the bundle: the LWJGL jars, the directory of its natives if it is there, and
-- the jars of a backend of AWT.
pub record RuntimeJars : Type 0 where
  pub lwjgl_jars : RcResult (List Text)
  pub natives : Option Text
  pub bundle_jars : AwtBackend → List Text

pub record ClasspathBuilder : Type 0 where
  pub libraries_dir : Text
  pub platform : Platform
  pub features : Features
  pub policy : ClasspathPolicy
  pub app_runtime : Option RuntimeJars
  pub java_version : JavaVersion
  pub use_cacio : Bool

-- `SUBSTITUTED_PREFIXES`
abbrev pub substituted_prefixes : List Text
substituted_prefixes =
    codes "org.lwjgl:"
    ∷ codes "org.lwjgl.lwjgl:"
    ∷ codes "net.java.jinput:"
    ∷ codes "net.java.jutils:"
    ∷ codes "ca.weblite:"
    ∷ []

unfoldable pub has_prefix_of : List Text → Text → Bool
has_prefix_of [] name = false
has_prefix_of (p ∷ ps) name = let later = has_prefix_of ps name in starts_with p name || later

-- `ClasspathBuilder::is_substituted`
unfoldable pub is_substituted : ClasspathBuilder → Library → Bool
is_substituted b lib =
    b.policy.substitute_lwjgl && has_prefix_of substituted_prefixes lib.name
    || has_prefix_of b.policy.extra_excludes lib.name

-- The class path so far, and `seen`: the index and the version of each group and artifact.
pub record Building : Type 0 where
  pub entries : List Text
  pub native_jars : List Text
  pub substituted : List Text
  pub collapsed : List Text
  pub seen : List (Text × (ℕ × Text))

-- A jar, with its group and artifact and its version
pub record Jar : Type 0 where
  pub ga : Text
  pub version : Text
  pub path : Text

-- `== Ordering::Greater`
abbrev pub is_greater : Ordering → Bool
is_greater gt = true
is_greater _ = false

-- `entries[idx] = path`
unfoldable pub set_entry : ℕ → Text → List Text → List Text
set_entry i path [] = []
set_entry zero path (e ∷ es) = path ∷ es
set_entry (suc i) path (e ∷ es) = e ∷ set_entry i path es

abbrev pub superseded : Text → Text → Text → Text
superseded ga old new = ga ++ (b':' ∷ (old ++ (codes " (superseded by " ++ (new ++ codes ")"))))

-- A jar whose group and artifact is there: the greater version stays.
unfoldable pub collapse : Jar → ℕ → Text → Building → Building
collapse j idx prev_version s =
    if is_greater (compare_maven_versions j.version prev_version)
    then record s {
      collapsed = s.collapsed ++ (superseded j.ga prev_version j.version ∷ []);
      entries = set_entry idx j.path s.entries;
      seen = (j.ga, (idx, j.version)) ∷ s.seen;
    }
    else record s { collapsed = s.collapsed ++ (superseded j.ga j.version prev_version ∷ []) }

unfoldable pub place_seen : Bool → Jar → Option (ℕ × Text) → Building → Building
place_seen collapse_duplicates j (some (idx, prev_version)) s = collapse j idx prev_version s
place_seen true j none s = record s {
  seen = (j.ga, (length s.entries, j.version)) ∷ s.seen;
  entries = s.entries ++ (j.path ∷ []);
}
place_seen false j none s = record s { entries = s.entries ++ (j.path ∷ []) }

-- `seen.get(&ga)`, if duplicates are collapsed
abbrev pub seen_before : Bool → Jar → Building → Option (ℕ × Text)
seen_before true j s = lookup j.ga s.seen
seen_before false j s = none

unfoldable pub place_jar : Bool → Jar → Building → Building
place_jar collapse_duplicates j s =
    place_seen collapse_duplicates j (seen_before collapse_duplicates j s) s

abbrev pub is_declared : Option Artifact → Bool
is_declared none = false
is_declared (some a) = true

abbrev pub is_given : Option Text → Bool
is_given none = false
is_given (some t) = true

-- The main jar of a library
unfoldable pub jar_of : ClasspathBuilder → Library → Jar
jar_of b lib =
    let c = parse_maven lib.name in
    record {
      ga = c.group ++ (b':' ∷ c.artifact);
      version = c.version;
      path = join_path b.libraries_dir (maven_path lib.name none);
    }

-- The end of the loop's body: a coordinate with a classifier has a main jar only if it is declared.
unfoldable pub add_main : ClasspathBuilder → Library → Building → Building
add_main b lib s =
    if is_given (parse_maven lib.name).classifier && not (is_declared lib.downloads.artifact)
    then s
    else place_jar b.policy.collapse_duplicates (jar_of b lib) s

-- A library with natives for the platform
unfoldable pub add_natives : ClasspathBuilder → Library → Option Text → Building → Building
add_natives b lib none s = add_main b lib s
add_natives b lib (some classifier) s =
    let path = join_path b.libraries_dir (maven_path lib.name (some classifier)) in
    let s' = record s { native_jars = s.native_jars ++ (path ∷ []) } in
    if is_declared lib.downloads.artifact then add_main b lib s' else s'

-- The body of the loop over the libraries
unfoldable pub add_library : ClasspathBuilder → Library → Building → Building
add_library b lib s =
    if is_allowed lib b.platform b.features
    then (if is_substituted b lib
        then record s { substituted = s.substituted ++ (lib.name ∷ []) }
        else add_natives b lib (native_classifier lib b.platform) s)
    else s

unfoldable pub add_libraries : ClasspathBuilder → List Library → Building → Building
add_libraries b [] s = s
add_libraries b (lib ∷ libs) s = add_libraries b libs (add_library b lib s)

-- The jars and the directories of the bundle
unfoldable pub lwjgl_of : Bool → RuntimeJars → RcResult (List Text)
lwjgl_of true rt = rt.lwjgl_jars
lwjgl_of false rt = ok []

abbrev pub dirs_of : Option Text → List Text
dirs_of none = []
dirs_of (some dir) = dir ∷ []

unfoldable pub runtime_jars : ClasspathBuilder → RcResult (List Text)
runtime_jars b = elim b.app_runtime [
  | none ↦ ok []
  | some rt ↦ lwjgl_of b.policy.substitute_lwjgl rt >>= λ jars.
      let backend = backend_for_java b.java_version in
      ok (
        jars
        ++ (if b.use_cacio
            then paths_with_role on_classpath
                (scan_bundle (rt.bundle_jars backend) (artifacts backend)).present
            else []))
]

unfoldable pub runtime_dirs : ClasspathBuilder → List Text
runtime_dirs b = elim b.app_runtime [
  | none ↦ []
  | some rt ↦ if b.policy.substitute_lwjgl then dirs_of rt.natives else []
]

-- The client jar at its end of the class path
unfoldable pub with_client : Bool → Text → List Text → List Text
with_client true client_jar entries = entries ++ (client_jar ∷ [])
with_client false client_jar entries = client_jar ∷ entries

-- `Path::cmp`: a path from the root is less than another one, and `..` less than any other component.
unfoldable pub compare_parts : List Text → List Text → Ordering
compare_parts [] [] = eq
compare_parts [] (y ∷ ys) = lt
compare_parts (x ∷ xs) [] = gt
compare_parts (x ∷ xs) (y ∷ ys) =
    let rest = compare_parts xs ys in
    if text_eq x y
    then rest
    else if text_eq x (codes "..")
    then lt
    else if text_eq y (codes "..")
    then gt
    else compare_texts x y

abbrev pub compare_roots : Bool → Bool → Ordering → Ordering
compare_roots true false o = lt
compare_roots false true o = gt
compare_roots true true o = o
compare_roots false false o = o

unfoldable pub compare_paths : Text → Text → Ordering
compare_paths t u =
    let p = path_of t in
    let q = path_of u in compare_roots p.absolute q.absolute (compare_parts p.parts q.parts)

-- `sort`, which is stable
unfoldable pub insert_path : Text → List Text → List Text
insert_path t [] = t ∷ []
insert_path t (u ∷ us) =
    let rest = insert_path t us in if is_greater (compare_paths t u) then u ∷ rest else t ∷ u ∷ us

unfoldable pub sort_paths : List Text → List Text
sort_paths [] = []
sort_paths (t ∷ ts) = insert_path t (sort_paths ts)

abbrev pub is_equal : Ordering → Bool
is_equal eq = true
is_equal _ = false

-- `dedup`: of equal neighbours the first
unfoldable pub drop_equal : Text → List Text → List Text
drop_equal t [] = []
drop_equal t (u ∷ us) = elim (is_equal (compare_paths t u)) [
  | true ↦ drop_equal t us
  | false ↦ u ∷ drop_equal u us
]

unfoldable pub dedup_paths : List Text → List Text
dedup_paths [] = []
dedup_paths (t ∷ ts) = t ∷ drop_equal t ts

abbrev pub nothing_built : Building
nothing_built = record {
  entries = [];
  native_jars = [];
  substituted = [];
  collapsed = [];
  seen = [];
}

-- `ClasspathBuilder::build`, of the libraries of a version
unfoldable pub build_classpath : ClasspathBuilder → List Library → Text → RcResult Classpath
build_classpath b libs client_jar =
    let s = add_libraries b libs nothing_built in
    runtime_jars b >>= λ jars. ok (record {
      entries = push_dirs (with_client b.policy.client_jar_last client_jar (s.entries ++ jars)) [];
      native_jars = dedup_paths (sort_paths s.native_jars);
      native_dirs = runtime_dirs b;
      substituted = s.substituted;
      collapsed = s.collapsed;
    })
