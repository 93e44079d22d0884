-- ===== src/Game/Version.antt =====
-- game/version.rs: a `version.json`, the merge of a chain of them, and the walk along
-- `inheritsFrom` that collects the chain. A JSON value (`serde_json::Value`) is a type that the
-- records take.
pub mod Index
pub mod Libraries
pub mod Walk
pub mod Ends
use rc_launcher.Base.{
  ℕ, zero, suc, String, ok, err, Bool, true, false, Option, none, some, List, [], ◌∷◌, ◌++◌, length,
  if◌then◌else◌,
}
use rc_launcher.Error.{RcResult, other}
use rc_launcher.Base.Text.{Text, lookup, contains, text_eq}
use rc_launcher.Game.Library.{Library, or_empty}

pub record AssetIndexRef : Type 0 where
  pub id : Text
  pub sha1 : Option Text
  pub size : Option ℕ
  pub total_size : Option ℕ
  pub url : Text

pub record DownloadInfo : Type 0 where
  pub url : Text
  pub sha1 : Option Text
  pub size : Option ℕ

pub record Downloads : Type 0 where
  pub client : Option DownloadInfo
  pub server : Option DownloadInfo
  pub client_mappings : Option DownloadInfo
  pub server_mappings : Option DownloadInfo

pub record JavaVersion : Type 0 where
  pub major_version : Option ℕ
  pub name : Option Text

pub record VersionArguments (V : Type 0) : Type 0 where
  pub game : List V
  pub jvm : List V

pub record VersionJson (V : Type 0) : Type 0 where
  pub id : Option Text
  pub kind : Option Text
  pub inherits_from : Option Text
  pub asset_index : Option AssetIndexRef
  pub assets : Option Text
  pub client : Option DownloadInfo
  pub server : Option DownloadInfo
  pub downloads : Downloads
  pub libraries : List Library
  pub main_class : Option Text
  pub minecraft_arguments : Option Text
  pub arguments : Option (VersionArguments V)
  pub java_version : Option JavaVersion
  pub logging : Option V
  pub minimum_launcher_version : Option ℕ

pub record ResolvedVersion (V : Type 0) : Type 0 where
  pub id : Text
  pub kind : Option Text
  pub asset_index : Option AssetIndexRef
  pub assets : Option Text
  pub downloads : Downloads
  pub libraries : List Library
  pub main_class : Option Text
  pub minecraft_arguments : Option Text
  pub arguments : Option (VersionArguments V)
  pub java_version : Option JavaVersion
  pub logging : Option V

abbrev pub no_downloads : Downloads
no_downloads = record {
  client = none;
  server = none;
  client_mappings = none;
  server_mappings = none;
}

-- `take().or_else(..)`
abbrev pub or_else {ℓ} : {A : Type ℓ} → Option A → Option A → Option A
or_else none b = b
or_else (some a) b = some a

-- The id that stays when it is not empty.
abbrev pub or_id : Text → Option Text → Text
or_id [] id = or_empty id
or_id (c ∷ t) id = c ∷ t

-- The libraries so far, and `seen`, the index of each name in them.
pub record Libs : Type 0 where
  pub libs : List Library
  pub seen : List (Text × ℕ)

-- `libs[idx] = lib`
unfoldable pub set_at : ℕ → Library → List Library → List Library
set_at i lib [] = []
set_at zero lib (m ∷ ms) = lib ∷ ms
set_at (suc i) lib (m ∷ ms) = m ∷ set_at i lib ms

-- The body of the inner loop over the libraries of a version.
unfoldable pub place : Libs → Library → Libs
place s lib = elim (lookup lib.name s.seen) [
  | some idx ↦ record s { libs = set_at idx lib s.libs }
  | none ↦ record { libs = s.libs ++ (lib ∷ []); seen = (lib.name, length s.libs) ∷ s.seen }
]

unfoldable pub place_all : Libs → List Library → Libs
place_all s [] = s
place_all s (lib ∷ rest) = place_all (place s lib) rest

-- `VersionEntry`, `Latest` and `VersionManifest` of game/manifest.rs
pub record VersionEntry : Type 0 where
  pub id : Text
  pub kind : Text
  pub url : Text
  pub sha1 : Option Text
  pub time : Option Text
  pub release_time : Option Text

pub record Latest : Type 0 where
  pub release : Text
  pub snapshot : Text

pub record VersionManifest : Type 0 where
  pub latest : Latest
  pub versions : List VersionEntry

-- `VersionManifest::find`, in its list of versions
unfoldable pub find_entry : Text → List VersionEntry → Option VersionEntry
find_entry id [] = none
find_entry id (e ∷ es) = let later = find_entry id es in if text_eq e.id id then some e else later

module _ {V : Type 0} where
  -- `ResolvedVersion::default`
  abbrev pub default_resolved : ResolvedVersion V
  default_resolved = record {
    id = [];
    kind = none;
    asset_index = none;
    assets = none;
    downloads = no_downloads;
    libraries = [];
    main_class = none;
    minecraft_arguments = none;
    arguments = none;
    java_version = none;
    logging = none;
  }

  -- The body of the loop over the scalars: what is defined already stays. The legacy `client` and
  -- `server` of the version come after those of its `downloads`.
  unfoldable pub absorb : ResolvedVersion V → VersionJson V → ResolvedVersion V
  absorb r v = record {
    id = or_id r.id v.id;
    kind = or_else r.kind v.kind;
    asset_index = or_else r.asset_index v.asset_index;
    assets = or_else r.assets v.assets;
    downloads = record {
      client = or_else (or_else r.downloads.client v.downloads.client) v.client;
      server = or_else (or_else r.downloads.server v.downloads.server) v.server;
      client_mappings = or_else r.downloads.client_mappings v.downloads.client_mappings;
      server_mappings = or_else r.downloads.server_mappings v.downloads.server_mappings;
    };
    libraries = r.libraries;
    main_class = or_else r.main_class v.main_class;
    minecraft_arguments = or_else r.minecraft_arguments v.minecraft_arguments;
    arguments = or_else r.arguments v.arguments;
    java_version = or_else r.java_version v.java_version;
    logging = or_else r.logging v.logging;
  }

  -- The loop over the scalars, from the last version of the chain to the first.
  unfoldable pub scalars : List (VersionJson V) → ResolvedVersion V
  scalars [] = default_resolved
  scalars (v ∷ vs) = absorb (scalars vs) v

  -- The loop over the libraries, from the first version to the last.
  unfoldable pub merge_libraries : Libs → List (VersionJson V) → Libs
  merge_libraries s [] = s
  merge_libraries s (v ∷ vs) = merge_libraries (place_all s v.libraries) vs

  unfoldable pub merge_chain : List (VersionJson V) → ResolvedVersion V
  merge_chain chain = record (scalars chain) {
    libraries = (merge_libraries (record { libs = []; seen = [] }) chain).libs;
  }

  -- `reverse`, of the list before what is reversed already
  unfoldable pub reverse_onto : List (VersionJson V) → List (VersionJson V) → List (VersionJson V)
  reverse_onto [] done = done
  reverse_onto (v ∷ vs) done = reverse_onto vs (v ∷ done)

  -- The loop of `resolve_version_chain`. `chain` is what is collected so far with the version that was
  -- pushed last at its head, which is how `chain.reverse()` leaves it. An id is asked for once at most, so that what `fetch_json` returns
  -- is a function of it. `none` is a loop that still runs when the fuel is spent.
  unfoldable pub walk :
      (Text → RcResult (VersionJson V))
      → ℕ
      → Text
      → List Text
      → List (VersionJson V)
      → Option (RcResult (ResolvedVersion V))
  walk fetch_json zero current visited chain = none
  walk fetch_json (suc fuel) current visited chain =
      if contains current visited
      then some (err (other "inheritance cycle detected"))
      else elim (fetch_json current) [
        | err e ↦ some (err e)
        | ok json ↦ elim json.inherits_from [
          | none ↦ some (ok (merge_chain (json ∷ chain)))
          | some parent ↦ walk fetch_json fuel parent (current ∷ visited) (json ∷ chain)
        ]
      ]

  unfoldable pub resolve_version_chain :
      (Text → RcResult (VersionJson V)) → ℕ → Text → Option (RcResult (ResolvedVersion V))
  resolve_version_chain fetch_json fuel start_id = walk fetch_json fuel start_id [] []

  -- How `resolve_version` of game/resolve.rs gets a version: its URL is in the manifest.
  unfoldable pub fetch_entry :
      (Text → RcResult (VersionJson V)) → VersionManifest → Text → RcResult (VersionJson V)
  fetch_entry download m id = elim (find_entry id m.versions) [
    | none ↦ err (other "version not found in manifest")
    | some entry ↦ download entry.url
  ]

  -- `resolve_version`, whose loop is that of `resolve_version_chain`
  unfoldable pub resolve_version :
      (Text → RcResult (VersionJson V))
      → VersionManifest
      → ℕ
      → Text
      → Option (RcResult (ResolvedVersion V))
  resolve_version download m fuel version_id = walk (fetch_entry download m) fuel version_id [] []
