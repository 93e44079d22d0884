-- ===== src/Game/Plan.antt =====
-- game/resolve.rs: the plan of what to download for a resolved version, and game/assets.rs. The root
-- of the data directory, the provider of mirrors with the parser of URLs, and the accessors of JSON
-- values (serde_json) are parameters.
pub mod Merged
pub mod Items
use rc_launcher.Base.{
  ℕ, ◌+◌, Bool, true, false, ◌||◌, Option, none, some, List, [], ◌∷◌, ◌++◌, map, ltb, if◌then◌else◌,
}
use rc_launcher.Base.Text.{Text, codes, text_eq, contains, lookup}
use rc_launcher.Download.Manager.{Checksum, sha1}
use rc_launcher.Game.Platform.{Platform}
use rc_launcher.Game.Library.{
  Library, Artifact, is_allowed, artifact_url, maven_path, native_classifier, classifier_url,
}
use rc_launcher.Game.Version.{ResolvedVersion, DownloadInfo, AssetIndexRef, or_else}
use rc_launcher.Game.Path.{PathBuf, path_eq, join}
use rc_launcher.Mirror.{Url, MirrorProvider, rewrite_all}

pub data ArtifactKind : Type 0 where
  client library asset_index asset_object logging : ArtifactKind

-- `PartialEq` of `ArtifactKind`
unfoldable pub kind_eq : ArtifactKind → ArtifactKind → Bool
kind_eq client client = true
kind_eq library library = true
kind_eq asset_index asset_index = true
kind_eq asset_object asset_object = true
kind_eq logging logging = true
kind_eq _ _ = false

pub record DownloadItem : Type 0 where
  pub id : Text
  pub url : Text
  pub mirrors : List Text
  pub dest : PathBuf
  pub checksum : Option Checksum
  pub size : Option ℕ
  pub kind : ArtifactKind

-- The mirrors that are not among the old ones yet, behind them.
unfoldable pub add_mirrors : List Text → List Text → List Text
add_mirrors old [] = old
add_mirrors old (m ∷ ms) = add_mirrors (if contains m old then old else old ++ (m ∷ [])) ms

-- The URL that stays if it is not empty.
abbrev pub or_url : Text → Text → Text
or_url [] url = url
or_url (c ∷ t) url = c ∷ t

-- What `add` makes of an item that is there already.
unfoldable pub complete : DownloadItem → DownloadItem → DownloadItem
complete existing item = record existing {
  checksum = or_else existing.checksum item.checksum;
  size = or_else existing.size item.size;
  url = or_url existing.url item.url;
  mirrors = add_mirrors existing.mirrors item.mirrors;
}

-- `DownloadPlan` is the list of its items; `add` completes the first one of that destination.
unfoldable pub add : List DownloadItem → DownloadItem → List DownloadItem
add [] item = item ∷ []
add (i ∷ is) item =
    let rest = add is item in if path_eq i.dest item.dest then complete i item ∷ is else i ∷ rest

-- `plan.add` of each item
unfoldable pub add_all : List DownloadItem → List DownloadItem → List DownloadItem
add_all plan [] = plan
add_all plan (i ∷ is) = add_all (add plan i) is

unfoldable pub has_path : PathBuf → List PathBuf → Bool
has_path p [] = false
has_path p (q ∷ qs) = let later = has_path p qs in path_eq p q || later

-- The loop of `dedup`, with the destinations that it has seen.
unfoldable pub dedup_after : List PathBuf → List DownloadItem → List DownloadItem
dedup_after seen [] = []
dedup_after seen (i ∷ is) =
    let rest = dedup_after (i.dest ∷ seen) is in
    let without = dedup_after seen is in if has_path i.dest seen then without else i ∷ rest

unfoldable pub dedup : List DownloadItem → List DownloadItem
dedup = dedup_after []

unfoldable pub total_bytes : List DownloadItem → ℕ
total_bytes [] = 0
total_bytes (i ∷ is) = elim i.size [ none ↦ total_bytes is | some n ↦ n + total_bytes is ]

unfoldable pub count_kind : ArtifactKind → List DownloadItem → ℕ
count_kind k [] = 0
count_kind k (i ∷ is) = (if kind_eq i.kind k then 1 else 0) + count_kind k is

-- What the code reads of a JSON value.
pub record Json (V : Type 0) : Type 0 where
  pub get : V → Text → Option V
  pub as_str : V → Option Text
  pub as_u64 : V → Option ℕ

abbrev pub and_then {ℓ κ} : {A : Type ℓ} {B : Type κ} → Option A → (A → Option B) → Option B
and_then none f = none
and_then (some a) f = f a

-- `AssetObject`, and `AssetsIndex` with the entries of its map
pub record AssetObject : Type 0 where
  pub hash : Text
  pub size : ℕ

pub record AssetsIndex : Type 0 where
  pub id : Option Text
  pub objects : List (Text × AssetObject)
  pub map_to_resources : Option Bool

-- `hash.get(..2)`: the first two bytes, if a character ends there
unfoldable pub first_two : Text → Option Text
first_two [] = none
first_two (c ∷ []) = if ltb c 128 then none else if ltb c 2048 then some (c ∷ []) else none
first_two (c ∷ d ∷ t) =
    if ltb c 128
    then (if ltb d 128 then some (c ∷ d ∷ []) else none)
    else if ltb c 2048
    then some (c ∷ [])
    else none

-- `DependencyResolver`
pub record Resolver : Type 0 where
  pub platform : Platform
  pub mirror : MirrorProvider
  pub root : PathBuf

module _ (parse : Text → Option Url) (res : Resolver) where
  -- `DependencyResolver::item`
  unfoldable pub item : Text → Text → PathBuf → Option Text → Option ℕ → ArtifactKind → DownloadItem
  item id url dest hash size kind = record {
    id = id;
    url = url;
    mirrors = rewrite_all parse res.mirror url;
    dest = dest;
    checksum = elim hash [ none ↦ none | some h ↦ some (sha1 h) ];
    size = size;
    kind = kind;
  }

  abbrev pub in_libraries : Text → PathBuf
  in_libraries path = join (join res.root (codes "libraries")) path

  -- The item of a library's main jar, if it has one.
  unfoldable pub main_jar : Library → Option DownloadItem
  main_jar lib = elim (artifact_url lib) [
    | none ↦ none
    | some url ↦
        let art = lib.downloads.artifact in
        some (
          item (codes "library/" ++ lib.name) url (in_libraries (maven_path lib.name none))
            (and_then art (λ a. a.sha1)) (and_then art (λ a. a.size)) library)
  ]

  -- The item of a library's native jar for the platform, if there is one.
  unfoldable pub native_jar : Library → Option DownloadItem
  native_jar lib = and_then (native_classifier lib res.platform) (λ classifier.
      and_then (classifier_url lib classifier) (λ url.
        let art = lookup classifier lib.downloads.classifiers in
        some (
          item (codes "native/" ++ (lib.name ++ (b'/' ∷ classifier))) url
            (in_libraries (maven_path lib.name (some classifier))) (and_then art (λ a. a.sha1))
            (and_then art (λ a. a.size)) library)))

  abbrev pub add_some : List DownloadItem → Option DownloadItem → List DownloadItem
  add_some plan none = plan
  add_some plan (some i) = add plan i

  -- The body of the loop over the libraries.
  unfoldable pub plan_library : List DownloadItem → Library → List DownloadItem
  plan_library plan lib =
      if is_allowed lib res.platform []
      then add_some (add_some plan (main_jar lib)) (native_jar lib)
      else plan

  unfoldable pub plan_libraries : List DownloadItem → List Library → List DownloadItem
  plan_libraries plan [] = plan
  plan_libraries plan (lib ∷ libs) = plan_libraries (plan_library plan lib) libs

  unfoldable pub object_item : Text → AssetObject → Option DownloadItem
  object_item name obj = and_then (first_two obj.hash) (λ prefix.
      let dir = join (join (join res.root (codes "assets")) (codes "objects")) prefix in
      some (
        item (codes "asset/" ++ name)
          (codes "https://resources.download.minecraft.net/" ++ (prefix ++ (b'/' ∷ obj.hash)))
          (join dir obj.hash) (some obj.hash) (some obj.size) asset_object))

  unfoldable pub plan_assets : List (Text × AssetObject) → List DownloadItem
  plan_assets [] = []
  plan_assets ((name, obj) ∷ rest) = elim (object_item name obj) [
    | none ↦ plan_assets rest
    | some i ↦ i ∷ plan_assets rest
  ]

  module _ {V : Type 0} (json : Json V) where
    unfoldable pub client_item : ResolvedVersion V → Option DownloadItem
    client_item r = elim r.downloads.client [
      | none ↦ none
      | some c ↦
          let dir = join (join res.root (codes "versions")) r.id in
          some (
            item (codes "client/" ++ r.id) c.url (join dir (r.id ++ codes ".jar")) c.sha1 c.size
              client)
    ]

    unfoldable pub index_item : ResolvedVersion V → Option DownloadItem
    index_item r = elim r.asset_index [
      | none ↦ none
      | some ai ↦
          let dir = join (join res.root (codes "assets")) (codes "indexes") in
          some (
            item (codes "assetindex/" ++ ai.id) ai.url (join dir (ai.id ++ codes ".json")) ai.sha1
              ai.size asset_index)
    ]

    -- The item of the file that a logging block names.
    unfoldable pub logging_file : V → Option DownloadItem
    logging_file file = and_then (and_then (json.get file (codes "url")) json.as_str) (λ url.
        and_then (and_then (json.get file (codes "id")) json.as_str) (λ id.
          let dir = join (join res.root (codes "assets")) (codes "log_configs") in
          some (
            item (codes "logging/" ++ id) url (join dir (id ++ codes ".xml"))
              (and_then (json.get file (codes "sha1")) json.as_str)
              (and_then (json.get file (codes "size")) json.as_u64) logging)))

    unfoldable pub logging_item : ResolvedVersion V → Option DownloadItem
    logging_item r = and_then r.logging (λ l.
        and_then (and_then (json.get l (codes "client")) (λ c. json.get c (codes "file")))
          logging_file)

    unfoldable pub build_plan : ResolvedVersion V → List DownloadItem
    build_plan r =
        let head = add_some (add_some [] (client_item r)) (index_item r) in
        dedup (add_some (plan_libraries head r.libraries) (logging_item r))

    unfoldable pub build_full_plan : ResolvedVersion V → AssetsIndex → List DownloadItem
    build_full_plan r assets = dedup (add_all (build_plan r) (plan_assets assets.objects))
