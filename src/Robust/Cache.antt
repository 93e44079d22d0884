-- ===== src/Robust/Cache.antt =====
-- robust/cache.rs: the on-disk cache, and the fetch that degrades to it. The directory is a
-- function from a key to the bytes of its `.bin` file, and one to the contents of its `.meta`
-- file; `none` is a file that is not there, or metadata that does not parse. Whether a disk write
-- fails, and the clock in seconds, are arguments.
pub mod Laws
use text.Mathlib.Text.{◌==◌ as str_eq}
use rc_launcher.Base.{
  ℕ, ◌+◌, min, String, Bool, true, false, Option, none, some, List, take, ok, err, leb,
  if◌then◌else◌, ◌^◌, ◌-◌,
}
use rc_launcher.Error.{RcResult, io, IoKind, offline, is_transient}
use rc_launcher.Robust.Retry.{RetryPolicy, retry}

abbrev pub Bytes : Type 0
Bytes = List ℕ

-- `EntryMeta`
pub record EntryMeta : Type 0 where
  pub stored_at : ℕ
  pub ttl_secs : Option ℕ

-- `CacheStore`: what is on disk below its root
pub record CacheStore : Type 0 where
  pub bin : String → Option Bytes
  pub meta : String → Option EntryMeta

-- How `tokio::fs::write` fails: it cannot open the file, or it has truncated the file and breaks off
-- after some bytes.
pub data WriteFailure : Type 0 where
  not_opened : IoKind → WriteFailure
  broken_off : IoKind → ℕ → WriteFailure

-- Which of the two writes of a `put` fails, if any.
pub record Disk : Type 0 where
  pub bin_write : Option WriteFailure
  pub meta_write : Option WriteFailure

abbrev pub update {ℓ} : {A : Type ℓ} → (String → A) → String → A → String → A
update f key v k = if str_eq key k then v else f k

-- `u64::saturating_add`
abbrev pub saturating_add : ℕ → ℕ → ℕ
saturating_add a b = min (a + b) (2 ^ 64 - 1)

unfoldable pub get : CacheStore → String → Option Bytes
get c key = c.bin key

unfoldable pub contains : CacheStore → String → Bool
contains c key = elim (c.bin key) [ none ↦ false | some _ ↦ true ]

-- The last second at which an entry is fresh; `none` is for ever.
abbrev pub age_limit : EntryMeta → Option ℕ → Option ℕ
age_limit m max_age = elim m.ttl_secs [
  | some ttl ↦ some (saturating_add m.stored_at ttl)
  | none ↦ elim max_age [ some age ↦ some (saturating_add m.stored_at age) | none ↦ none ]
]

unfoldable pub is_fresh : CacheStore → String → Option ℕ → ℕ → Bool
is_fresh c key max_age now = elim (c.meta key) [
  | none ↦ false
  | some m ↦ elim (age_limit m max_age) [ none ↦ true | some last ↦ leb now last ]
]

-- What a failed write of the data leaves, and its error.
unfoldable pub fail_bin :
    CacheStore → String → Bytes → WriteFailure → CacheStore × RcResult (Unit {0})
fail_bin c key bytes (not_opened k) = (c, err (io k))
fail_bin c key bytes (broken_off k n) =
    (record c { bin = update c.bin key (some (take n bytes)) }, err (io k))

-- Metadata that breaks off does not parse.
unfoldable pub fail_meta : CacheStore → String → WriteFailure → CacheStore × RcResult (Unit {0})
fail_meta c key (not_opened k) = (c, err (io k))
fail_meta c key (broken_off k n) = (record c { meta = update c.meta key none }, err (io k))

-- The data is written first: a failure there leaves the metadata as it was.
unfoldable pub put :
    CacheStore → Disk → ℕ → String → Bytes → Option ℕ → CacheStore × RcResult (Unit {0})
put c disk now key bytes ttl = elim disk.bin_write [
  | some f ↦ fail_bin c key bytes f
  | none ↦
      let c' = record c { bin = update c.bin key (some bytes) } in
      elim disk.meta_write [
        | some f ↦ fail_meta c' key f
        | none ↦
            let m : EntryMeta = record { stored_at = now; ttl_secs = ttl } in
            (record c' { meta = update c'.meta key (some m) }, ok tt)
      ]
]

unfoldable pub remove : CacheStore → String → CacheStore
remove c key = record { bin = update c.bin key none; meta = update c.meta key none }

-- `FetchResult` of download/client.rs
pub record FetchResult : Type 0 where
  pub bytes : Bytes
  pub total_size : ℕ
  pub supports_range : Bool

pub record Cached : Type 0 where
  pub bytes : Bytes
  pub from_cache : Bool
  pub degraded : Bool

-- The path that is taken offline and on a transient failure.
unfoldable pub degrade : CacheStore → String → RcResult Cached
unfolding contains get
degrade c key =
    if contains c key
    then elim (get c key) [
      | some bytes ↦ ok (record { bytes = bytes; from_cache = true; degraded = true })
      | none ↦ err (offline "no cached copy")
    ]
    else err (offline "no cached copy")

-- What is done with the outcome of the retried fetch.
unfoldable pub settle :
    CacheStore → Disk → ℕ → String → RcResult FetchResult → CacheStore × RcResult Cached
unfolding put degrade
settle c disk now key (ok r) = (
  (put c disk now key r.bytes none).0,
  ok (record { bytes = r.bytes; from_cache = false; degraded = false }),
)
settle c disk now key (err e) = if is_transient e then (c, degrade c key) else (c, err e)

unfoldable pub fetch_cached :
    (ℕ → RcResult FetchResult)
    → CacheStore
    → Disk
    → ℕ
    → String
    → RetryPolicy
    → Bool
    → CacheStore × RcResult Cached
unfolding settle
fetch_cached source c disk now key policy force_offline =
    if force_offline then (c, degrade c key) else settle c disk now key (retry policy source).result
