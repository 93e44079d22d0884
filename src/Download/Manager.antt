-- ===== src/Download/Manager.antt =====
-- `DownloadManager` of download/manager.rs: one download, from the size probe to the rename. The
-- HTTP source and the hash functions are parameters. A task's files are its temporary file, the
-- side-car of it and the destination. Every missing chunk is spawned, and they run one after another in
-- the order of the plan, which is what one permit gives; then they are joined, and the first error is
-- that of the run. An abort then could only meet the last chunk, which here has ended before.
pub mod Progress
pub mod Steps
pub mod Complete
pub mod Stale
pub mod Single
pub mod Returns
use rc_launcher.Base.{
  ℕ, zero, suc, ◌+◌, ◌-◌, ◌/◌, String, Bool, true, false, not, ◌&&◌, List, [], ◌∷◌, ◌++◌, length,
  replicate, Option, none, some, Result, ok, err, ◌>>=◌, leb, ◌==◌, if◌then◌else◌,
}
use rc_launcher.Error.{RcError, RcResult, download, checksum_mismatch}
use rc_launcher.Robust.Cache.{FetchResult}
use rc_launcher.Download.Plan.{plan_chunks}
use rc_launcher.Download.Resume.{DownloadState, load_state, chunk_set, has_chunk, completed_bytes}
use rc_launcher.Download.Chunk.{DownloadOptions, Source, Transfer, download_chunk}

-- A hex text is the list of its bytes.
pub data Checksum : Type 0 where
  sha1 : List ℕ → Checksum
  md5 : List ℕ → Checksum

unfoldable pub expected : Checksum → List ℕ
expected (sha1 s) = s
expected (md5 s) = s

-- `to_ascii_lowercase` of a byte
abbrev pub lower : ℕ → ℕ
lower b = if leb 65 b && leb b 90 then b + 32 else b

-- `hex_eq` of download/hash.rs: of one length, and equal up to the case of the letters
unfoldable pub hex_eq : List ℕ → List ℕ → Bool
hex_eq [] [] = true
hex_eq [] (y ∷ ys) = false
hex_eq (x ∷ xs) [] = false
hex_eq (x ∷ xs) (y ∷ ys) = lower x == lower y && hex_eq xs ys

pub record DownloadTask : Type 0 where
  pub url : String
  pub checksum : Option Checksum
  pub size : Option ℕ
  pub id : Option String

pub record DownloadSummary : Type 0 where
  pub size : ℕ
  pub resumed : Bool

-- What is on disk for one task.
pub record Files : Type 0 where
  pub temp : Option (List ℕ)
  pub sidecar : Option DownloadState
  pub dest : Option (List ℕ)

-- The temporary file is kept if it has the right size, else created anew, full of zeros.
unfoldable pub presize : ℕ → Option (List ℕ) → List ℕ
presize total none = replicate total 0
presize total (some file) = if length file == total then file else replicate total 0

-- What of the server and the hash functions the manager uses: the ranges, the whole resource by the
-- number of the call, the probe for the size, and the two digests as hex text.
pub record Services : Type 0 where
  pub ranges : Source
  pub whole : ℕ → List ℕ × RcResult ℕ
  pub probe : RcResult FetchResult
  pub sha1_path : List ℕ → List ℕ
  pub md5_path : List ℕ → List ℕ

unfoldable pub digest_of : Services → Checksum → List ℕ → List ℕ
digest_of services (sha1 _) file = services.sha1_path file
digest_of services (md5 _) file = services.md5_path file

module _ (services : Services) (options : DownloadOptions) where
  unfoldable pub run_chunks : ℕ → List ℕ → List (ℕ × ℕ) → Transfer → Transfer × RcResult (Unit {0})
  run_chunks total done [] t = (t, ok tt)
  run_chunks total done (chunk ∷ rest) t =
      let skipped = run_chunks total done rest t in
      let one = download_chunk services.ranges options total chunk t in
      let after = run_chunks total done rest one.0 in
      if has_chunk (chunk.0 / options.chunk_size) done
      then skipped
      else elim (one.1) [ ok _ ↦ after | err e ↦ (after.0, err e) ]

  -- The check, the rename, and the removal of the side-car. The texts of the mismatch are not kept.
  unfoldable pub finalize :
      DownloadTask → List ℕ → ℕ → Bool → Files → Files × RcResult DownloadSummary
  finalize task temp total resumed files =
      let kept : Files = record files { temp = some temp } in
      let moved : Files = record { temp = none; sidecar = none; dest = some temp } in
      let summary : DownloadSummary = record { size = total; resumed = resumed } in
      elim task.checksum [
        | none ↦ (moved, ok summary)
        | some cs ↦
            if not (hex_eq (digest_of services cs temp) (expected cs))
            then (kept, err (checksum_mismatch "" "" ""))
            else (moved, ok summary)
      ]

  -- The state of a run before its first chunk.
  unfoldable pub begin_transfer : ℕ → Files → Transfer
  begin_transfer total files =
      let state = load_state total options.chunk_size files.sidecar in
      record {
        temp = presize total files.temp;
        completed = chunk_set state.completed;
        downloaded = completed_bytes state;
        gate = 0;
        sidecar = files.sidecar;
      }

  -- `!state.completed.is_empty()`
  abbrev pub is_resumed : ℕ → Files → Bool
  is_resumed total files =
      not (length (load_state total options.chunk_size files.sidecar).completed == 0)

  unfoldable pub download_chunked : DownloadTask → ℕ → Files → Files × RcResult DownloadSummary
  download_chunked task total files =
      let t₀ = begin_transfer total files in
      let run = run_chunks total t₀.completed (plan_chunks total options.chunk_size) t₀ in
      let t = run.0 in
      elim (run.1) [
        | err e ↦ (record { temp = some t.temp; sidecar = t.sidecar; dest = files.dest }, err e)
        | ok _ ↦ finalize task t.temp total (is_resumed total files) (record files {
          sidecar = some (record {
            total_size = total;
            chunk_size = options.chunk_size;
            completed = t.completed;
          });
        })
      ]

  -- `retry_fetch_into`: every attempt writes on from where the one before it stopped.
  unfoldable pub fetch_whole : ℕ → ℕ → List ℕ → List ℕ × RcResult ℕ
  fetch_whole zero call file = (file ++ (services.whole call).0, (services.whole call).1)
  fetch_whole (suc retries) call file =
      let again = fetch_whole retries (call + 1) (file ++ (services.whole call).0) in
      elim ((services.whole call).1) [
        | ok n ↦ (file ++ (services.whole call).0, ok n)
        | err _ ↦ again
      ]

  unfoldable pub download_single : DownloadTask → Files → Files × RcResult DownloadSummary
  download_single task files =
      let fetched = fetch_whole options.max_retries 0 [] in
      elim (fetched.1) [
        | err e ↦ (record files { temp = some (fetched.0) }, err e)
        | ok n ↦ finalize task (fetched.0) n false files
      ]

  -- The size, if it is known, and whether ranges are honoured.
  unfoldable pub resolve : DownloadTask → RcResult (Option ℕ × Bool)
  resolve task = elim task.size [
    | some size ↦ ok (some size, true)
    | none ↦ elim services.probe [
      | err _ ↦ err (download "cannot determine size")
      | ok r ↦ if r.supports_range then ok (some r.total_size, true) else ok (none, false)
    ]
  ]

  unfoldable pub download_task : DownloadTask → Files → Files × RcResult DownloadSummary
  download_task task files = elim (resolve task) [
    | err e ↦ (files, err e)
    | ok (none, _) ↦ download_single task files
    | ok (some total, supports_range) ↦
        if total == 0
        then (record files { dest = some [] }, ok (record { size = 0; resumed = false }))
        else if supports_range
        then download_chunked task total files
        else download_single task files
  ]
