-- ===== src/Download/Chunk.antt =====
-- `download_chunk` of download/manager.rs: one byte range of the temporary file, fetched with
-- retries and then recorded. The HTTP source is a parameter: for an inclusive range and the number
-- of the call, from 0, the bytes that it writes and what it returns. Backoff and progress events
-- change nothing here, and the local disk does not fail.
pub mod Fetched
use rc_launcher.Base.{
  ℕ, zero, suc, ◌+◌, ◌-◌, ◌/◌, ◌%◌, max, List, [], ◌∷◌, ◌++◌, length, take, drop, replicate, Option,
  none, some, Result, ok, err, ◌==◌, if◌then◌else◌,
}
use rc_launcher.Error.{RcError, RcResult, download}
use rc_launcher.Download.Resume.{DownloadState, insert_chunk}

-- The options but the suffix of the temporary file; delays and timeouts are in milliseconds, the
-- jitter in thousandths.
pub record DownloadOptions : Type 0 where
  pub chunk_size : ℕ
  pub concurrency : ℕ
  pub max_retries : ℕ
  pub retry_base : ℕ
  pub retry_max : ℕ
  pub retry_jitter : ℕ
  pub connect_timeout : ℕ
  pub read_timeout : ℕ
  pub max_batch_concurrency : ℕ
  pub meta_persist_every : ℕ

abbrev pub default_options : DownloadOptions
default_options = record {
  chunk_size = 8388608;
  concurrency = 8;
  max_retries = 5;
  retry_base = 500;
  retry_max = 30000;
  retry_jitter = 250;
  connect_timeout = 30000;
  read_timeout = 60000;
  max_batch_concurrency = 4;
  meta_persist_every = 16;
}

-- `fetch_range_into(url, start, Some(end), writer)`: start, end, and the number of the call.
abbrev pub Source : Type 0
Source = ℕ → ℕ → ℕ → List ℕ × RcResult ℕ

-- A write at an offset of an open file: a gap is filled with zeros, what lies after stays.
unfoldable pub seek_write : ℕ → List ℕ → List ℕ → List ℕ
seek_write at [] file = file
seek_write at (b ∷ bytes) file =
    take at (file ++ replicate (at - length file) 0)
    ++ (b ∷ bytes)
    ++ drop (at + length (b ∷ bytes)) file

-- One pass of the loop: the file, and the result, where a length that was not asked is an error.
unfoldable pub checked : ℕ → RcResult ℕ → RcResult ℕ
checked expected (ok n) = if n == expected then ok n else err (download "chunk length mismatch")
checked expected (err e) = err e

module _ (source : Source) (start last : ℕ) where
  unfoldable pub fetch_once : ℕ → List ℕ → List ℕ × RcResult ℕ
  fetch_once call file = (
    seek_write start (source start last call).0 file,
    checked (last - start + 1) (source start last call).1,
  )

  -- The loop, with the retries that are left.
  unfoldable pub fetch_loop : ℕ → ℕ → List ℕ → List ℕ × RcResult ℕ
  fetch_loop zero call file = fetch_once call file
  fetch_loop (suc retries) call file =
      let again = fetch_loop retries (call + 1) (fetch_once call file).0 in
      elim ((fetch_once call file).1) [ ok n ↦ ((fetch_once call file).0, ok n) | err _ ↦ again ]

-- What the chunks of a run share: the temporary file, the completed chunks, the counter of bytes,
-- the counter of completions, and the side-car on disk.
pub record Transfer : Type 0 where
  pub temp : List ℕ
  pub completed : List ℕ
  pub downloaded : ℕ
  pub gate : ℕ
  pub sidecar : Option DownloadState

-- The side-car is written at every `meta_persist_every`-th completion.
unfoldable pub record_chunk : DownloadOptions → ℕ → ℕ → ℕ → Transfer → Transfer
record_chunk options total i written t =
    let completed = insert_chunk i t.completed in
    let gate = t.gate + 1 in
    record t {
      completed = completed;
      downloaded = t.downloaded + written;
      gate = gate;
      sidecar =
          if gate % max options.meta_persist_every 1 == 0
          then some (record {
            total_size = total;
            chunk_size = options.chunk_size;
            completed = completed;
          })
          else t.sidecar;
    }

unfoldable pub download_chunk :
    Source → DownloadOptions → ℕ → ℕ × ℕ → Transfer → Transfer × RcResult (Unit {0})
download_chunk source options total (start, last) t =
    let fetched = fetch_loop source start last options.max_retries 0 t.temp in
    let t' = record t { temp = fetched.0 } in
    elim (fetched.1) [
      | ok n ↦ (record_chunk options total (start / options.chunk_size) n t', ok tt)
      | err e ↦ (t', err e)
    ]
