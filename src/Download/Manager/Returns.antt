-- ===== src/Download/Manager/Returns.antt =====
-- That a chunked download of download/manager.rs succeeds when the server answers in time.
use rc_launcher.Base.{
  ℕ, zero, suc, ◌+◌, ◌-◌, ◌*◌, ◌≤◌, ◌<◌, ◌≡◌, refl, inl, inr, true, false, ◌||◌, List, length, none,
  some, Option-cases, ok, ◌==◌, Bool-cases, arith,
}
use rc_launcher.Robust.Backoff.{u64_mod}
use rc_launcher.Download.Plan.{plan_from, plan_chunks, bounds_of, div_ceil}
use rc_launcher.Download.Plan.Tiling.{plan_from-eq-cons, within}
use rc_launcher.Download.Resume.{has_chunk}
use rc_launcher.Download.Chunk.{DownloadOptions, Transfer, Source, download_chunk}
use rc_launcher.Download.Chunk.Fetched.{IsHonest, fetch_loop_succeeds}
use rc_launcher.Download.Manager.{
  Checksum, DownloadTask, Services, Files, run_chunks, begin_transfer, finalize, download_chunked,
  is_resumed, hex_eq, digest_of, expected,
}
use rc_launcher.Download.Manager.Progress.{index_of}
use rc_launcher.Download.Manager.Complete.{IsResumable, ran_lem}

-- For every chunk of the file, one of the attempts that the retries allow returns its length.
abbrev pub AnswersInTime : Source → DownloadOptions → ℕ → Type 0
AnswersInTime source options total =
    (i : ℕ)
    → i * options.chunk_size < total
    → let range = bounds_of total options.chunk_size i in
      (j : ℕ) × (j ≤ options.max_retries)
      × ((source range.0 range.1 j).1 ≡ ok (range.1 - range.0 + 1))

module _ (services : Services) (options : DownloadOptions) (total : ℕ)
    (positive : 0 < options.chunk_size) (fits : total + options.chunk_size ≤ u64_mod)
    (answers : AnswersInTime services.ranges options total) where
  abbrev c : ℕ
  c = options.chunk_size

  chunk_returns :
      (i : ℕ) (t : Transfer)
      → i * c < total
      → (download_chunk services.ranges options total (bounds_of total c i) t).1 ≡ ok tt
  unfolding download_chunk
  chunk_returns i t l =
      let (j, soon, good) = answers i l in
      let q =
        fetch_loop_succeeds services.ranges (bounds_of total c i).0 (bounds_of total c i).1
          options.max_retries 0 t.temp j j (omega arith) soon good in
      rw (q, download_chunk)

  run_returns :
      (done : List ℕ) (n i : ℕ) (t : Transfer)
      → i + n ≡ div_ceil total c
      → (run_chunks services options total done (plan_from n i total c) t).1 ≡ ok tt
  unfolding run_chunks
  run_returns done zero i t e = unfold plan_from in refl
  run_returns done (suc n) i t e =
      let inside = within total c i positive (omega arith) in
      let one = download_chunk services.ranges options total (bounds_of total c i) t in
      rw (plan_from-eq-cons n i total c positive fits inside, run_chunks)
        (rw (index_of i c positive) (elim (Bool-cases (has_chunk i done)) [
          | inl old ↦ rw old (run_returns done n (i + 1) t (omega arith))
          | inr missing ↦ rw missing (
              rw (chunk_returns i t inside, run_chunks)
                (run_returns done n (i + 1) one.0 (omega arith)))
        ]))

-- Let the chunk size and the size of the resource not be 0, and let their sum fit in 64 bits. If
-- one of the allowed attempts for every chunk returns its length, if no attempt, not even one that
-- fails, writes more bytes than its range has (which excludes a server that answers with the whole
-- resource), and one that reports a number of bytes has written so many bytes of the resource from the
-- start of the range, and if the resource has the task's checksum, should there be one, then a
-- download from files that can be resumed succeeds, with exactly the resource at the destination. The
-- chunks run one after another.
pub download_chunked_returns :
    (content : List ℕ) (services : Services) (options : DownloadOptions) (task : DownloadTask)
    (files : Files)
    → IsHonest content services.ranges
    → AnswersInTime services.ranges options (length content)
    → 0 < options.chunk_size
    → length content + options.chunk_size ≤ u64_mod
    → 0 < length content
    → ((cs : Checksum)
        → task.checksum ≡ some cs
        → hex_eq (digest_of services cs content) (expected cs) ≡ true)
    → IsResumable content options.chunk_size files
    → download_chunked services options task (length content) files ≡ (
      record { temp = none; sidecar = none; dest = some content },
      ok (record {
        size = length content;
        resumed = is_resumed services options (length content) files;
      }),
    )
unfolding download_chunked finalize
download_chunked_returns content services options task files honest answers positive fits some_bytes
      right_sum h =
    let total = length content in
    let c = options.chunk_size in
    let t = begin_transfer services options total files in
    let e : plan_chunks total c ≡ plan_from (div_ceil total c) 0 total c =
      unfold plan_chunks in let z : (total == 0 || c == 0) ≡ false = ground arith in rw z in
    let q : (run_chunks services options total t.completed (plan_chunks total c) t).1 ≡ ok tt =
      rw e (
        run_returns services options total positive fits answers t.completed (div_ceil total c) 0 t
          (omega arith)) in
    let same = (ran_lem content services options honest positive fits files some_bytes h).1 q in
    rw (q, download_chunked)
      (rw same (elim (Option-cases task.checksum) [
        | inl none_given ↦ rw (none_given, finalize)
        | inr (cs, given) ↦ rw (given, finalize) (rw (right_sum cs given))
      ]))
