-- ===== src/Download/Manager/Stale.antt =====
-- Runs of download/manager.rs that start from a side-car which lists every chunk: nothing is
-- fetched, whatever the temporary file holds.
use rc_launcher.Base.{
  ℕ, zero, suc, ◌+◌, ◌≤◌, ◌<◌, ◌≡◌, refl, ap, ◌∙◌, Bool, true, false, not, ◌||◌, List, length,
  replicate, none, some, ok, err, ◌==◌, arith,
}
use rc_launcher.Error.{checksum_mismatch}
use rc_launcher.Robust.Backoff.{u64_mod}
use rc_launcher.Download.Plan.{plan_from, plan_chunks, div_ceil}
use rc_launcher.Download.Plan.Tiling.{plan_from-eq-cons, within}
use rc_launcher.Download.Resume.{DownloadState, has_chunk, chunk_set, completed_bytes, load_state}
use rc_launcher.Download.Resume.Sets.{has_chunk-chunk_set}
use rc_launcher.Download.Chunk.{DownloadOptions, Transfer}
use rc_launcher.Download.Manager.{
  Checksum, DownloadTask, Services, Files, presize, run_chunks, begin_transfer, finalize,
  download_chunked, hex_eq, digest_of, expected,
}
use rc_launcher.Download.Manager.Steps.{presize_kept, load_state_kept}
use rc_launcher.Download.Manager.Progress.{index_of}

module _ (services : Services) (options : DownloadOptions) (total : ℕ)
    (positive : 0 < options.chunk_size) (fits : total + options.chunk_size ≤ u64_mod) where
  abbrev c : ℕ
  c = options.chunk_size

  run_chunks_skips :
      (done : List ℕ) (n i : ℕ) (t : Transfer)
      → i + n ≡ div_ceil total c
      → ((j : ℕ) → j < div_ceil total c → has_chunk j done ≡ true)
      → run_chunks services options total done (plan_from n i total c) t ≡ (t, ok tt)
  unfolding run_chunks
  run_chunks_skips done zero i t e h = unfold plan_from in refl
  run_chunks_skips done (suc n) i t e h =
      let inside = within total c i positive (omega arith) in
      rw (plan_from-eq-cons n i total c positive fits inside, run_chunks)
        (rw (index_of i c positive)
          (rw (h i (omega arith)) (run_chunks_skips done n (i + 1) t (omega arith) h)))

  all_skipped :
      (done : List ℕ) (t : Transfer)
      → 0 < total
      → ((j : ℕ) → j < div_ceil total c → has_chunk j done ≡ true)
      → run_chunks services options total done (plan_chunks total c) t ≡ (t, ok tt)
  unfolding plan_chunks
  all_skipped done t some_bytes h =
      let z : (total == 0 || c == 0) ≡ false = ground arith in
      rw z (run_chunks_skips done (div_ceil total c) 0 t (omega arith) h)

  abbrev kept : Files → DownloadState → Transfer
  kept files s = record {
    temp = presize total files.temp;
    completed = chunk_set s.completed;
    downloaded = completed_bytes s;
    gate = 0;
    sidecar = files.sidecar;
  }

  begin_kept :
      (files : Files) (s : DownloadState)
      → load_state total c files.sidecar ≡ s
      → begin_transfer services options total files ≡ kept files s
  unfolding begin_transfer
  begin_kept files s q = rw q

  stale_lem :
      (task : DownloadTask) (files : Files) (s : DownloadState)
      → 0 < total
      → files.sidecar ≡ some s
      → s.total_size ≡ total
      → s.chunk_size ≡ c
      → ((j : ℕ) → j < div_ceil total c → has_chunk j s.completed ≡ true)
      → (resumed : Bool) × (download_chunked services options task total files
          ≡ finalize services options task (presize total files.temp) total resumed (record files {
            sidecar =
                some (record {
                  total_size = total;
                  chunk_size = c;
                  completed = chunk_set s.completed;
                });
          }))
  unfolding download_chunked
  stale_lem task files s some_bytes e w w' h =
      let q = load_state_kept total c files.sidecar s e w w' in
      let t = begin_transfer services options total files in
      let b = begin_kept files s q in
      let listed : (j : ℕ) → j < div_ceil total c → has_chunk j t.completed ≡ true =
        λ j l. rw b (has_chunk-chunk_set j s.completed ∙ h j l) in
      let skipped = all_skipped t.completed t some_bytes listed in
      (not (length s.completed == 0), rw (skipped, download_chunked) (rw skipped (rw b (rw q))))

  finalize_unchecked :
      (task : DownloadTask) (temp : List ℕ) (resumed : Bool) (files : Files)
      → task.checksum ≡ none
      → finalize services options task temp total resumed files ≡ (
        record { temp = none; sidecar = none; dest = some temp },
        ok (record { size = total; resumed = resumed }),
      )
  unfolding finalize
  finalize_unchecked task temp resumed files e = rw (e, finalize)

  -- Let the chunk size and the size of the file not be 0, and let their sum fit in 64 bits. If the
  -- side-car lists every chunk of this file but the temporary file is not there, a download without
  -- a checksum succeeds with the size of the file, whatever the server would send, and the
  -- destination holds zeros.
  pub download_chunked-of_no_temp :
      (task : DownloadTask) (files : Files) (s : DownloadState)
      → 0 < total
      → files.sidecar ≡ some s
      → s.total_size ≡ total
      → s.chunk_size ≡ c
      → ((j : ℕ) → j < div_ceil total c → has_chunk j s.completed ≡ true)
      → files.temp ≡ none
      → task.checksum ≡ none
      → (resumed : Bool) × (download_chunked services options task total files ≡ (
        record { temp = none; sidecar = none; dest = some (replicate total 0) },
        ok (record { size = total; resumed = resumed }),
      ))
  unfolding presize
  download_chunked-of_no_temp task files s some_bytes e w w' h missing unchecked =
      let (resumed, q) = stale_lem task files s some_bytes e w w' h in
      let zeros : presize total files.temp ≡ replicate total 0 = rw missing in
      (
        resumed,
        q
            ∙ finalize_unchecked task (presize total files.temp) resumed _ unchecked
            ∙ ap
                (λ z. (
                  record { temp = none; sidecar = none; dest = some z },
                  ok (record { size = total; resumed = resumed }),
                ))
                zeros,
      )

  -- Let the chunk size and the size of the file not be 0, and let their sum fit in 64 bits. A
  -- download whose side-car lists every chunk of this file, and whose temporary file has the right
  -- size but not the task's checksum, fails whatever the server would send. The destination and the
  -- temporary file stay as they were, and the side-car still lists every chunk of this file, so
  -- that the next run starts from such files again.
  pub download_chunked-of_mismatch :
      (task : DownloadTask) (files : Files) (s : DownloadState) (file : List ℕ) (cs : Checksum)
      → 0 < total
      → files.sidecar ≡ some s
      → s.total_size ≡ total
      → s.chunk_size ≡ c
      → ((j : ℕ) → j < div_ceil total c → has_chunk j s.completed ≡ true)
      → files.temp ≡ some file
      → length file ≡ total
      → task.checksum ≡ some cs
      → hex_eq (digest_of services cs file) (expected cs) ≡ false
      → (s' : DownloadState) × (download_chunked services options task total files
          ≡ (record files { sidecar = some s' }, err (checksum_mismatch "" "" "")))
        × (s'.total_size ≡ total)
        × (s'.chunk_size ≡ c)
        × ((j : ℕ) → j < div_ceil total c → has_chunk j s'.completed ≡ true)
  unfolding finalize
  download_chunked-of_mismatch task files s file cs some_bytes e w w' h there size checked wrong =
      let (resumed, q) = stale_lem task files s some_bytes e w w' h in
      (
        record { total_size = total; chunk_size = c; completed = chunk_set s.completed },
        q ∙ (rw (there, presize_kept total file size) (rw (checked, finalize) (rw wrong))),
        refl,
        refl,
        λ j l. has_chunk-chunk_set j s.completed ∙ h j l,
      )
