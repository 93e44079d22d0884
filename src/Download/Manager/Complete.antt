-- ===== src/Download/Manager/Complete.antt =====
-- A chunked download of download/manager.rs, whole: what it leaves when it succeeds and when it
-- fails, and that it can be resumed.
use native.Mathlib.Nat.{div-mul-le_self}
use rc_launcher.Base.{
  ℕ, zero, suc, ◌+◌, ◌/◌, ◌≤◌, ◌<◌, ◌≡◌, refl, sym, ap, ◌∙◌, inl, inr, Bool, true, false, ◌||◌,
  List, length, get_elem?, list_ext, none, some, ok, err, ok-injective, ◌==◌, ==_iff, Result-cases,
  Bool-cases, arith,
}
use rc_launcher.Error.{RcError}
use rc_launcher.Robust.Backoff.{u64_mod}
use rc_launcher.Download.Plan.{plan_from, plan_chunks, bounds_of, div_ceil}
use rc_launcher.Download.Plan.Tiling.{plan_from-eq-cons, within, counted}
use rc_launcher.Download.Resume.{DownloadState, has_chunk, load_state}
use rc_launcher.Download.Resume.Sets.{has_chunk-chunk_set}
use rc_launcher.Download.Chunk.{DownloadOptions, Transfer, download_chunk}
use rc_launcher.Download.Chunk.Fetched.{IsHonest}
use rc_launcher.Download.Manager.{
  DownloadTask, DownloadSummary, Services, Files, run_chunks, begin_transfer, finalize,
  download_chunked,
}
use rc_launcher.Download.Manager.Steps.{
  length-presize, presize_kept, no_chunk, load_state_kept, load_state-cases, finalize-cases,
}
use rc_launcher.Download.Manager.Progress.{IsFilled, IsAt, Ahead, index_of, chunk_lem}

-- A side-car for this size and these chunks comes with a temporary file of the right size that
-- holds the resource's bytes in every chunk that it lists.
abbrev pub IsResumable : List ℕ → ℕ → Files → Type 0
IsResumable content c files =
    (s : DownloadState)
    → files.sidecar ≡ some s
    → s.total_size ≡ length content
    → s.chunk_size ≡ c
    → (file : List ℕ) × (files.temp ≡ some file)
      × (length file ≡ length content)
      × ((p : ℕ)
          → p < length content
          → has_chunk (p / c) s.completed ≡ true
          → get_elem? file p ≡ get_elem? content p)

module _ (content : List ℕ) (services : Services) (options : DownloadOptions)
    (honest : IsHonest content services.ranges) (positive : 0 < options.chunk_size)
    (fits : length content + options.chunk_size ≤ u64_mod) where
  abbrev c : ℕ
  c = options.chunk_size

  abbrev total : ℕ
  total = length content

  skipped-IsAt :
      (done : List ℕ) (i : ℕ) (t : Transfer)
      → has_chunk i done ≡ true
      → IsAt done i t
      → IsAt done (i + 1) t
  skipped-IsAt done i t h at = record {
    reached = λ j l. elim (Bool-cases (j == i)) [
      | inl e ↦ let q : j ≡ i = (==_iff j i).0 e in rw q (at.ahead i (omega arith) ∙ h)
      | inr e ↦ at.reached j (ground arith)
    ];
    ahead = λ j l. at.ahead j (omega arith);
  }

  run_chunks_lem :
      (done : List ℕ) (n i : ℕ) (t : Transfer)
      → i + n ≡ div_ceil total c
      → IsFilled content c t
      → Ahead done i t
      → let r = run_chunks services options total done (plan_from n i total c) t in
        IsFilled content c r.0 × ((r.1 ≡ ok tt) → IsAt done i t → IsAt done (i + n) r.0)
  unfolding run_chunks
  run_chunks_lem done zero i t e f ahead =
      unfold plan_from in (f, λ h at. let z : i + 0 ≡ i = omega arith in rw z at)
  run_chunks_lem done (suc n) i t e f ahead =
      let inside = within total c i positive (omega arith) in
      let z : i + suc n ≡ i + 1 + n = omega arith in
      let one = download_chunk services.ranges options total (bounds_of total c i) t in
      rw (plan_from-eq-cons n i total c positive fits inside, run_chunks)
        (rw (index_of i c positive, z)
          (elim (Bool-cases (has_chunk i done)) [
            | inl old ↦
                let (f', good) =
                  run_chunks_lem done n (i + 1) t (omega arith) f (λ j l. ahead j (omega arith)) in
                rw old (f', λ h at. good h (skipped-IsAt done i t old at))
            | inr missing ↦
                let (f', ahead', good) =
                  chunk_lem content services.ranges options honest positive done i t fits inside
                    missing f ahead in
                let (f'', later) = run_chunks_lem done n (i + 1) one.0 (omega arith) f' ahead' in
                rw missing (elim (Result-cases one.1) [
                  | inl (done', q) ↦ rw (q, run_chunks) (f'', λ h at. later h (good q at))
                  | inr (x, q) ↦ rw (q, run_chunks) (f'', λ h. absurd (cc))
                ])
          ]))

  begin-IsFilled :
      (files : Files)
      → IsResumable content c files
      → IsFilled content c (begin_transfer services options total files)
  unfolding begin_transfer
  begin-IsFilled files h =
      let state = load_state total c files.sidecar in
      record {
        sized = length-presize total files.temp;
        right = λ p l m.
            let m' : has_chunk (p / c) state.completed ≡ true =
              sym (has_chunk-chunk_set (p / c) state.completed) ∙ m in
            elim (load_state-cases total c files.sidecar) [
              | inl e ↦ absurd (no_chunk (p / c) (rw e at m'))
              | inr (s, e, w, w', q) ↦
                  let (file, there, size, good) = h s e w w' in
                  rw (there, presize_kept total file size) (good p l (rw q at m'))
            ];
        noted = λ s i e w w' m.
            has_chunk-chunk_set i state.completed
            ∙ (rw (load_state_kept total c files.sidecar s e w w') m);
      }

  begin-IsAt :
      (files : Files) → let t = begin_transfer services options total files in IsAt t.completed 0 t
  begin-IsAt files = record { reached = λ j l. absurd (omega arith); ahead = λ j l. refl }

  -- All chunks complete: the file is the resource.
  whole_file :
      (done : List ℕ) (t : Transfer)
      → IsFilled content c t
      → IsAt done (div_ceil total c) t
      → t.temp ≡ content
  whole_file done t f at = list_ext t.temp content f.sized λ p l.
      let low = div-mul-le_self p c in
      let p' : p < total = omega (arith, f.sized) in
      f.right p p' (at.reached (p / c) (counted total c (p / c) positive (omega arith)))

  pub ran_lem :
      (files : Files)
      → 0 < total
      → IsResumable content c files
      → let t = begin_transfer services options total files in
        let r = run_chunks services options total t.completed (plan_chunks total c) t in
        IsFilled content c r.0 × ((r.1 ≡ ok tt) → r.0.temp ≡ content)
  ran_lem files some_bytes h =
      let t = begin_transfer services options total files in
      let e : plan_chunks total c ≡ plan_from (div_ceil total c) 0 total c =
        unfold plan_chunks in let z : (total == 0 || c == 0) ≡ false = ground arith in rw z in
      let z : 0 + div_ceil total c ≡ div_ceil total c = omega arith in
      let (f, good) =
        run_chunks_lem t.completed (div_ceil total c) 0 t z (begin-IsFilled files h)
          (begin-IsAt files).ahead in
      rw e (f, λ q. whole_file t.completed _ f (rw z at (good q (begin-IsAt files))))

  finish_lem :
      (task : DownloadTask) (resumed : Bool) (files : Files)
      → let r = finalize services options task content total resumed files in
        ((summary : DownloadSummary)
          → r.1 ≡ ok summary
          → (r.0 ≡ record { temp = none; sidecar = none; dest = some content })
            × (summary.size ≡ total))
        × ((e : RcError) → r.1 ≡ err e → (r.0.dest ≡ files.dest) × IsResumable content c r.0)
  finish_lem task resumed files =
      elim (finalize-cases services options task content total resumed files) [
        | inl (moved, done) ↦
            rw (moved, done)
              (
                (λ summary k.
                    let k' = ok-injective k in
                    (refl, ap (λ (x : DownloadSummary). x.size) (sym k'))),
                (λ e k. absurd (cc)),
              )
        | inr (kept, failed) ↦
            rw (kept, failed)
              (
                (λ summary k. absurd (cc)),
                (λ e k. (refl, λ s w a b. (content, refl, refl, λ p l m. refl))),
              )
      ]

  -- Let the chunk size and the size of the resource not be 0, and let their sum fit in 64 bits.
  -- Start from files that can be resumed, with a source of which no attempt, not even one that fails,
  -- writes more bytes than its range has (which excludes a server that answers with the whole
  -- resource), and of which an attempt that reports a number of bytes has written so many bytes of the
  -- resource from the start of the range. All missing chunks run, one after another. If the download
  -- succeeds, the destination holds exactly the resource, and the temporary file and the side-car are
  -- gone. If it fails, the destination is untouched, and the files can be resumed again.
  pub download_chunked_lem :
      (task : DownloadTask) (files : Files)
      → 0 < total
      → IsResumable content c files
      → let r = download_chunked services options task total files in
        ((summary : DownloadSummary)
          → r.1 ≡ ok summary
          → (r.0 ≡ record { temp = none; sidecar = none; dest = some content })
            × (summary.size ≡ total))
        × ((e : RcError) → r.1 ≡ err e → (r.0.dest ≡ files.dest) × IsResumable content c r.0)
  unfolding download_chunked
  download_chunked_lem task files some_bytes h =
      let t = begin_transfer services options total files in
      let ran = run_chunks services options total t.completed (plan_chunks total c) t in
      let (f, good) = ran_lem files some_bytes h in
      elim (Result-cases ran.1) [
        | inr (x, q) ↦
            rw (q, download_chunked)
              (
                (λ summary k. absurd (cc)),
                (λ e k. (
                  refl,
                  λ s w a b.
                      (ran.0.temp, refl, f.sized, λ p l m. f.right p l (f.noted s (p / c) w a b m)),
                )),
              )
        | inl (done', q) ↦ rw (q, download_chunked) (rw (good q) (finish_lem task _ _))
      ]
