-- ===== src/Download/Manager/Steps.antt =====
-- The steps of download/manager.rs before and after the chunks of a run.
use rc_launcher.Base.{
  ℕ, ◌≡◌, refl, inl, inr, ◌⊎◌, Bool, true, false, not, ◌||◌, List, [], length, length-replicate,
  Option, none, some, Option-cases, ok, err, ◌==◌, ==_iff, Bool-cases, arith,
}
use rc_launcher.Error.{checksum_mismatch}
use rc_launcher.Download.Resume.{DownloadState, has_chunk, load_state}
use rc_launcher.Download.Chunk.{DownloadOptions}
use rc_launcher.Download.Manager.{
  DownloadTask, Services, Files, presize, hex_eq, digest_of, expected, finalize,
}

pub length-presize : (total : ℕ) (o : Option (List ℕ)) → length (presize total o) ≡ total
unfolding presize
length-presize total none = length-replicate total 0
length-presize total (some file) = elim (Bool-cases (length file == total)) [
  | inl e ↦ rw e ((==_iff (length file) total).0 e)
  | inr e ↦ rw e (length-replicate total 0)
]

pub presize_kept :
    (total : ℕ) (file : List ℕ) → length file ≡ total → presize total (some file) ≡ file
unfolding presize
presize_kept total file e =
    let t : (length file == total) ≡ true = (==_iff (length file) total).1 e in rw t

pub no_chunk : (i : ℕ) → has_chunk i [] ≡ true → ⊥
unfolding has_chunk
no_chunk i h = absurd (cc)

pub load_state_kept :
    (total c : ℕ) (o : Option DownloadState) (s : DownloadState)
    → o ≡ some s
    → s.total_size ≡ total
    → s.chunk_size ≡ c
    → load_state total c o ≡ s
unfolding load_state
load_state_kept total c o s e w w' =
    let t : (not (s.total_size == total) || not (s.chunk_size == c)) ≡ false = ground arith in
    rw (e, load_state) (rw t)

pub load_state-cases :
    (total c : ℕ) (o : Option DownloadState)
    → ((load_state total c o).completed ≡ [])
      ⊎ ((s : DownloadState) × (o ≡ some s)
          × (s.total_size ≡ total)
          × (s.chunk_size ≡ c)
          × (load_state total c o ≡ s))
unfolding load_state
load_state-cases total c none = inl refl
load_state-cases total c (some s) =
    elim (Bool-cases (not (s.total_size == total) || not (s.chunk_size == c))) [
      | inl t ↦ inl (rw t)
      | inr t ↦ inr (s, refl, ground arith, ground arith, rw t)
    ]

pub finalize-cases :
    (services : Services) (options : DownloadOptions) (task : DownloadTask) (temp : List ℕ)
    (total : ℕ) (resumed : Bool) (files : Files)
    → let r = finalize services options task temp total resumed files in
      ((r.0 ≡ record { temp = none; sidecar = none; dest = some temp })
        × (r.1 ≡ ok (record { size = total; resumed = resumed })))
      ⊎ ((r.0 ≡ record files { temp = some temp }) × (r.1 ≡ err (checksum_mismatch "" "" "")))
unfolding finalize
finalize-cases services options task temp total resumed files = elim (Option-cases task.checksum) [
  | inl e ↦ rw (e, finalize) (inl (refl, refl))
  | inr (cs, e) ↦ elim (Bool-cases (not (hex_eq (digest_of services cs temp) (expected cs)))) [
    | inl m ↦ rw (e, finalize) (rw m (inr (refl, refl)))
    | inr m ↦ rw (e, finalize) (rw m (inl (refl, refl)))
  ]
]
