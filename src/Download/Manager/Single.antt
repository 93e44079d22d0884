-- ===== src/Download/Manager/Single.antt =====
-- The single-shot path of download/manager.rs: what its retries leave in the destination.
use rc_launcher.Base.{
  ℕ, zero, suc, ◌+◌, ◌≤◌, ◌<◌, ◌≡◌, refl, ap, ◌∙◌, List, [], ◌∷◌, ◌++◌, none, some, ok, err, false,
  arith,
}
use rc_launcher.Error.{RcError, RcResult}
use rc_launcher.Download.Chunk.{DownloadOptions}
use rc_launcher.Download.Manager.{
  DownloadTask, Services, Files, fetch_whole, download_single, finalize,
}

-- What the attempts from `call` on wrote, for `n` attempts.
unfoldable pub written_by : Services → ℕ → ℕ → List ℕ
written_by services zero call = []
written_by services (suc n) call = (services.whole call).0 ++ written_by services n (call + 1)

append_assoc : (xs ys zs : List ℕ) → (xs ++ ys) ++ zs ≡ xs ++ (ys ++ zs)
append_assoc [] ys zs = refl
append_assoc (x ∷ xs) ys zs = ap (◌∷◌ x) (append_assoc xs ys zs)

append_nil : (xs : List ℕ) → xs ++ [] ≡ xs
append_nil [] = refl
append_nil (x ∷ xs) = ap (◌∷◌ x) (append_nil xs)

-- The attempt fails.
abbrev pub Fails : RcResult ℕ → Type 0
Fails r = (e : RcError) × (r ≡ err e)

module _ (services : Services) (options : DownloadOptions) where
  fetch_whole_lem :
      (retries call : ℕ) (file : List ℕ) (k n : ℕ)
      → k ≤ retries
      → ((i : ℕ) → call ≤ i → i < call + k → Fails (services.whole i).1)
      → (j : ℕ) → j ≡ call + k
      → (services.whole j).1 ≡ ok n
      → fetch_whole services options retries call file
        ≡ (file ++ written_by services (suc k) call, ok n)
  unfolding fetch_whole written_by
  fetch_whole_lem zero call file k n le fails j e good =
      let z : j ≡ call = omega arith in
      let z' : k ≡ 0 = omega arith in
      rw (z', append_nil (services.whole call).0) (rw (rw z at good))
  fetch_whole_lem (suc retries) call file zero n le fails j e good =
      let z : j ≡ call = omega arith in
      rw (append_nil (services.whole call).0) (rw (rw z at good, fetch_whole))
  fetch_whole_lem (suc retries) call file (suc k) n le fails j e good =
      let (x, q) = fails call (omega arith) (omega arith) in
      rw (q, fetch_whole)
        (fetch_whole_lem retries (call + 1) (file ++ (services.whole call).0) k n (omega arith)
            (λ i a b. fails i (omega arith) (omega arith)) j (omega arith) good
          ∙ (rw
              (append_assoc file (services.whole call).0 (written_by services (suc k) (call + 1)))))

  -- Let the first `k` attempts of a single-shot download without a checksum fail and the next
  -- succeed, within the retries. The download succeeds, the destination holds what all of these
  -- attempts wrote, one after another, and the size that is reported is that of the last one.
  pub download_single_lem :
      (task : DownloadTask) (files : Files) (k n : ℕ)
      → k ≤ options.max_retries
      → ((i : ℕ) → i < k → Fails (services.whole i).1)
      → (services.whole k).1 ≡ ok n
      → task.checksum ≡ none
      → download_single services options task files ≡ (
        record { temp = none; sidecar = none; dest = some (written_by services (suc k) 0) },
        ok (record { size = n; resumed = false }),
      )
  unfolding download_single finalize
  download_single_lem task files k n le fails good unchecked =
      let q =
        fetch_whole_lem options.max_retries 0 [] k n le (λ i a b. fails i (omega arith)) k
          (omega arith) good in
      rw (q, download_single) (rw (unchecked, finalize) (rw q))
