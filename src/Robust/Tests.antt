-- ===== src/Robust/Tests.antt =====
-- Runs of the code of robust/ at concrete inputs.
use rc_launcher.Base.{
  ℕ, ◌+◌, ◌*◌, ◌^◌, min, ◌<◌, ◌≡◌, ◌≢◌, ◌⊎◌, max, refl, String, Bool, true, false, none, [], ◌∷◌,
  ok, err, leb, arith,
}
use rc_launcher.Error.{RcResult, timeout, launch, is_transient, is_retryable}
use rc_launcher.Robust.Retry.{for_tests, retry, retry_with_policy}
use rc_launcher.Robust.Retry.Laws.{IsOutcome, retry_with_policy-IsOutcome}
use rc_launcher.Robust.Backoff.{compute_backoff, compute_backoff_lem}
use rc_launcher.Robust.Cache.{CacheStore, Disk, FetchResult, Cached, get, settle, fetch_cached}
use rc_launcher.Robust.Cache.Laws.{
  IsFresh, IsDegraded, IsOffline, fetch_cached_ok, fetch_cached_err,
  fetch_cached-fetch_cached_offline,
}

abbrev empty_cache : CacheStore
empty_cache = record { bin = λ _. none; meta = λ _. none }

abbrev good_disk : Disk
good_disk = record { bin_write = none; meta_write = none }

abbrev page : FetchResult
page = record { bytes = 7 ∷ 8 ∷ []; total_size = 2; supports_range = true }

-- Two timeouts, then the page.
abbrev flaky : ℕ → RcResult FetchResult
flaky n = if_late (leb 2 n)
  where
    if_late : Bool → RcResult FetchResult
    if_late true = ok page
    if_late false = err (timeout "slow")

abbrev dead : ℕ → RcResult FetchResult
dead _ = err (launch "no JVM")

retry_with_policy-IsOutcome_example :
    IsOutcome is_transient flaky 0
      (max 1 for_tests.max_attempts)
      (retry_with_policy for_tests is_transient flaky)
retry_with_policy-IsOutcome_example = retry_with_policy-IsOutcome for_tests is_transient flaky

compute_backoff_lem_example :
    compute_backoff (λ delay. delay + 250) 5 400 20000 true
    ≡ min (400 * 2 ^ 4) 20000 * 1_000_000 + 250
compute_backoff_lem_example =
    compute_backoff_lem (λ delay. delay + 250) 5 400 20000 true (omega arith) (omega arith)

abbrev fetched : Cached
fetched = record { bytes = 7 ∷ 8 ∷ []; from_cache = false; degraded = false }

fetches : (fetch_cached flaky empty_cache good_disk 5 "k" for_tests false).1 ≡ ok fetched
unfolding fetch_cached settle retry is_retryable
fetches = refl

fetch_cached_ok_example :
    ((i : ℕ) × (f : FetchResult) × (i < max 1 for_tests.max_attempts)
      × (flaky i ≡ ok f)
      × IsFresh f fetched)
    ⊎ (IsDegraded empty_cache "k" fetched
        × ((fetch_cached flaky empty_cache good_disk 5 "k" for_tests false).0 ≡ empty_cache))
fetch_cached_ok_example =
    fetch_cached_ok flaky empty_cache good_disk 5 "k" for_tests false fetched fetches

fails : (fetch_cached dead empty_cache good_disk 5 "k" for_tests false).1 ≡ err (launch "no JVM")
unfolding fetch_cached settle retry is_transient is_retryable
fails = refl

fetch_cached_err_example :
    ((fetch_cached dead empty_cache good_disk 5 "k" for_tests false).0 ≡ empty_cache)
    × (IsOffline empty_cache "k" (launch "no JVM")
        ⊎ ((false ≡ false)
            × (is_transient (launch "no JVM") ≡ false)
            × ((i : ℕ) × (i < max 1 for_tests.max_attempts) × (dead i ≡ err (launch "no JVM")))))
fetch_cached_err_example =
    fetch_cached_err dead empty_cache good_disk 5 "k" for_tests false (launch "no JVM") fails

retried : (retry for_tests flaky).result ≡ ok page
unfolding retry is_retryable
retried = refl

fetch_cached-fetch_cached_offline_example :
    let after = (fetch_cached flaky empty_cache good_disk 5 "k" for_tests false).0 in
    ((fetch_cached flaky after good_disk 9 "k" for_tests true).1
      ≡ ok (record { bytes = page.bytes; from_cache = true; degraded = true }))
    × ((other : String) → "k" ≢ other → get after other ≡ get empty_cache other)
fetch_cached-fetch_cached_offline_example =
    fetch_cached-fetch_cached_offline flaky empty_cache good_disk 5 "k" for_tests page good_disk 9
      for_tests refl retried
