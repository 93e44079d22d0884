-- ===== src/Robust/Cache/Laws.antt =====
-- What `fetch_cached` of robust/cache.rs returns on every path, and what it leaves on disk.
use text.Mathlib.Text.{◌==◌ as str_eq}
use text.Mathlib.TextEquality.{eq_iff}
use text.Mathlib.TextPositions.{eq_refl}
use mathlib.Core.Option
use rc_launcher.Base.{
  ℕ, ◌+◌, ◌-◌, ◌<◌, ◌^◌, max, String, ◌≡◌, ◌≢◌, refl, sym, ◌∙◌, ◌⊎◌, inl, inr, Bool, true, false,
  Option, none, some, ok, err, Bool-cases, leb, if◌then◌else◌, arith,
}
use rc_launcher.Error.{IoKind, RcError, RcResult, is_transient, offline}
use rc_launcher.Robust.Retry.{RetryPolicy, retry}
use rc_launcher.Robust.Retry.Laws.{retry_with_policy-IsOutcome}
use rc_launcher.Robust.Cache.{
  WriteFailure, not_opened, broken_off, fail_meta, Bytes, CacheStore, Disk, FetchResult, Cached,
  put, get, is_fresh, degrade, settle, fetch_cached,
}

-- The last of the attempts that the policy allows, or an earlier one.
retry-attempt :
    (policy : RetryPolicy) (source : ℕ → RcResult FetchResult)
    → (i : ℕ) × (i < max 1 policy.max_attempts) × ((retry policy source).result ≡ source i)
unfolding retry
retry-attempt policy source =
    let o = retry_with_policy-IsOutcome policy _ source in
    ((retry policy source).calls - 1, omega (arith, o.made, o.bounded), o.is_last)

-- `r` holds the bytes that the network returned for `f`.
abbrev pub IsFresh : FetchResult → Cached → Type 0
IsFresh f r = r ≡ record { bytes = f.bytes; from_cache = false; degraded = false }

-- `r` holds the bytes that the cache has for the key, and says so.
pub record IsDegraded (c : CacheStore) (key : String) (r : Cached) : Type 0 where
  pub stored : get c key ≡ some r.bytes
  pub from_cache : r.from_cache ≡ true
  pub degraded : r.degraded ≡ true

-- No copy is stored, and the error says that the launcher is offline.
abbrev pub IsOffline : CacheStore → String → RcError → Type 0
IsOffline c key e = (e ≡ offline "no cached copy") × (get c key ≡ none)

degrade-IsDegraded :
    (c : CacheStore) (key : String) (r : Cached) → degrade c key ≡ ok r → IsDegraded c key r
unfolding degrade
degrade-IsDegraded c key r h = ground arith

degrade-IsOffline :
    (c : CacheStore) (key : String) (e : RcError) → degrade c key ≡ err e → IsOffline c key e
unfolding degrade
degrade-IsOffline c key e h = ground arith

Write-cases :
    (w : Option WriteFailure)
    → (w ≡ none)
      ⊎ (((k : IoKind) × (w ≡ some (not_opened k)))
          ⊎ ((k : IoKind) × (n : ℕ) × (w ≡ some (broken_off k n))))
Write-cases none = inl refl
Write-cases (some (not_opened k)) = inr (inl (k, refl))
Write-cases (some (broken_off k n)) = inr (inr (k, n, refl))

-- A write of the data is read back under its key, and under no other.
pub get-put :
    (c : CacheStore) (disk : Disk) (now : ℕ) (key : String) (bytes : Bytes) (ttl : Option ℕ)
    (other : String)
    → disk.bin_write ≡ none
    → get (put c disk now key bytes ttl).0 other
      ≡ (if str_eq key other then some bytes else get c other)
unfolding get put fail_meta
get-put c disk now key bytes ttl other h =
    rw (put, h)
      (elim (Write-cases disk.meta_write) [
        | inl m ↦ rw (put, m) refl
        | inr (inl (k, m)) ↦ rw (put, m) refl
        | inr (inr (k, n, m)) ↦ rw (put, m) refl
      ])

degrade_stored :
    (c : CacheStore) (key : String) (bytes : Bytes)
    → get c key ≡ some bytes
    → degrade c key ≡ ok (record { bytes = bytes; from_cache = true; degraded = true })
unfolding degrade
degrade_stored c key bytes h = ground arith

module _ (source : ℕ → RcResult FetchResult) (c : CacheStore) (disk : Disk) (now : ℕ) (key : String)
    (policy : RetryPolicy) where
  settle_ok :
      (fetched : RcResult FetchResult) (r : Cached)
      → (settle c disk now key fetched).1 ≡ ok r
      → ((f : FetchResult) × (fetched ≡ ok f) × IsFresh f r)
        ⊎ (IsDegraded c key r × ((settle c disk now key fetched).0 ≡ c))
  unfolding settle
  settle_ok (ok f) r h = inl (f, refl, ground arith)
  settle_ok (err e) r h = elim (Bool-cases (is_transient e)) [
    | inl t ↦ inr (degrade-IsDegraded c key r (rw (t, settle) at h), rw (t, settle))
    | inr t ↦ absurd (cc (rw (t, settle) at h))
  ]

  -- Bytes that a fetch returns come from the network, in one of the attempts that the policy
  -- allows, and are then marked neither cached nor degraded; or they are the bytes that the cache
  -- holds for the key, are marked as both, and the cache is unchanged.
  pub fetch_cached_ok :
      (force_offline : Bool) (r : Cached)
      → (fetch_cached source c disk now key policy force_offline).1 ≡ ok r
      → ((i : ℕ) × (f : FetchResult) × (i < max 1 policy.max_attempts)
          × (source i ≡ ok f)
          × IsFresh f r)
        ⊎ (IsDegraded c key r × ((fetch_cached source c disk now key policy force_offline).0 ≡ c))
  unfolding fetch_cached
  fetch_cached_ok true r h = inr (degrade-IsDegraded c key r h, refl)
  fetch_cached_ok false r h =
      let (i, within, e) = retry-attempt policy source in
      elim (settle_ok (retry policy source).result r h) [
        | inl (f, got, fresh) ↦ inl (i, f, within, sym e ∙ got, fresh)
        | inr old ↦ inr old
      ]

  settle_err :
      (fetched : RcResult FetchResult) (e : RcError)
      → (settle c disk now key fetched).1 ≡ err e
      → ((settle c disk now key fetched).0 ≡ c)
        × (IsOffline c key e ⊎ ((fetched ≡ err e) × (is_transient e ≡ false)))
  unfolding settle
  settle_err (ok f) e h = absurd (ground arith)
  settle_err (err x) e h = elim (Bool-cases (is_transient x)) [
    | inl t ↦ (rw (t, settle), inl (degrade-IsOffline c key e (rw (t, settle) at h)))
    | inr t ↦ let p : x ≡ e = cc (rw (t, settle) at h) in (rw (t, settle), inr (rw p, rw p at t))
  ]

  -- A fetch that fails leaves the cache as it was. Either no copy is stored and the error is
  -- `Offline`; or the network was asked, and the error is that of one of its attempts and is not
  -- transient.
  pub fetch_cached_err :
      (force_offline : Bool) (e : RcError)
      → (fetch_cached source c disk now key policy force_offline).1 ≡ err e
      → ((fetch_cached source c disk now key policy force_offline).0 ≡ c)
        × (IsOffline c key e
            ⊎ ((force_offline ≡ false)
                × (is_transient e ≡ false)
                × ((i : ℕ) × (i < max 1 policy.max_attempts) × (source i ≡ err e))))
  unfolding fetch_cached
  fetch_cached_err true e h = (refl, inl (degrade-IsOffline c key e h))
  fetch_cached_err false e h =
      let (i, within, p) = retry-attempt policy source in
      let (same, why) = settle_err (retry policy source).result e h in
      (
        same,
        elim why [
          | inl off ↦ inl off
          | inr (got, hard) ↦ inr (refl, hard, (i, within, sym p ∙ got))
        ],
      )

  -- After a fetch from the network whose data could be written, a fetch of the same key with the
  -- network switched off returns the same bytes, marked as degraded; what the cache holds for
  -- other keys is unchanged.
  pub fetch_cached-fetch_cached_offline :
      (f : FetchResult) (later : Disk) (now' : ℕ) (policy' : RetryPolicy)
      → disk.bin_write ≡ none
      → (retry policy source).result ≡ ok f
      → let after = (fetch_cached source c disk now key policy false).0 in
        ((fetch_cached source after later now' key policy' true).1
          ≡ ok (record { bytes = f.bytes; from_cache = true; degraded = true }))
        × ((other : String) → key ≢ other → get after other ≡ get c other)
  unfolding fetch_cached settle
  fetch_cached-fetch_cached_offline f later now' policy' w h =
      rw (h, settle)
        (
          degrade_stored (put c disk now key f.bytes none).0 key f.bytes
              (get-put c disk now key f.bytes none key w ∙ (rw (eq_refl key))),
          λ other different.
              get-put c disk now key f.bytes none other w ∙ elim (Bool-cases (str_eq key other)) [
                | inl same ↦ absurd (different ((eq_iff key other).0 same))
                | inr apart ↦ rw apart
              ],
        )

-- Let both writes of an entry succeed, and the time of the question fit in 64 bits. The entry is
-- fresh up to its own time to live after it was stored, or else up to the maximum age that is asked
-- for, the last second included; with neither it is fresh for ever.
pub is_fresh-put :
    (c : CacheStore) (disk : Disk) (now later : ℕ) (key : String) (bytes : Bytes)
    (ttl max_age : Option ℕ)
    → disk.bin_write ≡ none
    → disk.meta_write ≡ none
    → now + later < 2 ^ 64
    → is_fresh (put c disk now key bytes ttl).0 key max_age (now + later)
      ≡ leb later (Option.get_or ttl (Option.get_or max_age later))
unfolding is_fresh put
is_fresh-put c disk now later key bytes none none w w' h =
    rw (w, put) (rw (w', put) (rw (eq_refl key, is_fresh) (ground arith)))
is_fresh-put c disk now later key bytes none (some age) w w' h =
    rw (w, put) (rw (w', put) (rw (eq_refl key, is_fresh) (ground arith)))
is_fresh-put c disk now later key bytes (some t) max_age w w' h =
    rw (w, put) (rw (w', put) (rw (eq_refl key, is_fresh) (ground arith)))
