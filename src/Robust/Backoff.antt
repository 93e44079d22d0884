-- ===== src/Robust/Backoff.antt =====
-- `compute_backoff` of download/manager.rs, which robust/retry.rs passes on. Delays are in whole
-- milliseconds until the jitter, and then in nanoseconds. The source computes the jitter in `f64`,
-- from the clock, and rounds it back to a duration: that is a parameter, a function of the delay in
-- nanoseconds.
use native.Mathlib.Nat.{mul-le-mul, mul-le-mul_left, pow-le-pow_right, pow-suc, mod-eq_of_lt}
use native.Mathlib.Decide.{dec_le}
use rc_launcher.Base.{
  ℕ, suc, ◌+◌, ◌-◌, ◌*◌, ◌%◌, ◌^◌, ◌≤◌, ◌<◌, min, ◌≡◌, refl, sym, ◌∙◌, Bool, if◌then◌else◌, arith,
}

abbrev pub u64_mod : ℕ
u64_mod = 2 ^ 64

abbrev pub u128_max : ℕ
u128_max = 2 ^ 128 - 1

-- `base * 2^(attempt - 1)`, saturating, and capped.
capped_delay : ℕ → ℕ → ℕ → ℕ
capped_delay attempt base limit =
    let shift = min (attempt - 1) 63 in min (min (base * 2 ^ shift) u128_max) limit % u64_mod

-- The delay in nanoseconds, with the jitter if it is above 0.
unfoldable pub compute_backoff : (ℕ → ℕ) → ℕ → ℕ → ℕ → Bool → ℕ
unfolding capped_delay
compute_backoff stretch attempt base limit jittered =
    let delay = capped_delay attempt base limit * 1_000_000 in
    if jittered then stretch delay else delay

-- Up to attempt 64 the shift keeps the product of a 64-bit base inside 128 bits, so nothing saturates.
capped_delay-eq :
    (attempt base limit : ℕ)
    → attempt ≤ 64
    → base < u64_mod
    → limit < u64_mod
    → capped_delay attempt base limit ≡ min (base * 2 ^ (attempt - 1)) limit
unfolding capped_delay
capped_delay-eq attempt base limit h hb hl =
    let p : 2 ^ (attempt - 1) ≤ 2 ^ 63 = pow-le-pow_right (omega arith) {j = 63} (omega arith) in
    let q : base * 2 ^ (attempt - 1) ≤ u64_mod * 2 ^ 63 =
      mul-le-mul {n₂ = u64_mod} (omega arith) p in
    let e : min (attempt - 1) 63 ≡ attempt - 1 = omega arith in
    rw e (mod-eq_of_lt (omega arith) ∙ omega arith)

past :
    (attempt base limit : ℕ)
    → 64 < attempt
    → base < u64_mod
    → limit < 2 ^ 63
    → (capped_delay attempt base limit ≡ min (base * 2 ^ 63) limit)
      × (min (base * 2 ^ (attempt - 1)) limit ≡ min (base * 2 ^ 63) limit)
unfolding capped_delay
past attempt base limit h hb hl =
    let e : min (attempt - 1) 63 ≡ 63 = omega arith in
    let p : 2 ^ 63 ≤ 2 ^ (attempt - 1) =
      pow-le-pow_right (omega arith) {i = 63} {j = attempt - 1} (omega arith) in
    let q : base * 2 ^ 63 ≤ base * 2 ^ (attempt - 1) = mul-le-mul_left base p in
    (rw e (mod-eq_of_lt (omega arith) ∙ omega arith), ground arith)

-- With a 64-bit base in milliseconds and a limit below 2^63 milliseconds, the delay before the jitter
-- is the base doubled with every failed attempt after the first, and never above the limit, however
-- many attempts there are: neither the cut of the shift at 63 nor a saturating product nor the cut to
-- 64 bits shows. Without a jitter that is the result.
pub compute_backoff_lem :
    (stretch : ℕ → ℕ) (attempt base limit : ℕ) (jittered : Bool)
    → base < u64_mod
    → limit < 2 ^ 63
    → let delay = min (base * 2 ^ (attempt - 1)) limit * 1_000_000 in
      compute_backoff stretch attempt base limit jittered
      ≡ (if jittered then stretch delay else delay)
unfolding compute_backoff
compute_backoff_lem stretch attempt base limit jittered hb hl =
    let e : capped_delay attempt base limit ≡ min (base * 2 ^ (attempt - 1)) limit =
      elim (dec_le attempt 64) [
        | yes small ↦ capped_delay-eq attempt base limit small hb (omega arith)
        | no big ↦ let (a, b) = past attempt base limit (omega arith) hb hl in a ∙ sym b
      ] in
    rw e refl

-- With a 64-bit base and limit, each failed attempt up to the 63rd doubles the delay of the next
-- one, until the limit is reached.
capped_delay-doubles :
    (attempt base limit : ℕ)
    → 1 ≤ attempt
    → attempt ≤ 63
    → base < u64_mod
    → limit < u64_mod
    → capped_delay (attempt + 1) base limit ≡ min (2 * capped_delay attempt base limit) limit
capped_delay-doubles attempt base limit h k hb hl =
    let e : attempt + 1 - 1 ≡ suc (attempt - 1) = omega arith in
    let f : base * 2 ^ (attempt + 1 - 1) ≡ 2 * (base * 2 ^ (attempt - 1)) =
      rw (e, pow-suc) (grind arith) in
    omega (
      arith,
      capped_delay-eq (attempt + 1) base limit (omega arith) hb hl,
      capped_delay-eq attempt base limit (omega arith) hb hl,
      f,
    )
