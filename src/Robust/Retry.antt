-- ===== src/Robust/Retry.antt =====
-- `retry_with_policy` and `retry` of robust/retry.rs. The operation is a function of the attempt's
-- number: what the call numbered `n`, from 0, returns. The source's `loop` recurs on the attempts
-- that are left. A sleep between attempts changes nothing that is modelled, and is recorded by the
-- number of attempts that were made.
pub mod Laws
use rc_launcher.Base.{ℕ, zero, suc, ◌+◌, Bool, not, ◌||◌, Result, ok, err, leb, if◌then◌else◌}
use rc_launcher.Error.{RcError, RcResult, is_retryable}

-- `RetryPolicy`: delays are in milliseconds, the jitter in thousandths.
pub record RetryPolicy : Type 0 where
  pub max_attempts : ℕ
  pub base : ℕ
  pub max_delay : ℕ
  pub jitter : ℕ

abbrev pub default_policy : RetryPolicy
default_policy = record { max_attempts = 4; base = 400; max_delay = 20000; jitter = 250 }

abbrev pub for_tests : RetryPolicy
for_tests = record { max_attempts = 3; base = 1; max_delay = 2; jitter = 0 }

-- The result, and how many calls of the operation were made.
pub record Outcome (T E : Type 0) : Type 0 where
  pub result : Result T E
  pub calls : ℕ

module _ {T E : Type 0} (policy : RetryPolicy) (classifier : E → Bool) (op : ℕ → Result T E) where
  -- The loop at `attempt`. The fuel is what remains of the policy's attempts; the test on
  -- `attempt + 1` ends the loop before it runs out.
  unfoldable pub retry_loop : ℕ → ℕ → Outcome T E
  retry_loop zero attempt = record { result = op attempt; calls = attempt + 1 }
  retry_loop (suc fuel) attempt = elim (op attempt) [
    | ok v ↦ record { result = ok v; calls = attempt + 1 }
    | err e ↦
        let can_retry = classifier e in
        let again = retry_loop fuel (attempt + 1) in
        if not can_retry || leb policy.max_attempts (attempt + 1)
        then record { result = err e; calls = attempt + 1 }
        else again
  ]

  unfoldable pub retry_with_policy : Outcome T E
  unfolding retry_loop
  retry_with_policy = retry_loop policy.max_attempts 0

unfoldable pub retry : {T : Type 0} → RetryPolicy → (ℕ → RcResult T) → Outcome T RcError
unfolding retry_with_policy
retry policy op = retry_with_policy policy is_retryable op
