-- ===== src/Robust/Retry/Laws.antt =====
-- What the retry loop of robust/retry.rs promises: how many calls, and which result.
use rc_launcher.Base.{
  ℕ, zero, suc, ◌+◌, ◌-◌, ◌≤◌, ◌<◌, max, ◌≡◌, refl, sym, ap, ◌∙◌, ◌⊎◌, inl, inr, Bool, true, Result,
  ok, err, Bool-cases, Result-cases, leb, leb→le, arith,
}
use mathlib.Core.Bool.{false≢true}
use native.Mathlib.Decide.{dec_lt}
use rc_launcher.Robust.Retry.{RetryPolicy, Outcome, retry_loop, retry_with_policy}

-- The result is an error that the classifier would have replayed.
abbrev pub Replayed : {T E : Type 0} → (E → Bool) → Result T E → Type 0
Replayed classifier (ok v) = ⊥
Replayed classifier (err e) = classifier e ≡ true

-- `o` is the outcome of a retry of `op` from the call `first`, with `limit` calls at most.
pub record IsOutcome {T E : Type 0} (classifier : E → Bool) (op : ℕ → Result T E) (first limit : ℕ)
    (o : Outcome T E) : Type 0 where
  pub made : first < o.calls
  pub bounded : o.calls ≤ limit
  pub is_last : o.result ≡ op (o.calls - 1)
  pub earlier : (i : ℕ) → first ≤ i → i + 1 < o.calls → Replayed classifier (op i)
  pub decisive : (o.calls ≡ limit) ⊎ (¬ Replayed classifier o.result)

module _ {T E : Type 0} (policy : RetryPolicy) (classifier : E → Bool) (op : ℕ → Result T E) where
  stop-IsOutcome :
      (attempt limit : ℕ) (r : Result T E)
      → r ≡ op attempt
      → attempt + 1 ≤ limit
      → (attempt + 1 ≡ limit) ⊎ (¬ Replayed classifier r)
      → IsOutcome classifier op attempt limit (record { result = r; calls = attempt + 1 })
  stop-IsOutcome attempt limit r e h d = record {
    made = omega arith;
    bounded = h;
    is_last = e ∙ ap op (omega arith);
    earlier = λ i k l. absurd (omega arith);
    decisive = d;
  }

  again-IsOutcome :
      (attempt limit : ℕ) (o : Outcome T E)
      → Replayed classifier (op attempt)
      → IsOutcome classifier op (attempt + 1) limit o
      → IsOutcome classifier op attempt limit o
  again-IsOutcome attempt limit o replayed h = record {
    made = omega (arith, h.made);
    bounded = h.bounded;
    is_last = h.is_last;
    earlier = λ i k l. elim (dec_lt attempt i) [
      | yes p ↦ h.earlier i (omega arith) l
      | no p ↦ let e : attempt ≡ i = omega arith in rw e at replayed
    ];
    decisive = h.decisive;
  }

  retry_loop-IsOutcome :
      (fuel attempt limit : ℕ)
      → limit ≡ max (attempt + 1) policy.max_attempts
      → policy.max_attempts ≤ attempt + fuel
      → IsOutcome classifier op attempt limit (retry_loop policy classifier op fuel attempt)
  unfolding retry_loop
  retry_loop-IsOutcome zero attempt limit e h =
      stop-IsOutcome attempt limit (op attempt) refl (omega arith) (inl (omega arith))
  retry_loop-IsOutcome (suc fuel) attempt limit e h = elim (Result-cases (op attempt)) [
    | inl (v, p) ↦
        rw (p, retry_loop)
          (stop-IsOutcome attempt limit (ok v) (sym p) (omega arith) (inr (λ x. x)))
    | inr (x, p) ↦
        rw (p, retry_loop)
          (elim (Bool-cases (classifier x)) [
            | inl c ↦ rw c (elim (Bool-cases (leb policy.max_attempts (attempt + 1))) [
              | inl l ↦ rw l (
                  stop-IsOutcome attempt limit (err x) (sym p) (omega arith)
                    (inl (omega (arith, leb→le _ _ l))))
              | inr l ↦
                  let l' : attempt + 1 < policy.max_attempts = ground arith in
                  rw l (
                    again-IsOutcome attempt limit _ (rw p c)
                      (retry_loop-IsOutcome fuel (attempt + 1) limit (omega arith) (omega arith)))
            ])
            | inr c ↦ rw c (
                stop-IsOutcome attempt limit (err x) (sym p) (omega arith)
                  (inr (λ k. false≢true (sym c ∙ k))))
          ])
  ]

  -- A retried operation is called at least once and at most `max_attempts` times (once, if that is
  -- 0). The result is that of the last call; every earlier call failed with an error that the
  -- classifier replays; and the loop stops before its limit only at a success or at an error that
  -- the classifier does not replay.
  pub retry_with_policy-IsOutcome :
      IsOutcome classifier op 0 (max 1 policy.max_attempts) (retry_with_policy policy classifier op)
  unfolding retry_with_policy
  retry_with_policy-IsOutcome =
      retry_loop-IsOutcome policy.max_attempts 0 (max 1 policy.max_attempts) (omega arith)
        (omega arith)
