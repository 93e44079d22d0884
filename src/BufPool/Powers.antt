-- ===== src/BufPool/Powers.antt =====
-- The exponents that util/bufpool.rs rounds capacities up to.
use native.Mathlib.Nat.{pow-le-pow_right}
use rc_launcher.Base.{ℕ, zero, suc, ◌+◌, ◌^◌, ◌≤◌, ◌≡◌, ap, inl, inr, leb, ltb, Bool-cases, arith}
use rc_launcher.BufPool.{ceil_shift, shift_of}

pub pow_mono : (i j : ℕ) → i ≤ j → 2 ^ i ≤ 2 ^ j
pow_mono i j h = pow-le-pow_right (omega arith) h

pow_suc : (i : ℕ) → 2 ^ suc i ≡ 2 ^ i + 2 ^ i
pow_suc i = omega arith

pow_pos : (i : ℕ) → 1 ≤ 2 ^ i
pow_pos i = pow_mono 0 i (omega arith)

pub pow_reflects : (s t : ℕ) → 2 ^ s ≤ 2 ^ t → s ≤ t
pow_reflects s t h = elim (Bool-cases (ltb t s)) [
  | inl lt ↦ absurd (
      let up = pow_mono (suc t) s (ground (arith, lt)) in
      let twice = pow_suc t in let pos = pow_pos t in omega (arith, up, twice, pos, h))
  | inr le ↦ ground (arith, le)
]

-- The exponent is the least one that is enough.
ceil_shift_le : (fuel k n m : ℕ) → n ≤ 2 ^ m → k ≤ m → ceil_shift fuel k n ≤ m
unfolding ceil_shift
ceil_shift_le zero k n m h le = le
ceil_shift_le (suc fuel) k n m h le = elim (Bool-cases (leb n (2 ^ k))) [
  | inl e ↦ rw (e) le
  | inr e ↦
      rw (e)
        (ceil_shift_le fuel (suc k) n m h (above (λ q. ground (arith, e, h, ap (λ i. 2 ^ i) q))))
]
  where
    above : ¬ (k ≡ m) → suc k ≤ m
    above ne = ground (arith, le, ne)

ceil_shift_ge : (fuel k n : ℕ) → n ≤ 2 ^ (k + fuel) → n ≤ 2 ^ ceil_shift fuel k n
unfolding ceil_shift
ceil_shift_ge zero k n h = rw (sum k) at h
  where
    sum : (k : ℕ) → k + 0 ≡ k
    sum k = omega arith
ceil_shift_ge (suc fuel) k n h = elim (Bool-cases (leb n (2 ^ k))) [
  | inl e ↦ rw (e) (ground (arith, e))
  | inr e ↦ rw (e) (ceil_shift_ge fuel (suc k) n (rw (shifted k fuel) at h))
]
  where
    shifted : (k fuel : ℕ) → k + suc fuel ≡ suc k + fuel
    shifted k fuel = omega arith

pub shift_of_le : (n m : ℕ) → n ≤ 2 ^ m → shift_of n ≤ m
unfolding shift_of
shift_of_le n m h = ceil_shift_le 64 0 n m h (omega arith)

pub shift_of_ge : (n : ℕ) → n ≤ 2 ^ 64 → n ≤ 2 ^ shift_of n
unfolding shift_of
shift_of_ge n h = ceil_shift_ge 64 0 n h

-- The exponent of a power of two.
pub shift_of-pow : (s : ℕ) → s ≤ 64 → shift_of (2 ^ s) ≡ s
shift_of-pow s h =
    let le = shift_of_le (2 ^ s) s (omega arith) in
    let ge = shift_of_ge (2 ^ s) (pow_mono s 64 h) in
    let least = pow_reflects s (shift_of (2 ^ s)) ge in ground (arith, le, least)
