-- ===== src/Launch/Options/Memory.antt =====
-- The memory options of launch/options.rs after they are fitted to a device.
use rc_launcher.Base.{
  ℕ, ◌-◌, ◌≤◌, max, ◌≡◌, refl, ap, ◌∙◌, ==_iff, ◌⊎◌, false, Option, none, some, ok, ltb, Bool-cases,
  inl, inr, if◌then◌else◌, ◌==◌, arith,
}
use rc_launcher.Launch.Options.{MemoryOptions, clamped, lower_min, min_exceeds, validate_memory}

-- The maximum that `clamped` leaves.
abbrev limit : ℕ → ℕ → ℕ → ℕ
limit total reserve most =
    let budget = max (total - reserve) 256 in if ltb budget most then budget else most

limit-le : (total reserve most : ℕ) → limit total reserve most ≤ max (total - reserve) 256
limit-le total reserve most = ground arith

limit-le_max : (total reserve most : ℕ) → limit total reserve most ≤ most
limit-le_max total reserve most = ground arith

limit-positive :
    (total reserve most : ℕ) → (most == 0) ≡ false → (limit total reserve most == 0) ≡ false
limit-positive total reserve most h = ground (arith, h)

limit_idem :
    (total reserve most : ℕ)
    → limit total reserve (limit total reserve most) ≡ limit total reserve most
limit_idem total reserve most = ground arith

lower_min-exceeds : (least : Option ℕ) (most : ℕ) → min_exceeds (lower_min least most) most ≡ false
lower_min-exceeds none most = refl
lower_min-exceeds (some least) most = ground arith

lower_min_idem :
    (least : Option ℕ) (most : ℕ) → lower_min (lower_min least most) most ≡ lower_min least most
lower_min_idem none most = refl
lower_min_idem (some least) most = ground arith

validate_memory-positive :
    (m : MemoryOptions)
    → (m.max_mb == 0) ≡ false
    → min_exceeds m.min_mb m.max_mb ≡ false
    → validate_memory m ≡ ok tt
unfolding validate_memory
validate_memory-positive m h k = rw (h, k) refl

-- Options with a maximum, and the minimum lowered to it.
abbrev lowered : Option ℕ → ℕ → MemoryOptions
lowered least most = record { min_mb = lower_min least most; max_mb = most }

-- Fitted options never ask for more than what the device leaves above the reserve, or 256 MB, nor for
-- more than was asked before; they stay valid unless no memory was asked for, and fitting them again
-- changes nothing.
pub clamped-Fits :
    (m : MemoryOptions) (total reserve : ℕ)
    → let c = clamped m total reserve in
      (c.max_mb ≤ max (total - reserve) 256)
      × (c.max_mb ≤ m.max_mb)
      × ((m.max_mb ≡ 0) ⊎ (validate_memory c ≡ ok tt))
      × (clamped c total reserve ≡ c)
unfolding clamped validate_memory
clamped-Fits m total reserve = (
  limit-le total reserve m.max_mb,
  limit-le_max total reserve m.max_mb,
  elim (Bool-cases (m.max_mb == 0)) [
    | inl z ↦ inl ((==_iff m.max_mb 0).0 z)
    | inr p ↦ inr (
        validate_memory-positive (clamped m total reserve) (limit-positive total reserve m.max_mb p)
          (lower_min-exceeds m.min_mb (limit total reserve m.max_mb)))
  ],
  let most = limit total reserve m.max_mb in
      ap (lowered (lower_min m.min_mb most)) (limit_idem total reserve m.max_mb)
      ∙ ap (λ least. record { min_mb = least; max_mb = most }) (lower_min_idem m.min_mb most),
)
