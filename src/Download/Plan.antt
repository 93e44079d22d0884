-- ===== src/Download/Plan.antt =====
-- `plan_chunks` of download/manager.rs. Offsets are `u64`, with the wrap-around of each product.
pub mod Tiling
use Prim.Native.Nat.{min}
use rc_launcher.Base.{
  ℕ, zero, suc, ◌+◌, ◌-◌, ◌*◌, ◌/◌, ◌%◌, ◌^◌, ◌≤◌, ◌<◌, ◌≡◌, refl, ◌∙◌, List, [], ◌∷◌, ◌||◌, some,
  length, get_elem?, ◌==◌, if◌then◌else◌, arith,
}
use rc_launcher.Robust.Backoff.{u64_mod}

-- `n` chunks from the one numbered `i`.
unfoldable pub plan_from : ℕ → ℕ → ℕ → ℕ → List (ℕ × ℕ)
plan_from zero i total chunk_size = []
plan_from (suc n) i total chunk_size =
    (i * chunk_size % u64_mod, (min ((i + 1) * chunk_size % u64_mod) total + u64_mod - 1) % u64_mod)
    ∷ plan_from n (i + 1) total chunk_size

-- `total.div_ceil(chunk_size)`
abbrev pub div_ceil : ℕ → ℕ → ℕ
div_ceil total chunk_size = (total + chunk_size - 1) / chunk_size

unfoldable pub plan_chunks : ℕ → ℕ → List (ℕ × ℕ)
plan_chunks total chunk_size =
    if total == 0 || chunk_size == 0
    then []
    else plan_from (div_ceil total chunk_size) 0 total chunk_size

-- The inclusive byte range of the chunk numbered `i`.
abbrev pub bounds_of : ℕ → ℕ → ℕ → ℕ × ℕ
bounds_of total chunk_size i = (i * chunk_size, min ((i + 1) * chunk_size) total - 1)

length-plan_from : (n i total chunk_size : ℕ) → length (plan_from n i total chunk_size) ≡ n
unfolding plan_from
length-plan_from zero i total chunk_size = refl
length-plan_from (suc n) i total chunk_size =
    omega (arith, length-plan_from n (i + 1) total chunk_size)
