-- ===== src/BufPool.antt =====
-- util/bufpool.rs: the pool of byte buffers, bucketed by powers of two. A power of two is kept as its
-- exponent. What `Vec::with_capacity` allocates for a request is a parameter of the model; a bucket
-- is the list of its idle buffers, the first to be taken first.
pub mod Powers
pub mod Capacity
mod Tests
use rc_launcher.Base.{
  ℕ, zero, suc, ◌+◌, ◌-◌, ◌^◌, Bool, true, false, ◌&&◌, Option, none, some, List, [], ◌∷◌, ◌++◌,
  length, replicate, take, get_elem?, leb, ltb, max, if◌then◌else◌,
}

-- A `Vec<u8>`
pub record Buf : Type 0 where
  pub capacity : ℕ
  pub bytes : List ℕ

-- `BufPoolInner`, with `min_cap` and `max_cap` as the exponents of two
pub record BufPool : Type 0 where
  pub min_shift : ℕ
  pub max_shift : ℕ
  pub max_idle_per_bucket : ℕ
  pub buckets : List (List Buf)

-- The least exponent from `k` on whose power of two is not below `n`.
unfoldable pub ceil_shift : ℕ → ℕ → ℕ → ℕ
ceil_shift zero k n = k
ceil_shift (suc fuel) k n =
    let later = ceil_shift fuel (suc k) n in if leb n (2 ^ k) then k else later

-- `next_power_of_two().trailing_zeros()` of a `usize`
unfoldable pub shift_of : ℕ → ℕ
unfolding ceil_shift
shift_of n = ceil_shift 64 0 n

-- `BufPool::with_config`; 16 is two to the fourth.
unfoldable pub with_config : ℕ → ℕ → ℕ → BufPool
with_config min_cap max_cap max_idle_per_bucket =
    let min_shift = max (shift_of min_cap) 4 in
    let max_shift = shift_of (max max_cap (2 ^ min_shift)) in
    record {
      min_shift = min_shift;
      max_shift = max_shift;
      max_idle_per_bucket = max_idle_per_bucket;
      buckets = replicate (max_shift - min_shift + 1) [];
    }

abbrev pub bucket_cap : BufPool → ℕ → ℕ
bucket_cap p idx = 2 ^ (p.min_shift + idx)

-- The bucket that the exponent of a capacity has, if there is one.
abbrev pub in_buckets : BufPool → ℕ → Option ℕ
in_buckets p idx = if ltb idx (length p.buckets) then some idx else none

unfoldable pub bucket_index_for_cap : BufPool → ℕ → Option ℕ
bucket_index_for_cap p cap =
    if ltb cap (2 ^ p.min_shift)
    then none
    else if ltb (2 ^ p.max_shift) cap
    then none
    else in_buckets p (shift_of cap - p.min_shift)

unfoldable pub set_bucket : ℕ → List Buf → List (List Buf) → List (List Buf)
set_bucket n b [] = []
set_bucket zero b (c ∷ cs) = b ∷ cs
set_bucket (suc n) b (c ∷ cs) = c ∷ set_bucket n b cs

module _ (alloc : ℕ → ℕ) where
  -- `Vec::with_capacity`
  abbrev pub with_capacity : ℕ → Buf
  with_capacity n = record { capacity = alloc n; bytes = [] }

  -- `pop_front` from a bucket, or a new buffer
  unfoldable pub take_from : BufPool → ℕ → List Buf → Buf × BufPool
  take_from p idx [] = (with_capacity (bucket_cap p idx), p)
  take_from p idx (b ∷ bs) =
      (record b { bytes = [] }, record p { buckets = set_bucket idx bs p.buckets })

  -- `acquire`; `none` is a panic
  unfoldable pub acquire : BufPool → ℕ → Option (Buf × BufPool)
  acquire p min_cap =
      if leb min_cap (2 ^ p.max_shift)
      then elim (bucket_index_for_cap p (2 ^ max (shift_of min_cap) p.min_shift)) [
        | none ↦ none
        | some idx ↦ elim (get_elem? p.buckets idx) [
          | none ↦ none
          | some bucket ↦ some (take_from p idx bucket)
        ]
      ]
      else some (with_capacity min_cap, p)

  -- `PooledBuf::fit`
  unfoldable pub fit_buffer : Buf → ℕ → Buf
  fit_buffer b need =
      if ltb b.capacity need
      then record { capacity = alloc need; bytes = replicate need 0 }
      else record b { bytes = take need b.bytes ++ replicate (need - length b.bytes) 0 }

-- `put_back`: a buffer that fits in no bucket, or whose bucket is full, is dropped.
unfoldable pub put_back : BufPool → Buf → BufPool
put_back p b = elim (bucket_index_for_cap p b.capacity) [
  | none ↦ p
  | some idx ↦ elim (get_elem? p.buckets idx) [
    | none ↦ p
    | some bucket ↦
        if ltb (length bucket) p.max_idle_per_bucket
        then record p { buckets = set_bucket idx (bucket ++ (b ∷ [])) p.buckets }
        else p
  ]
]

-- `idle_count`
unfoldable pub idle_count : List (List Buf) → ℕ
idle_count [] = 0
idle_count (b ∷ bs) = length b + idle_count bs
