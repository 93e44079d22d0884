-- ===== src/BufPool/Tests.antt =====
-- Runs of the buffer pool on concrete inputs, with an allocator that gives what is asked for.
use rc_launcher.Base.{ℕ, ◌≡◌, ◌≤◌, refl, Option, some, none, [], arith}
use rc_launcher.BufPool.{
  Buf, BufPool, ceil_shift, shift_of, with_config, acquire, take_from, fit_buffer, put_back,
  bucket_index_for_cap, set_bucket,
}
use rc_launcher.BufPool.Capacity.{built, acquire-capacity}

abbrev exact : ℕ → ℕ
exact n = n

abbrev small_pool : BufPool
small_pool = with_config 16 1024 4

acquire-capacity_example :
    (r : Buf × BufPool) × (acquire exact small_pool 300 ≡ some r) × (300 ≤ r.0.capacity)
acquire-capacity_example =
    acquire-capacity exact (λ n. omega arith) small_pool
      (built 16 1024 4 (omega arith) (omega arith)) 300

-- A buffer of 1000 bytes, as `fit` allocates, goes to the bucket of 1024, from where it is leased.
capacity_of : Option (Buf × BufPool) → ℕ
capacity_of none = 0
capacity_of (some r) = r.0.capacity

given_1000_run :
    capacity_of (
      acquire exact
        (put_back small_pool (fit_buffer exact (record { capacity = 512; bytes = [] }) 1000))
        1024)
    ≡ 1000
unfolding capacity_of fit_buffer acquire take_from put_back bucket_index_for_cap set_bucket
    with_config shift_of ceil_shift
given_1000_run = refl
