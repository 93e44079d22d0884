-- ===== src/BufPool/Capacity.antt =====
-- What the buffers of util/bufpool.rs hold: at least what was asked for, as long as every buffer that
-- comes back has a power of two for its capacity.
use rc_launcher.Base.{
  ℕ, zero, suc, ◌+◌, ◌-◌, ◌^◌, ◌≤◌, ◌<◌, ◌≡◌, refl, sym, ap, ◌∙◌, ◌⊎◌, inl, inr, true, false, some,
  List, [], ◌∷◌, ◌++◌, length, length-replicate, replicate, get_elem?, leb, ltb, max, Bool-cases,
  Option-cases, some-injective, arith, le→ltb, ltb→le, All,
}
use rc_launcher.BufPool.{
  Buf, BufPool, shift_of, with_config, bucket_cap, bucket_index_for_cap, set_bucket, with_capacity,
  take_from, acquire, put_back,
}
use rc_launcher.BufPool.Powers.{pow_mono, pow_reflects, shift_of_le, shift_of_ge, shift_of-pow}

-- A pool whose buffers are in their buckets.
pub record IsValid (p : BufPool) : Type 0 where
  pub ordered : p.min_shift ≤ p.max_shift
  pub small : p.max_shift ≤ 64
  pub count : length p.buckets ≡ suc (p.max_shift - p.min_shift)
  pub fits :
      (i : ℕ) (bucket : List Buf)
      → get_elem? p.buckets i ≡ some bucket
      → All (λ b. 2 ^ (p.min_shift + i) ≤ b.capacity) bucket

get_elem?-some :
    (i : ℕ) (bs : List (List Buf)) → i < length bs → (b : List Buf) × (get_elem? bs i ≡ some b)
get_elem?-some i [] h = absurd (omega (arith, h))
get_elem?-some zero (b ∷ bs) h = (b, refl)
get_elem?-some (suc i) (b ∷ bs) h = get_elem?-some i bs (omega (arith, h))

-- The bucket of a power of two between the bounds.
bucket_of-pow :
    (p : BufPool)
    → IsValid p
    → (s : ℕ) → p.min_shift ≤ s
    → s ≤ p.max_shift
    → bucket_index_for_cap p (2 ^ s) ≡ some (s - p.min_shift)
unfolding bucket_index_for_cap
bucket_of-pow p v s low high =
    let a : ltb (2 ^ s) (2 ^ p.min_shift) ≡ false =
      le→ltb (2 ^ s) (2 ^ p.min_shift) (pow_mono p.min_shift s low) in
    let b : ltb (2 ^ p.max_shift) (2 ^ s) ≡ false =
      le→ltb (2 ^ p.max_shift) (2 ^ s) (pow_mono s p.max_shift high) in
    let count = v.count in
    let c : ltb (s - p.min_shift) (length p.buckets) ≡ true = ground (arith, count, low, high) in
    rw (a, b, shift_of-pow s (let small = v.small in omega (arith, small, high)), c) refl

get_elem?-set_bucket :
    (n m : ℕ) (b c : List Buf) (bs : List (List Buf))
    → get_elem? (set_bucket n b bs) m ≡ some c
    → ((n ≡ m) × (c ≡ b)) ⊎ (get_elem? bs m ≡ some c)
unfolding set_bucket
get_elem?-set_bucket n m b c [] h = inr h
get_elem?-set_bucket zero zero b c (x ∷ xs) h = inl (refl, some-injective (sym h))
get_elem?-set_bucket zero (suc m) b c (x ∷ xs) h = inr h
get_elem?-set_bucket (suc n) zero b c (x ∷ xs) h = inr h
get_elem?-set_bucket (suc n) (suc m) b c (x ∷ xs) h = elim (get_elem?-set_bucket n m b c xs h) [
  | inl (e, q) ↦ inl (ap suc e, q)
  | inr q ↦ inr q
]

length-set_bucket :
    (n : ℕ) (b : List Buf) (bs : List (List Buf)) → length (set_bucket n b bs) ≡ length bs
unfolding set_bucket
length-set_bucket n b [] = refl
length-set_bucket zero b (x ∷ xs) = refl
length-set_bucket (suc n) b (x ∷ xs) = ap suc (length-set_bucket n b xs)

-- A bucket that holds what it should takes the place of another one.
set_bucket-IsValid :
    (p : BufPool) (idx : ℕ) (bucket : List Buf)
    → IsValid p
    → All (λ b. 2 ^ (p.min_shift + idx) ≤ b.capacity) bucket
    → IsValid (record p { buckets = set_bucket idx bucket p.buckets })
set_bucket-IsValid p idx bucket v all = record {
  ordered = v.ordered;
  small = v.small;
  count = length-set_bucket idx bucket p.buckets ∙ v.count;
  fits = λ i c h. elim (get_elem?-set_bucket idx i bucket c p.buckets h) [
    | inl (e, q) ↦ rw (sym e, q) all
    | inr q ↦ v.fits i c q
  ];
}

All-push :
    {A : Type 0} (P : A → Type 0) (xs : List A) (x : A) → All P xs → P x → All P (xs ++ (x ∷ []))
All-push P [] x h k = (k, tt)
All-push P (y ∷ ys) x h k = (h.0, All-push P ys x h.1 k)

replicated : (n i : ℕ) (c : List Buf) → get_elem? (replicate n []) i ≡ some c → c ≡ []
replicated zero i c h = absurd (cc)
replicated (suc n) zero c h = some-injective (sym h)
replicated (suc n) (suc i) c h = replicated n i c h

with_config-IsValid :
    (min_cap max_cap idle : ℕ)
    → min_cap ≤ 2 ^ 63
    → max_cap ≤ 2 ^ 63
    → IsValid (with_config min_cap max_cap idle)
unfolding with_config
with_config-IsValid min_cap max_cap idle low high =
    let s = max (shift_of min_cap) 4 in
    let least : s ≤ 63 = (let b = shift_of_le min_cap 63 low in omega (arith, b)) in
    let n = max max_cap (2 ^ s) in
    let bound : n ≤ 2 ^ 63 = (let b = pow_mono s 63 least in omega (arith, b, high)) in
    let top = shift_of_le n 63 bound in
    let enough = shift_of_ge n (let b = pow_mono 63 64 (omega arith) in omega (arith, b, bound)) in
    let up : s ≤ shift_of n = pow_reflects s (shift_of n) (omega (arith, enough)) in
    record {
      ordered = up;
      small = omega (arith, top);
      count = length-replicate (shift_of n - s + 1) [] ∙ omega arith;
      fits = λ i bucket h. rw (replicated (shift_of n - s + 1) i bucket h) tt;
    }

module _ (alloc : ℕ → ℕ) (enough : (n : ℕ) → n ≤ alloc n) where
  -- A bucket has a buffer for its capacity, and what is left of it stays valid.
  take_from-IsValid :
      (p : BufPool) (idx : ℕ) (bucket : List Buf)
      → IsValid p
      → get_elem? p.buckets idx ≡ some bucket
      → (bucket_cap p idx ≤ ((take_from alloc p idx bucket).0).capacity)
        × IsValid ((take_from alloc p idx bucket).1)
  unfolding take_from
  take_from-IsValid p idx [] v h = (enough (bucket_cap p idx), v)
  take_from-IsValid p idx (b ∷ bs) v h =
      let all = v.fits idx (b ∷ bs) h in (all.0, set_bucket-IsValid p idx bs v all.1)

  acquire-IsValid :
      (p : BufPool) (n : ℕ)
      → IsValid p
      → (r : Buf × BufPool) × (acquire alloc p n ≡ some r) × (n ≤ r.0.capacity) × IsValid r.1
  unfolding acquire
  acquire-IsValid p n v = elim (Bool-cases (leb n (2 ^ p.max_shift))) [
    | inr e ↦ ((with_capacity alloc n, p), rw (acquire, e) refl, enough n, v)
    | inl e ↦
        let small = v.small in
        let ordered = v.ordered in
        let count = v.count in
        let le : n ≤ 2 ^ p.max_shift = ground (arith, e) in
        let top = shift_of_le n p.max_shift le in
        let s = max (shift_of n) p.min_shift in
        let high : s ≤ p.max_shift = omega (arith, top, ordered) in
        let low : p.min_shift ≤ s = omega arith in
        let (bucket, here) =
          get_elem?-some (s - p.min_shift) p.buckets (omega (arith, count, high)) in
        let (cap, valid) = take_from-IsValid p (s - p.min_shift) bucket v here in
        let fit = shift_of_ge n (let b = pow_mono p.max_shift 64 small in omega (arith, b, le)) in
        let up = pow_mono (shift_of n) (p.min_shift + (s - p.min_shift)) (omega arith) in
        (
          take_from alloc p (s - p.min_shift) bucket,
          rw (acquire, e, bucket_of-pow p v s low high, here) refl,
          omega (arith, cap, fit, up),
          valid,
        )
  ]

bucket_index_for_cap_lem :
    (p : BufPool) (cap idx : ℕ)
    → bucket_index_for_cap p cap ≡ some idx
    → (2 ^ p.min_shift ≤ cap) × (idx ≡ shift_of cap - p.min_shift)
unfolding bucket_index_for_cap
bucket_index_for_cap_lem p cap idx h = elim (Bool-cases (ltb cap (2 ^ p.min_shift))) [
  | inl a ↦ absurd (cc (rw (bucket_index_for_cap, a) at h))
  | inr a ↦ elim (Bool-cases (ltb (2 ^ p.max_shift) cap)) [
    | inl b ↦ absurd (cc (rw (bucket_index_for_cap, a, b) at h))
    | inr b ↦ elim (Bool-cases (ltb (shift_of cap - p.min_shift) (length p.buckets))) [
      | inl c ↦ (
        ltb→le cap (2 ^ p.min_shift) a,
        some-injective (sym (rw (bucket_index_for_cap, a, b, c) at h)),
      )
      | inr c ↦ absurd (cc (rw (bucket_index_for_cap, a, b, c) at h))
    ]
  ]
]

put_back-IsValid :
    (p : BufPool) (b : Buf) (k : ℕ) → b.capacity ≡ 2 ^ k → IsValid p → IsValid (put_back p b)
unfolding put_back
put_back-IsValid p b k e v = elim (Option-cases (bucket_index_for_cap p b.capacity)) [
  | inl q ↦ rw (put_back, q) v
  | inr (idx, q) ↦ elim (Option-cases (get_elem? p.buckets idx)) [
    | inl g ↦ rw (put_back, q, g) v
    | inr (bucket, g) ↦ elim (Bool-cases (ltb (length bucket) p.max_idle_per_bucket)) [
      | inr full ↦ rw (put_back, q, g, full) v
      | inl room ↦
          let (low, at) = bucket_index_for_cap_lem p b.capacity idx q in
          let least = shift_of_le b.capacity k (omega (arith, e)) in
          let lower = pow_reflects p.min_shift k (omega (arith, low, e)) in
          let up = pow_mono (p.min_shift + idx) k (omega (arith, at, least, lower)) in
          let fits : 2 ^ (p.min_shift + idx) ≤ b.capacity = omega (arith, up, e) in
          rw (put_back, q, g, room)
            (set_bucket-IsValid p idx (bucket ++ (b ∷ [])) v (
              All-push (λ b. 2 ^ (p.min_shift + idx) ≤ b.capacity) bucket b (v.fits idx bucket g)
                fits))
    ]
  ]
]

-- The pools that come from leasing buffers and giving back buffers with a power of two for their
-- capacity, in any order.
pub data Reachable (alloc : ℕ → ℕ) : BufPool → Type 0 where
  built :
      (min_cap max_cap idle : ℕ)
      → min_cap ≤ 2 ^ 63
      → max_cap ≤ 2 ^ 63
      → Reachable alloc (with_config min_cap max_cap idle)
  leased :
      {p q : BufPool} {b : Buf} (n : ℕ)
      → Reachable alloc p
      → acquire alloc p n ≡ some (b, q)
      → Reachable alloc q
  given_back :
      {p : BufPool} (b : Buf) (k : ℕ)
      → Reachable alloc p
      → b.capacity ≡ 2 ^ k
      → Reachable alloc (put_back p b)

module _ (alloc : ℕ → ℕ) (enough : (n : ℕ) → n ≤ alloc n) where
  Reachable-IsValid : (p : BufPool) → Reachable alloc p → IsValid p
  Reachable-IsValid _ (built min_cap max_cap idle low high) =
      with_config-IsValid min_cap max_cap idle low high
  Reachable-IsValid _ (leased {p = p} {q = q} {b = b} n r h) =
      let (got, same, fit, valid) = acquire-IsValid alloc enough p n (Reachable-IsValid p r) in
      let e : got ≡ (b, q) = some-injective (sym same ∙ h) in rw (sym (ap (λ r. r.1) e)) valid
  Reachable-IsValid _ (given_back {p = p} b k r e) =
      put_back-IsValid p b k e (Reachable-IsValid p r)

  -- If an allocation has at least the capacity that is asked for, then from every pool that comes from
  -- leasing buffers and giving back buffers with a power of two for their capacity, `acquire` returns,
  -- and with a buffer that has at least the capacity that is asked for.
  pub acquire-capacity :
      (p : BufPool)
      → Reachable alloc p
      → (n : ℕ) → (r : Buf × BufPool) × (acquire alloc p n ≡ some r) × (n ≤ r.0.capacity)
  acquire-capacity p r n =
      let (got, same, fit, valid) = acquire-IsValid alloc enough p n (Reachable-IsValid p r) in
      (got, same, fit)
