-- ===== src/Download/Plan/Tiling.antt =====
-- The chunks that `plan_chunks` of download/manager.rs plans cover the file once.
use native.Mathlib.Nat.{
  le-div_iff_mul-le, div-mul-le_self, lt-div-mul-add, mod-eq_of_lt, mul-le-mul_right,
}
use native.Mathlib.Decide.{dec_lt}
use mathlib.Core.Option
use rc_launcher.Base.{
  ℕ, zero, suc, ◌+◌, ◌-◌, ◌*◌, ◌/◌, ◌%◌, ◌≤◌, ◌<◌, min, ◌≡◌, refl, sym, ap, ◌∙◌, false, ◌||◌, inl,
  inr, Bool-cases, Option, List, [], ◌∷◌, none, some, length, get_elem?, ◌==◌, arith,
}
use rc_launcher.Robust.Backoff.{u64_mod}
use rc_launcher.Download.Plan.{plan_from, plan_chunks, div_ceil, bounds_of, length-plan_from}

pub next : (i c : ℕ) → (i + 1) * c ≡ i * c + c
next i c = grind arith

pub within : (total c i : ℕ) → 0 < c → i < div_ceil total c → i * c < total
within total c i h k =
    let m : (i + 1) * c ≤ total + c - 1 = (le-div_iff_mul-le h).0 (omega arith) in
    omega (arith, next i c)

pub counted : (total c i : ℕ) → 0 < c → i * c < total → i < div_ceil total c
counted total c i h k =
    let e : (i + 1) * c ≡ i * c + c = next i c in
    let m : i + 1 ≤ div_ceil total c = (le-div_iff_mul-le h).1 (omega arith) in omega arith

get_elem?-plan_from :
    (n i j k total c : ℕ)
    → k ≡ i + j
    → 0 < c
    → total + c ≤ u64_mod
    → j < n
    → k * c < total
    → get_elem? (plan_from n i total c) j ≡ some (bounds_of total c k)
unfolding plan_from
get_elem?-plan_from zero i j k total c e h fits below l = absurd (omega arith)
get_elem?-plan_from (suc n) i zero k total c e h fits below l =
    let m : (k + 1) * c ≡ k * c + c = next k c in
    let a : k * c % u64_mod ≡ k * c = mod-eq_of_lt (omega arith) in
    let b : (min ((k + 1) * c % u64_mod) total + u64_mod - 1) % u64_mod
        ≡ min ((k + 1) * c) total - 1 =
      omega arith in
    let e' : i ≡ k = omega arith in rw (e', a, b)
get_elem?-plan_from (suc n) i (suc j) k total c e h fits below l =
    get_elem?-plan_from n (i + 1) j k total c (omega arith) h fits (omega arith) l

pub get_elem?-plan_chunks :
    (total c i : ℕ)
    → 0 < c
    → total + c ≤ u64_mod
    → i * c < total
    → get_elem? (plan_chunks total c) i ≡ some (bounds_of total c i)
unfolding plan_chunks
get_elem?-plan_chunks total c i h fits l =
    let t : (total == 0 || c == 0) ≡ false = ground arith in
    rw t (
      get_elem?-plan_from (div_ceil total c) 0 i i total c (omega arith) h fits
        (counted total c i h l) l)

get_elem?_past : (xs : List (ℕ × ℕ)) (i : ℕ) → length xs ≤ i → get_elem? xs i ≡ none
get_elem?_past [] i h = refl
get_elem?_past (x ∷ xs) zero h = absurd (omega arith)
get_elem?_past (x ∷ xs) (suc i) h = get_elem?_past xs i (omega arith)

get_elem?-plan_chunks_past :
    (total c i : ℕ) → 0 < c → total ≤ i * c → get_elem? (plan_chunks total c) i ≡ none
unfolding plan_chunks
get_elem?-plan_chunks_past total c i h k = elim (Bool-cases (total == 0 || c == 0)) [
  | inl t ↦ rw t
  | inr t ↦ rw t (
      get_elem?_past (plan_from (div_ceil total c) 0 total c) i
        (elim (dec_lt i (div_ceil total c)) [
          | yes l ↦ let w = within total c i h l in absurd (omega arith)
          | no l ↦ omega (arith, length-plan_from (div_ceil total c) 0 total c)
        ]))
]

-- The plan is a tiling of the bytes `[0, total)`.
pub record IsTiling (total c : ℕ) (plan : List (ℕ × ℕ)) : Type 0 where
  pub ranged :
      (i first last : ℕ)
      → get_elem? plan i ≡ some (first, last)
      → (first ≡ i * c) × (first ≤ last) × (last < total) × (last < first + c)
  pub covered :
      (p : ℕ)
      → p < total
      → (first : ℕ) × (last : ℕ) × (get_elem? plan (p / c) ≡ some (first, last))
        × (first ≤ p)
        × (p ≤ last)
  pub once :
      (i j first last first' last' p : ℕ)
      → get_elem? plan i ≡ some (first, last)
      → get_elem? plan j ≡ some (first', last')
      → (first ≤ p) × (p ≤ last)
      → (first' ≤ p) × (p ≤ last')
      → i ≡ j

same_chunk : (c i j p : ℕ) → i * c ≤ p → p < i * c + c → j * c ≤ p → p < j * c + c → i ≤ j
same_chunk c i j p a b d e = elim (dec_lt j i) [
  | yes l ↦
      let m : (j + 1) * c ≤ i * c = mul-le-mul_right c (omega arith) in
      absurd (omega (arith, next j c))
  | no l ↦ omega arith
]

module _ (total c : ℕ) (h : 0 < c) (fits : total + c ≤ u64_mod) where
  pub plan_ranged :
      (i first last : ℕ)
      → get_elem? (plan_chunks total c) i ≡ some (first, last)
      → (first ≡ i * c) × (first ≤ last) × (last < total) × (last < first + c)
  plan_ranged i first last e = elim (dec_lt (i * c) total) [
    | yes k ↦
        let e' : some (bounds_of total c i) ≡ some (first, last) =
          sym (get_elem?-plan_chunks total c i h fits k) ∙ e in
        let a : i * c ≡ first = ap (λ (o : Option (ℕ × ℕ)). (Option.get_or o (0, 0)).0) e' in
        let b : min ((i + 1) * c) total - 1 ≡ last =
          ap (λ (o : Option (ℕ × ℕ)). (Option.get_or o (0, 0)).1) e' in
        let m = next i c in (sym a, omega arith, omega arith, omega arith)
    | no k ↦
        let e' : ◌≡◌ {A = Option (ℕ × ℕ)} none (some (first, last)) =
          sym (get_elem?-plan_chunks_past total c i h (omega arith)) ∙ e in
        absurd (cc)
  ]

-- For a chunk size that is not 0 and offsets that do not overflow 64 bits: each planned range is
-- not empty, starts at its index times the chunk size, lies inside the file and is at most one
-- chunk long; every byte of the file is in the range at its offset divided by the chunk size; and
-- no byte is in two ranges.
pub plan_chunks-IsTiling :
    (total c : ℕ) → 0 < c → total + c ≤ u64_mod → IsTiling total c (plan_chunks total c)
plan_chunks-IsTiling total c h fits = record {
  ranged = plan_ranged total c h fits;
  covered = λ p k.
      let low = div-mul-le_self p c in
      let high = lt-div-mul-add {a = p} h in
      let m = next (p / c) c in
      (_, _, get_elem?-plan_chunks total c (p / c) h fits (omega arith), low, omega arith);
  once = λ i j first last first' last' p e e' a b.
      let (s, _, _, t) = plan_ranged total c h fits i first last e in
      let (s', _, _, t') = plan_ranged total c h fits j first' last' e' in
      let l = same_chunk c i j p (omega arith) (omega arith) (omega arith) (omega arith) in
      let g = same_chunk c j i p (omega arith) (omega arith) (omega arith) (omega arith) in
      omega arith;
}

-- One step of the plan, without the wrap-around.
pub plan_from-eq-cons :
    (n i total c : ℕ)
    → 0 < c
    → total + c ≤ u64_mod
    → i * c < total
    → plan_from (suc n) i total c ≡ bounds_of total c i ∷ plan_from n (i + 1) total c
unfolding plan_from
plan_from-eq-cons n i total c h fits l =
    let m : (i + 1) * c ≡ i * c + c = next i c in
    let a : i * c % u64_mod ≡ i * c = mod-eq_of_lt (omega arith) in
    let b : (min ((i + 1) * c % u64_mod) total + u64_mod - 1) % u64_mod
        ≡ min ((i + 1) * c) total - 1 =
      omega arith in
    rw (a, b)
