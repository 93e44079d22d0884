-- ===== src/Download/Chunk/Fetched.antt =====
-- What one chunk of download/manager.rs leaves in the temporary file.
use rc_launcher.Base.{
  ℕ, zero, suc, ◌+◌, ◌-◌, ◌≤◌, ◌<◌, ◌≡◌, refl, sym, ap, ◌∙◌, ◌⊎◌, inl, inr, List, [], ◌∷◌, ◌++◌,
  length, take, drop, get_elem?, write_at, ok, err, ◌==◌, Result-cases, Bool-cases, true,
  length-write_at, get_elem?-write_at, get_elem?-write_at_before, get_elem?-write_at_after, ==_iff,
  arith,
}
use rc_launcher.Error.{RcResult}
use rc_launcher.Download.Chunk.{Source, seek_write, checked, fetch_once, fetch_loop}

-- The source never writes more than the range that it was asked for, not even when it fails, and when
-- it reports a number of bytes, it wrote so many, and they are those of the resource. One that writes
-- the whole resource for every range, as over a server that ignores ranges, is not such a source.
pub record IsHonest (content : List ℕ) (source : Source) : Type 0 where
  pub bounded :
      (start last call : ℕ) → start ≤ last → length (source start last call).0 ≤ last - start + 1
  pub truthful :
      (start last call n i : ℕ)
      → (source start last call).1 ≡ ok n
      → i < n
      → (length (source start last call).0 ≡ n)
        × (get_elem? (source start last call).0 i ≡ get_elem? content (start + i))

append_nil : (xs : List ℕ) → xs ++ [] ≡ xs
append_nil [] = refl
append_nil (x ∷ xs) = ap (◌∷◌ x) (append_nil xs)

splice :
    (at k : ℕ) (bytes file : List ℕ)
    → k ≡ at + length bytes
    → k ≤ length file
    → take at file ++ bytes ++ drop k file ≡ write_at at bytes file
splice zero zero [] [] e h = refl
splice zero zero [] (x ∷ file) e h = refl
splice zero (suc k) [] file e h = absurd (omega arith)
splice zero zero (b ∷ bytes) file e h = absurd (omega arith)
splice zero (suc k) (b ∷ bytes) [] e h = absurd (omega arith)
splice zero (suc k) (b ∷ bytes) (x ∷ file) e h =
    ap (◌∷◌ b) (splice zero k bytes file (omega arith) (omega arith))
splice (suc at) zero bytes file e h = absurd (omega arith)
splice (suc at) (suc k) bytes [] e h = absurd (omega arith)
splice (suc at) (suc k) bytes (x ∷ file) e h =
    ap (◌∷◌ x) (splice at k bytes file (omega arith) (omega arith))

write_at_nothing : (at : ℕ) (file : List ℕ) → write_at at [] file ≡ file
write_at_nothing at [] = refl
write_at_nothing zero (x ∷ file) = refl
write_at_nothing (suc at) (x ∷ file) = ap (◌∷◌ x) (write_at_nothing at file)

-- Inside a file that is large enough, a write at an offset replaces a slice.
pub seek_write-eq-write_at :
    (at : ℕ) (bytes file : List ℕ)
    → at + length bytes ≤ length file
    → seek_write at bytes file ≡ write_at at bytes file
unfolding seek_write
seek_write-eq-write_at at [] file h = sym (write_at_nothing at file)
seek_write-eq-write_at at (b ∷ bytes) file h =
    let e : at - length file ≡ 0 = omega arith in
    rw e (rw (append_nil file) (splice at (at + length (b ∷ bytes)) (b ∷ bytes) file refl h))

-- `file'` is `file` but for the bytes of the range.
pub record Elsewhere (start last : ℕ) (file file' : List ℕ) : Type 0 where
  pub sized : length file' ≡ length file
  pub same : (p : ℕ) → (p < start) ⊎ (last < p) → get_elem? file' p ≡ get_elem? file p

Elsewhere-trans :
    {start last : ℕ} {a b c : List ℕ}
    → Elsewhere start last a b
    → Elsewhere start last b c
    → Elsewhere start last a c
Elsewhere-trans h k = record { sized = k.sized ∙ h.sized; same = λ p o. k.same p o ∙ h.same p o }

module _ (content : List ℕ) (source : Source) (honest : IsHonest content source) (start last : ℕ)
    (ordered : start ≤ last) where
  once-Elsewhere :
      (call : ℕ) (file : List ℕ)
      → last < length file
      → Elsewhere start last file (fetch_once source start last call file).0
  unfolding fetch_once
  once-Elsewhere call file room =
      let b = honest.bounded start last call ordered in
      let bytes : List ℕ = (source start last call).0 in
      let e = seek_write-eq-write_at start bytes file (omega arith) in
      rw e (record {
        sized = length-write_at start bytes file;
        same = λ p o. elim o [
          | inl l ↦ get_elem?-write_at_before start bytes file p l
          | inr l ↦ get_elem?-write_at_after start bytes file p (omega arith)
        ];
      })

  -- A pass that is counted as a success wrote the whole range.
  once_ok :
      (call : ℕ) (file : List ℕ) (n p : ℕ)
      → last < length file
      → (fetch_once source start last call file).1 ≡ ok n
      → start ≤ p
      → p ≤ last
      → (n ≡ last - start + 1)
        × (get_elem? (fetch_once source start last call file).0 p ≡ get_elem? content p)
  unfolding fetch_once checked
  once_ok call file n p room h above below = elim (Result-cases (source start last call).1) [
    | inr (x, e) ↦ absurd (cc (rw (e, checked) at h))
    | inl (m, e) ↦ elim (Bool-cases (m == last - start + 1)) [
      | inr t ↦ absurd (cc (rw t at (rw (e, checked) at h)))
      | inl t ↦
          let full = (==_iff m (last - start + 1)).0 t in
          let q : m ≡ n = cc (rw t at (rw (e, checked) at h)) in
          let bytes : List ℕ = (source start last call).0 in
          let (size, value) = honest.truthful start last call m (p - start) e (omega arith) in
          let w = seek_write-eq-write_at start bytes file (omega arith) in
          let back : start + (p - start) ≡ p = omega arith in
          (
            omega arith,
            rw w (
                get_elem?-write_at start bytes file (p - start) p (omega arith) (omega arith)
                  (omega arith)
                ∙ value
                ∙ ap (get_elem? content) back),
          )
    ]
  ]

  -- Whatever the attempts did, only bytes of the range have changed; and if the loop succeeds, they
  -- are the bytes of the resource.
  pub fetch_loop_lem :
      (retries call : ℕ) (file : List ℕ)
      → last < length file
      → let r = fetch_loop source start last retries call file in
        Elsewhere start last file r.0
        × ((n p : ℕ)
            → r.1 ≡ ok n
            → start ≤ p
            → p ≤ last
            → (n ≡ last - start + 1) × (get_elem? r.0 p ≡ get_elem? content p))
  unfolding fetch_loop
  fetch_loop_lem zero call file room =
      (once-Elsewhere call file room, λ n p. once_ok call file n p room)
  fetch_loop_lem (suc retries) call file room =
      let first = once-Elsewhere call file room in
      elim (Result-cases (fetch_once source start last call file).1) [
        | inl (m, e) ↦ rw (e, fetch_loop) (first, λ n p h. once_ok call file n p room (e ∙ h))
        | inr (x, e) ↦
            let (rest, good) =
              fetch_loop_lem retries (call + 1) (fetch_once source start last call file).0
                (omega (arith, first.sized)) in
            rw (e, fetch_loop) (Elsewhere-trans first rest, good)
      ]

checked_same : (n : ℕ) → checked n (ok n) ≡ ok n
unfolding checked
checked_same n = let t : (n == n) ≡ true = (==_iff n n).1 refl in rw t

checked-eq-ok : (n m : ℕ) (r : RcResult ℕ) → checked n r ≡ ok m → m ≡ n
unfolding checked
checked-eq-ok n m (ok k) h = elim (Bool-cases (k == n)) [
  | inl t ↦ let a : k ≡ m = cc (rw t at h) in let b = (==_iff k n).0 t in omega arith
  | inr t ↦ absurd (cc (rw t at h))
]
checked-eq-ok n m (err e) h = absurd (cc)

module _ (source : Source) (start last : ℕ) where
  -- One attempt in time that returns the length of the range is enough.
  pub fetch_loop_succeeds :
      (retries call : ℕ) (file : List ℕ) (i j : ℕ)
      → j ≡ call + i
      → i ≤ retries
      → (source start last j).1 ≡ ok (last - start + 1)
      → (fetch_loop source start last retries call file).1 ≡ ok (last - start + 1)
  unfolding fetch_loop fetch_once
  fetch_loop_succeeds zero call file i j e k h =
      let e' : j ≡ call = omega arith in rw (rw e' at h) (checked_same (last - start + 1))
  fetch_loop_succeeds (suc retries) call file zero j e k h =
      let e' : j ≡ call = omega arith in
      let q : (fetch_once source start last call file).1 ≡ ok (last - start + 1) =
        rw (rw e' at h) (checked_same (last - start + 1)) in
      rw (q, fetch_loop)
  fetch_loop_succeeds (suc retries) call file (suc i) j e k h =
      elim (Result-cases (fetch_once source start last call file).1) [
        | inl (m, q) ↦
            let m' : m ≡ last - start + 1 = checked-eq-ok _ m (source start last call).1 q in
            rw (q, fetch_loop) (ap ok m')
        | inr (x, q) ↦
            rw (q, fetch_loop)
              (fetch_loop_succeeds retries (call + 1) (fetch_once source start last call file).0 i j
                (omega arith) (omega arith) h)
      ]
