-- ===== src/Download/Manager/Progress.antt =====
-- What the chunks of a run of download/manager.rs have reached: an invariant of the loop over them.
use native.Mathlib.Nat.{div-eq_of_eq-mul_left, div-mul-le_self, lt-div-mul-add, mul-le-mul_right}
use native.Mathlib.Decide.{dec_lt}
use rc_launcher.Base.{
  ℕ, ◌+◌, ◌-◌, ◌*◌, ◌/◌, ◌%◌, ◌≤◌, ◌<◌, min, ◌≡◌, refl, sym, ap, ◌∙◌, ◌⊎◌, inl, inr, true, false,
  List, length, get_elem?, some, ok, ◌==◌, Result-cases, Bool-cases, ==_iff, max, arith,
}
use rc_launcher.Robust.Backoff.{u64_mod}
use rc_launcher.Download.Plan.{bounds_of}
use rc_launcher.Download.Plan.Tiling.{next}
use rc_launcher.Download.Resume.{DownloadState, has_chunk}
use rc_launcher.Download.Resume.Sets.{has_chunk-insert_chunk}
use rc_launcher.Download.Chunk.{
  Source, DownloadOptions, Transfer, record_chunk, download_chunk, fetch_loop,
}
use rc_launcher.Download.Chunk.Fetched.{IsHonest, Elsewhere, fetch_loop_lem}

-- Every chunk that counts as complete, in memory or in the side-car, is in the temporary file.
pub record IsFilled (content : List ℕ) (c : ℕ) (t : Transfer) : Type 0 where
  pub sized : length t.temp ≡ length content
  pub right :
      (p : ℕ)
      → p < length content
      → has_chunk (p / c) t.completed ≡ true
      → get_elem? t.temp p ≡ get_elem? content p
  pub noted :
      (s : DownloadState) (i : ℕ)
      → t.sidecar ≡ some s
      → s.total_size ≡ length content
      → s.chunk_size ≡ c
      → has_chunk i s.completed ≡ true
      → has_chunk i t.completed ≡ true

-- The chunks below `i` are complete, and above it those that a run before this one completed.
pub record IsAt (done : List ℕ) (i : ℕ) (t : Transfer) : Type 0 where
  pub reached : (j : ℕ) → j < i → has_chunk j t.completed ≡ true
  pub ahead : (j : ℕ) → i ≤ j → has_chunk j t.completed ≡ has_chunk j done

-- The chunks from `i` on are those that a run before this one completed.
abbrev pub Ahead : List ℕ → ℕ → Transfer → Type 0
Ahead done i t = (j : ℕ) → i ≤ j → has_chunk j t.completed ≡ has_chunk j done

pub index_of : (i c : ℕ) → 0 < c → i * c / c ≡ i
index_of i c h = div-eq_of_eq-mul_left h refl

-- A byte of another chunk lies outside the range of chunk `i`.
outside :
    (total c i p : ℕ)
    → 0 < c
    → i * c < total
    → (p / c ≡ i → ⊥)
    → (p < i * c) ⊎ (min ((i + 1) * c) total - 1 < p)
outside total c i p h k n = elim (dec_lt (p / c) i) [
  | yes l ↦
      let a = lt-div-mul-add {a = p} h in
      let b : (p / c + 1) * c ≤ i * c = mul-le-mul_right c (omega arith) in
      inl (omega (arith, next (p / c) c))
  | no l ↦ elim (dec_lt i (p / c)) [
    | yes g ↦
        let a = div-mul-le_self p c in
        let b : (i + 1) * c ≤ p / c * c = mul-le-mul_right c (omega arith) in
        inr (omega (arith, next i c))
    | no g ↦ absurd (n (omega arith))
  ]
]

module _ (content : List ℕ) (source : Source) (options : DownloadOptions)
    (honest : IsHonest content source) (positive : 0 < options.chunk_size) (done : List ℕ) where
  abbrev c : ℕ
  c = options.chunk_size

  abbrev total : ℕ
  total = length content

  inserted-Ahead :
      (i n : ℕ) (t : Transfer)
      → Ahead done i t
      → Ahead done (i + 1) (record_chunk options total i n t)
  unfolding record_chunk
  inserted-Ahead i n t ahead j l =
      has_chunk-insert_chunk j i t.completed
      ∙ (let e : (j == i) ≡ false = ground arith in rw (e, ahead j (omega arith)))

  inserted-IsAt :
      (i n : ℕ) (t : Transfer)
      → IsAt done i t
      → IsAt done (i + 1) (record_chunk options total i n t)
  unfolding record_chunk
  inserted-IsAt i n t at = record {
    reached = λ j l. has_chunk-insert_chunk j i t.completed ∙ (elim (Bool-cases (j == i)) [
      | inl e ↦ rw e
      | inr e ↦
          let d : ¬ (j ≡ i) = λ q. absurd (cc (e, (==_iff j i).1 q)) in
          rw (e, at.reached j (elim (dec_lt j i) [ yes a ↦ a | no a ↦ absurd (d (omega arith)) ]))
    ]);
    ahead = inserted-Ahead i n t at.ahead;
  }

  persisted :
      (i n : ℕ) (t : Transfer) (s : DownloadState)
      → (record_chunk options total i n t).sidecar ≡ some s
      → (t.sidecar ≡ some s) ⊎ (s.completed ≡ (record_chunk options total i n t).completed)
  unfolding record_chunk
  persisted i n t s h = elim (Bool-cases ((t.gate + 1) % max options.meta_persist_every 1 == 0)) [
    | inl e ↦ inr (cc (rw (e, record_chunk) at h))
    | inr e ↦ inl (cc (rw (e, record_chunk) at h))
  ]

  -- The chunk's bytes are in the file, so the chunk may be recorded.
  recorded-IsFilled :
      (i n : ℕ) (t : Transfer)
      → IsFilled content c t
      → ((p : ℕ) → p < total → p / c ≡ i → get_elem? t.temp p ≡ get_elem? content p)
      → IsFilled content c (record_chunk options total i n t)
  unfolding record_chunk
  recorded-IsFilled i n t f h = record {
    sized = f.sized;
    right = λ p l m. elim (Bool-cases (p / c == i)) [
      | inl e ↦ h p l ((==_iff (p / c) i).0 e)
      | inr e ↦ f.right p l (rw e at (sym (has_chunk-insert_chunk (p / c) i t.completed) ∙ m))
    ];
    noted = λ s j e w w' m. elim (persisted i n t s e) [
      | inl old ↦
          has_chunk-insert_chunk j i t.completed ∙ (rw (f.noted s j old w w' m) (ground arith))
      | inr new ↦ cc
    ];
  }

  -- A failing chunk has changed only its own bytes, which nothing counts as complete.
  touched-IsFilled :
      (i : ℕ) (t : Transfer) (file : List ℕ)
      → IsFilled content c t
      → has_chunk i t.completed ≡ false
      → i * c < total
      → Elsewhere (i * c) (min ((i + 1) * c) total - 1) t.temp file
      → IsFilled content c (record t { temp = file })
  touched-IsFilled i t file f missing l e = record {
    sized = e.sized ∙ f.sized;
    right = λ p k m.
        e.same p (outside total c i p positive l (λ q. absurd (cc (m, missing, q))))
        ∙ f.right p k m;
    noted = f.noted;
  }

  pub chunk_lem :
      (i : ℕ) (t : Transfer)
      → total + c ≤ u64_mod
      → i * c < total
      → has_chunk i done ≡ false
      → IsFilled content c t
      → Ahead done i t
      → let r = download_chunk source options total (bounds_of total c i) t in
        IsFilled content c r.0
        × Ahead done (i + 1) r.0
        × ((r.1 ≡ ok tt) → IsAt done i t → IsAt done (i + 1) r.0)
  unfolding download_chunk
  chunk_lem i t fits l missing f ahead =
      let first = i * c in
      let last = min ((i + 1) * c) total - 1 in
      let m = next i c in
      let (elsewhere, good) =
        fetch_loop_lem content source honest first last (omega arith) options.max_retries 0 t.temp
          (omega (arith, f.sized)) in
      let fetched = fetch_loop source first last options.max_retries 0 t.temp in
      let touched =
        touched-IsFilled i t fetched.0 f (ahead i (omega arith) ∙ missing) l elsewhere in
      elim (Result-cases fetched.1) [
        | inr (x, e) ↦
            rw (e, download_chunk) (touched, λ j k. ahead j (omega arith), λ h. absurd (cc))
        | inl (n, e) ↦
            rw (e, download_chunk)
              (rw (index_of i c positive) (
                recorded-IsFilled i n (record t { temp = fetched.0 }) touched
                    (λ p k q.
                      let low = div-mul-le_self p c in
                      let high = lt-div-mul-add {a = p} positive in
                      (good n p e (omega (arith, ap (λ z. z * c) q))
                        (omega (arith, ap (λ z. z * c) q))).1),
                inserted-Ahead i n (record t { temp = fetched.0 }) ahead,
                λ h at.
                    inserted-IsAt i n (record t { temp = fetched.0 })
                      (record { reached = at.reached; ahead = at.ahead }),
              ))
      ]
