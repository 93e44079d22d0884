-- ===== src/Base/Lists.antt =====
-- Lists measured and indexed by native numbers, and the slice operations of the source: a write of
-- a slice at an offset (`copy_from_slice`), and a filled vector (`vec![v; n]`).
use mathlib.Core.Bool.{Bool, true, false}
use Prim.Native.Nat.{ℕ, zero, suc, ◌+◌, ◌-◌, ◌≤◌, ◌<◌}
use mathlib.Core.Path.{◌≡◌, refl, sym, ap, ◌∙◌}
use mathlib.Core.List.{List, [], ◌∷◌, ◌++◌, map}
use mathlib.Core.Option.{Option, none, some}
use native.Mathlib.Omega.{arith}

module _ {ℓ} {A : Type ℓ} where
  abbrev pub length : List A → ℕ
  length [] = 0
  length (x ∷ xs) = suc (length xs)

  abbrev pub get_elem? : List A → ℕ → Option A
  get_elem? [] i = none
  get_elem? (x ∷ xs) zero = some x
  get_elem? (x ∷ xs) (suc i) = get_elem? xs i

  abbrev pub take : ℕ → List A → List A
  take zero xs = []
  take (suc n) [] = []
  take (suc n) (x ∷ xs) = x ∷ take n xs

  abbrev pub drop : ℕ → List A → List A
  drop zero xs = xs
  drop (suc n) [] = []
  drop (suc n) (x ∷ xs) = drop n xs

  abbrev pub replicate : ℕ → A → List A
  replicate zero a = []
  replicate (suc n) a = a ∷ replicate n a

  -- `dst[at..].copy_from_slice(src)`; what falls past the end is dropped.
  abbrev pub write_at : ℕ → List A → List A → List A
  write_at at src [] = []
  write_at zero [] (d ∷ ds) = d ∷ ds
  write_at zero (s ∷ ss) (d ∷ ds) = s ∷ write_at zero ss ds
  write_at (suc at) src (d ∷ ds) = d ∷ write_at at src ds

module _ {ℓ} {A : Type ℓ} where
  pub length-append : (xs ys : List A) → length (xs ++ ys) ≡ length xs + length ys
  length-append [] ys = omega arith
  length-append (x ∷ xs) ys = omega (arith, length-append xs ys)

  pub length-replicate : (n : ℕ) (a : A) → length (replicate n a) ≡ n
  length-replicate zero a = refl
  length-replicate (suc n) a = ap suc (length-replicate n a)

  pub length-map {κ} : {B : Type κ} (f : A → B) (xs : List A) → length (map f xs) ≡ length xs
  length-map f [] = refl
  length-map f (x ∷ xs) = ap suc (length-map f xs)

  pub map-push {κ} :
      {B : Type κ} (f : A → B) (xs : List A) (x : A)
      → map f (xs ++ (x ∷ [])) ≡ map f xs ++ (f x ∷ [])
  map-push f [] x = refl
  map-push f (y ∷ ys) x = ap (λ zs. f y ∷ zs) (map-push f ys x)

  pub length-drop : (n : ℕ) (xs : List A) → length (drop n xs) ≡ length xs - n
  length-drop zero xs = omega arith
  length-drop (suc n) [] = omega arith
  length-drop (suc n) (x ∷ xs) = omega (arith, length-drop n xs)

  pub length-take_of_le : (n : ℕ) (xs : List A) → n ≤ length xs → length (take n xs) ≡ n
  length-take_of_le zero xs h = refl
  length-take_of_le (suc n) [] h = absurd (omega arith)
  length-take_of_le (suc n) (x ∷ xs) h = ap suc (length-take_of_le n xs (omega arith))

  pub get_elem?-drop : (n i : ℕ) (xs : List A) → get_elem? (drop n xs) i ≡ get_elem? xs (n + i)
  get_elem?-drop zero i xs = ap (get_elem? xs) (omega arith)
  get_elem?-drop (suc n) i [] = refl
  get_elem?-drop (suc n) i (x ∷ xs) =
      let e : suc n + i ≡ suc (n + i) = omega arith in
      get_elem?-drop n i xs ∙ ap (get_elem? (x ∷ xs)) (sym e)

  pub get_elem?-take : (n i : ℕ) (xs : List A) → i < n → get_elem? (take n xs) i ≡ get_elem? xs i
  get_elem?-take zero i xs h = absurd (omega arith)
  get_elem?-take (suc n) i [] h = refl
  get_elem?-take (suc n) zero (x ∷ xs) h = refl
  get_elem?-take (suc n) (suc i) (x ∷ xs) h = get_elem?-take n i xs (omega arith)

  pub get_elem?-replicate : (n i : ℕ) (a : A) → i < n → get_elem? (replicate n a) i ≡ some a
  get_elem?-replicate zero i a h = absurd (omega arith)
  get_elem?-replicate (suc n) zero a h = refl
  get_elem?-replicate (suc n) (suc i) a h = get_elem?-replicate n i a (omega arith)

  pub length-write_at : (at : ℕ) (src dst : List A) → length (write_at at src dst) ≡ length dst
  length-write_at at src [] = refl
  length-write_at zero [] (d ∷ ds) = refl
  length-write_at zero (s ∷ ss) (d ∷ ds) = ap suc (length-write_at zero ss ds)
  length-write_at (suc at) src (d ∷ ds) = ap suc (length-write_at at src ds)

  -- A position inside the written slice holds the slice's element.
  pub get_elem?-write_at :
      (at : ℕ) (src dst : List A) (i j : ℕ)
      → j ≡ at + i
      → i < length src
      → j < length dst
      → get_elem? (write_at at src dst) j ≡ get_elem? src i
  get_elem?-write_at at src [] i j e h k = absurd (omega arith)
  get_elem?-write_at zero [] (d ∷ ds) i j e h k = absurd (omega arith)
  get_elem?-write_at zero (s ∷ ss) (d ∷ ds) zero zero e h k = refl
  get_elem?-write_at zero (s ∷ ss) (d ∷ ds) zero (suc j) e h k = absurd (omega arith)
  get_elem?-write_at zero (s ∷ ss) (d ∷ ds) (suc i) zero e h k = absurd (omega arith)
  get_elem?-write_at zero (s ∷ ss) (d ∷ ds) (suc i) (suc j) e h k =
      get_elem?-write_at zero ss ds i j (omega arith) (omega arith) (omega arith)
  get_elem?-write_at (suc at) src (d ∷ ds) i zero e h k = absurd (omega arith)
  get_elem?-write_at (suc at) src (d ∷ ds) i (suc j) e h k =
      get_elem?-write_at at src ds i j (omega arith) h (omega arith)

  pub get_elem?-write_at_before :
      (at : ℕ) (src dst : List A) (i : ℕ)
      → i < at
      → get_elem? (write_at at src dst) i ≡ get_elem? dst i
  get_elem?-write_at_before at src [] i h = refl
  get_elem?-write_at_before zero src (d ∷ ds) i h = absurd (omega arith)
  get_elem?-write_at_before (suc at) src (d ∷ ds) zero h = refl
  get_elem?-write_at_before (suc at) src (d ∷ ds) (suc i) h =
      get_elem?-write_at_before at src ds i (omega arith)

  pub get_elem?-write_at_after :
      (at : ℕ) (src dst : List A) (i : ℕ)
      → at + length src ≤ i
      → get_elem? (write_at at src dst) i ≡ get_elem? dst i
  get_elem?-write_at_after at src [] i h = refl
  get_elem?-write_at_after zero [] (d ∷ ds) i h = refl
  get_elem?-write_at_after zero (s ∷ ss) (d ∷ ds) zero h = absurd (omega arith)
  get_elem?-write_at_after zero (s ∷ ss) (d ∷ ds) (suc i) h =
      get_elem?-write_at_after zero ss ds i (omega arith)
  get_elem?-write_at_after (suc at) src (d ∷ ds) zero h = refl
  get_elem?-write_at_after (suc at) src (d ∷ ds) (suc i) h =
      get_elem?-write_at_after at src ds i (omega arith)

  -- Lists that agree at every position are equal.
  pub list_ext :
      (xs ys : List A)
      → length xs ≡ length ys
      → ((i : ℕ) → i < length xs → get_elem? xs i ≡ get_elem? ys i)
      → xs ≡ ys
  list_ext [] [] e h = refl
  list_ext [] (y ∷ ys) e h = absurd (omega arith)
  list_ext (x ∷ xs) [] e h = absurd (omega arith)
  list_ext (x ∷ xs) (y ∷ ys) e h =
      cc (h 0 (omega arith), list_ext xs ys (omega arith) (λ i k. h (suc i) (omega arith)))

-- `P` of every element
abbrev pub All {ℓ κ} : {A : Type ℓ} → (A → Type κ) → List A → Type κ
All P [] = Unit
All P (x ∷ xs) = P x × All P xs

abbrev pub is_nil {ℓ} : {A : Type ℓ} → List A → Bool
is_nil [] = true
is_nil (a ∷ rest) = false
