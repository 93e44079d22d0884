-- ===== src/Game/Version/Index.antt =====
-- The index of the names in the merge of libraries of game/version.rs: where a name stands in a list of
-- distinct names.
use rc_launcher.Base.{
  ℕ, suc, ◌≡◌, refl, sym, true, false, ◌||◌, Option, none, some, List, [], ◌∷◌, ◌++◌, length,
  if◌then◌else◌, Bool-cases, or_false, Option-cases, arith, ◌⊎◌, inl, inr, some-injective,
}
use rc_launcher.Base.Text.{Text, text_eq, text_eq_comm, contains}

-- The first place of a name.
unfoldable pub index_of : Text → List Text → Option ℕ
index_of n [] = none
index_of n (x ∷ xs) =
    if text_eq x n then some 0 else elim (index_of n xs) [ none ↦ none | some i ↦ some (suc i) ]

pub index_of-head :
    (n x : Text) (xs : List Text) (i : ℕ)
    → index_of n (x ∷ xs) ≡ some i
    → ((text_eq x n ≡ true) × (i ≡ 0))
      ⊎ ((text_eq x n ≡ false) × ((j : ℕ) × (i ≡ suc j) × (index_of n xs ≡ some j)))
unfolding index_of
index_of-head n x xs i h = elim (Bool-cases (text_eq x n)) [
  | inl e ↦ inl (e, some-injective (sym (rw e at h)))
  | inr e ↦ elim (Option-cases (index_of n xs)) [
    | inl q ↦ absurd (cc (rw (e, q) at h))
    | inr (j, q) ↦ inr (e, (j, some-injective (sym (rw (e, q) at h)), q))
  ]
]

unfoldable pub Distinct : List Text → Type 0
Distinct [] = Unit {0}
Distinct (x ∷ xs) = (contains x xs ≡ false) × Distinct xs

pub index_of-none : (n : Text) (ns : List Text) → index_of n ns ≡ none → contains n ns ≡ false
unfolding index_of contains
index_of-none n [] h = refl
index_of-none n (x ∷ xs) h = elim (Bool-cases (text_eq x n)) [
  | inl e ↦ absurd (cc (rw (e) at h))
  | inr e ↦ elim (Option-cases (index_of n xs)) [
    | inl q ↦ rw (text_eq_comm n x, e, index_of-none n xs q) refl
    | inr (i, q) ↦ absurd (cc (rw (e, q) at h))
  ]
]

pub index_of-some :
    (n : Text) (ns : List Text) (i : ℕ) → index_of n ns ≡ some i → contains n ns ≡ true
unfolding contains index_of
index_of-some n [] i h = absurd (cc)
index_of-some n (x ∷ xs) i h = elim (index_of-head n x xs i h) [
  | inl (e, z) ↦ rw (text_eq_comm n x, e) refl
  | inr (e, (j, z, q)) ↦ rw (text_eq_comm n x, e, index_of-some n xs j q) refl
]

contains-push :
    (n x : Text) (ns : List Text) → contains n (ns ++ (x ∷ [])) ≡ (contains n ns || text_eq n x)
unfolding contains
contains-push n x [] = ground arith
contains-push n x (y ∷ ys) = let e = contains-push n x ys in ground (arith, e)

pub Distinct-push :
    (n : Text) (ns : List Text) → contains n ns ≡ false → Distinct ns → Distinct (ns ++ (n ∷ []))
unfolding Distinct contains
Distinct-push n [] h d = (refl, tt)
Distinct-push n (x ∷ xs) h d =
    let (a, b) = or_false (text_eq n x) (contains n xs) h in
    (rw (contains-push x n xs, d.0, text_eq_comm x n, a) refl, Distinct-push n xs b d.1)

pub index_of-push :
    (n x : Text) (ns : List Text)
    → index_of n (ns ++ (x ∷ [])) ≡ elim (index_of n ns) [
      | some i ↦ some i
      | none ↦ if text_eq x n then some (length ns) else none
    ]
unfolding index_of
index_of-push n x [] = elim (Bool-cases (text_eq x n)) [ inl e ↦ rw (e) refl | inr e ↦ rw (e) refl ]
index_of-push n x (y ∷ ys) = let e = index_of-push n x ys in ground (arith, e)
