-- ===== src/Classpath/Swap.antt =====
-- The order of launch/classpath.rs does not depend on which of two versions comes first.
use Prim.Native.Nat.{compare, Ordering, lt, eq, gt}
use rc_launcher.Base.{
  ℕ, ◌≡◌, refl, Bool, true, false, Option, none, some, List, [], ◌∷◌, if◌then◌else◌, arith,
}
use rc_launcher.Base.Text.{Text}
use rc_launcher.Classpath.{
  parse_u64, to_lower, compare_texts, is_prerelease, compare_parsed, compare_segments, compare_all,
  segments, compare_maven_versions,
}

-- `Ordering::reverse`
abbrev pub reversed : Ordering → Ordering
reversed lt = gt
reversed eq = eq
reversed gt = lt

compare-reversed : (n m : ℕ) → compare n m ≡ reversed (compare m n)
compare-reversed n m = ground arith

-- The first difference decides.
chosen_reversed :
    (o p a b : Ordering)
    → o ≡ reversed p
    → a ≡ reversed b
    → (elim o [ lt ↦ lt | eq ↦ a | gt ↦ gt ]) ≡ reversed (elim p [ lt ↦ lt | eq ↦ b | gt ↦ gt ])
chosen_reversed o lt a b h k = rw (h) refl
chosen_reversed o eq a b h k = rw (h) k
chosen_reversed o gt a b h k = rw (h) refl

compare_texts-reversed : (s t : Text) → compare_texts s t ≡ reversed (compare_texts t s)
unfolding compare_texts
compare_texts-reversed [] [] = refl
compare_texts-reversed [] (y ∷ ys) = refl
compare_texts-reversed (x ∷ xs) [] = refl
compare_texts-reversed (x ∷ xs) (y ∷ ys) =
    let later = compare_texts-reversed xs ys in
    chosen_reversed (compare x y) (compare y x) (compare_texts xs ys) (compare_texts ys xs)
      (compare-reversed x y) later

compare_parsed-reversed :
    (n m : Option ℕ) (x y : Text) → compare_parsed n m x y ≡ reversed (compare_parsed m n y x)
unfolding compare_parsed
compare_parsed-reversed (some n) (some m) x y = compare-reversed n m
compare_parsed-reversed (some n) none x y = refl
compare_parsed-reversed none (some m) x y = refl
compare_parsed-reversed none none x y = compare_texts-reversed (to_lower x) (to_lower y)

compare_all-reversed : (xs ys : List Text) → compare_all xs ys ≡ reversed (compare_all ys xs)
unfolding compare_all
compare_all-reversed [] [] = refl
compare_all-reversed (x ∷ xs) [] = extra (is_prerelease x)
  where
    extra : (b : Bool) → (if b then lt else gt) ≡ reversed (if b then gt else lt)
    extra true = refl
    extra false = refl
compare_all-reversed [] (y ∷ ys) = extra (is_prerelease y)
  where
    extra : (b : Bool) → (if b then gt else lt) ≡ reversed (if b then lt else gt)
    extra true = refl
    extra false = refl
compare_all-reversed (x ∷ xs) (y ∷ ys) =
    chosen_reversed (compare_segments x y) (compare_segments y x) (compare_all xs ys)
      (compare_all ys xs) (compare_parsed-reversed (parse_u64 0 x) (parse_u64 0 y) x y)
      (compare_all-reversed xs ys)

-- Comparing two versions the other way round gives the reverse.
pub compare_maven_versions-reversed :
    (a b : Text) → compare_maven_versions a b ≡ reversed (compare_maven_versions b a)
unfolding compare_maven_versions
compare_maven_versions-reversed a b = compare_all-reversed (segments a) (segments b)
