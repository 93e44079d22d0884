-- ===== src/Launch/Args/Template.antt =====
-- What the expansion of launch/args.rs does with a template, written as literal texts and
-- placeholders.
use mathlib.Core.List.{append_assoc}
use rc_launcher.Base.{
  ℕ, zero, suc, ◌+◌, ◌≤◌, ◌≡◌, refl, ap, ◌∙◌, false, none, some, List, [], ◌∷◌, ◌++◌, ◌==◌, All,
  arith, length, length-append, if◌then◌else◌, ==_iff,
}
use rc_launcher.Base.Text.{Text, Lacks}
use rc_launcher.Launch.Text.{split_once}
use rc_launcher.Launch.Args.{
  Substitutions, defines, after_open, placeholder, fill_in, apply_fuel, apply, unresolved_fuel,
  unresolved,
}

pub data Piece : Type 0 where
  literal variable : Text → Piece

-- A literal has no dollar sign, and the key of a variable no closing brace.
unfoldable pub Plain : Piece → Type 0
Plain (literal s) = Lacks b'$' s
Plain (variable key) = Lacks b'}' key

-- The template that consists of the pieces.
unfoldable pub write : List Piece → Text
write [] = []
write (literal s ∷ ps) = s ++ write ps
write (variable key ∷ ps) = placeholder key ++ write ps

-- The pieces with the values of the variables, those without one as they are.
unfoldable pub expand : Substitutions → List Piece → Text
expand subs [] = []
expand subs (literal s ∷ ps) = s ++ expand subs ps
expand subs (variable key ∷ ps) = fill_in subs key ++ expand subs ps

-- The variables without a value, in order.
unfoldable pub missing : Substitutions → List Piece → List Text
missing subs [] = []
missing subs (literal s ∷ ps) = missing subs ps
missing subs (variable key ∷ ps) =
    let rest = missing subs ps in if defines subs key then rest else key ∷ rest

pub split_once-append :
    (sep : ℕ) (s t : Text) → Lacks sep s → split_once sep (s ++ (sep ∷ t)) ≡ some (s, t)
unfolding split_once Lacks
split_once-append sep [] t h = let e = (==_iff sep sep).1 refl in rw e
split_once-append sep (c ∷ s) t h = rw (h.0, split_once-append sep s t h.1)

pub after_open-literal : (c : ℕ) (t : Text) → (c == b'$') ≡ false → after_open (c ∷ t) ≡ none
unfolding after_open
after_open-literal c [] h = refl
after_open-literal c (d ∷ t) h = rw h

after_placeholder : (key t : Text) → after_open (placeholder key ++ t) ≡ some (key ++ (b'}' ∷ t))
unfolding after_open
after_placeholder key t = ap some (append_assoc key _ _)

module _ (subs : Substitutions) where
  apply_fuel-literal :
      (n : ℕ) (c : ℕ) (t : Text)
      → (c == b'$') ≡ false
      → apply_fuel (suc n) subs (c ∷ t) ≡ c ∷ apply_fuel n subs t
  unfolding apply_fuel
  apply_fuel-literal n c t h = rw (apply_fuel, after_open-literal c t h)

  apply_fuel-variable :
      (n : ℕ) (key t : Text)
      → Lacks b'}' key
      → apply_fuel (suc n) subs (placeholder key ++ t) ≡ fill_in subs key ++ apply_fuel n subs t
  unfolding apply_fuel
  apply_fuel-variable n key t h =
      rw (apply_fuel, after_placeholder key t, split_once-append b'}' key t h)

  unresolved_fuel-literal :
      (n : ℕ) (c : ℕ) (t : Text)
      → (c == b'$') ≡ false
      → unresolved_fuel (suc n) subs (c ∷ t) ≡ unresolved_fuel n subs t
  unfolding unresolved_fuel
  unresolved_fuel-literal n c t h = rw (unresolved_fuel, after_open-literal c t h)

  unresolved_fuel-variable :
      (n : ℕ) (key t : Text)
      → Lacks b'}' key
      → unresolved_fuel (suc n) subs (placeholder key ++ t)
        ≡ (let rest = unresolved_fuel n subs t in if defines subs key then rest else key ∷ rest)
  unfolding unresolved_fuel
  unresolved_fuel-variable n key t h =
      rw (unresolved_fuel, after_placeholder key t, split_once-append b'}' key t h)

length-placeholder :
    (key t : Text) → length (placeholder key ++ t) ≡ suc (suc (suc (length key + length t)))
length-placeholder key t =
    omega (arith, length-append (key ++ (b'}' ∷ [])) t, length-append key (b'}' ∷ []))

module _ (subs : Substitutions) where
  apply_fuel-nil : (n : ℕ) → apply_fuel n subs [] ≡ []
  unfolding apply_fuel
  apply_fuel-nil zero = refl
  apply_fuel-nil (suc n) = refl

  unresolved_fuel-nil : (n : ℕ) → unresolved_fuel n subs [] ≡ []
  unfolding unresolved_fuel
  unresolved_fuel-nil zero = refl
  unresolved_fuel-nil (suc n) = refl

  -- Both loops read a literal to its end.
  apply_fuel-literals :
      (n : ℕ) (s t u : Text)
      → Lacks b'$' s
      → length (s ++ t) ≤ n
      → ((m : ℕ) → length t ≤ m → apply_fuel m subs t ≡ u)
      → apply_fuel n subs (s ++ t) ≡ s ++ u
  unfolding Lacks
  apply_fuel-literals n [] t u h k e = e n k
  apply_fuel-literals zero (c ∷ s) t u h k e = absurd (omega arith)
  apply_fuel-literals (suc n) (c ∷ s) t u h k e =
      apply_fuel-literal subs n c (s ++ t) h.0
      ∙ ap (λ z. c ∷ z) (apply_fuel-literals n s t u h.1 (omega arith) e)

  unresolved_fuel-literals :
      (n : ℕ) (s t : Text) (keys : List Text)
      → Lacks b'$' s
      → length (s ++ t) ≤ n
      → ((m : ℕ) → length t ≤ m → unresolved_fuel m subs t ≡ keys)
      → unresolved_fuel n subs (s ++ t) ≡ keys
  unfolding Lacks
  unresolved_fuel-literals n [] t keys h k e = e n k
  unresolved_fuel-literals zero (c ∷ s) t keys h k e = absurd (omega arith)
  unresolved_fuel-literals (suc n) (c ∷ s) t keys h k e =
      unresolved_fuel-literal subs n c (s ++ t) h.0
      ∙ unresolved_fuel-literals n s t keys h.1 (omega arith) e

  apply_fuel-write :
      (n : ℕ) (ps : List Piece)
      → All Plain ps
      → length (write ps) ≤ n
      → apply_fuel n subs (write ps) ≡ expand subs ps
  unfolding write expand Plain
  apply_fuel-write zero [] h k = apply_fuel-nil _
  apply_fuel-write (suc n) [] h k = apply_fuel-nil _
  apply_fuel-write n (literal s ∷ ps) h k =
      apply_fuel-literals n s (write ps) (expand subs ps) h.0 k (λ m l. apply_fuel-write m ps h.1 l)
  apply_fuel-write zero (variable key ∷ ps) h k = absurd (omega arith)
  apply_fuel-write (suc n) (variable key ∷ ps) h k =
      let l = length-placeholder key (write ps) in
      apply_fuel-variable subs n key (write ps) h.0
      ∙ ap (λ z. fill_in subs key ++ z) (apply_fuel-write n ps h.1 (omega (arith, k, l)))

  unresolved_fuel-write :
      (n : ℕ) (ps : List Piece)
      → All Plain ps
      → length (write ps) ≤ n
      → unresolved_fuel n subs (write ps) ≡ missing subs ps
  unfolding write missing Plain
  unresolved_fuel-write zero [] h k = unresolved_fuel-nil _
  unresolved_fuel-write (suc n) [] h k = unresolved_fuel-nil _
  unresolved_fuel-write n (literal s ∷ ps) h k =
      unresolved_fuel-literals n s (write ps) (missing subs ps) h.0 k
        (λ m l. unresolved_fuel-write m ps h.1 l)
  unresolved_fuel-write zero (variable key ∷ ps) h k = absurd (omega arith)
  unresolved_fuel-write (suc n) (variable key ∷ ps) h k =
      let l = length-placeholder key (write ps) in
      unresolved_fuel-variable subs n key (write ps) h.0
      ∙ ap (λ z. if defines subs key then z else key ∷ z)
          (unresolved_fuel-write n ps h.1 (omega (arith, k, l)))

-- A template of pieces, whose literals have no dollar sign and whose keys no closing brace, is
-- expanded to its pieces with every variable that the table defines replaced by its value, and its
-- unresolved placeholders are the variables that the table does not define, in order.
pub apply-write :
    (subs : Substitutions) (ps : List Piece)
    → All Plain ps
    → (apply subs (write ps) ≡ expand subs ps) × (unresolved subs (write ps) ≡ missing subs ps)
unfolding apply unresolved
apply-write subs ps h = (
  apply_fuel-write subs (length (write ps)) ps h (omega arith),
  unresolved_fuel-write subs (length (write ps)) ps h (omega arith),
)
