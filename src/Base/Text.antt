-- ===== src/Base/Text.antt =====
-- Texts as the lists of the codes of their characters, with the operations on strings that the
-- source uses, and association lists keyed by texts.
use Prim.Native.Nat.{ℕ}
use Prim.Native.Char.{code}
use Prim.Native.String.{String}
use mathlib.Core.Path.{◌≡◌, refl}
use mathlib.Core.Logic.{◌↔◌}
use mathlib.Core.Bool.{Bool, true, false, ◌&&◌, ◌||◌}
use mathlib.Core.List.{List, [], ◌∷◌, ◌++◌}
use mathlib.Core.Option.{Option, none, some}
use native.Mathlib.Omega.{arith}
use rc_launcher.Base.Tests.{◌==◌, ==_iff, if◌then◌else◌}

abbrev pub Text : Type 0
Text = List ℕ

-- The text of a string literal.
abbrev pub codes : String → Text
codes String.[] = []
codes (String.◌∷◌ c s) = code c ∷ codes s

unfoldable pub text_eq : Text → Text → Bool
text_eq [] [] = true
text_eq [] (y ∷ ys) = false
text_eq (x ∷ xs) [] = false
text_eq (x ∷ xs) (y ∷ ys) = x == y && text_eq xs ys

pub text_eq_iff : (s t : Text) → (text_eq s t ≡ true) ↔ (s ≡ t)
unfolding text_eq
text_eq_iff [] [] = (λ h. refl, λ h. refl)
text_eq_iff [] (y ∷ ys) = (λ h. absurd (cc), λ h. absurd (cc))
text_eq_iff (x ∷ xs) [] = (λ h. absurd (cc), λ h. absurd (cc))
text_eq_iff (x ∷ xs) (y ∷ ys) =
    let e = ==_iff x y in
    let t = text_eq_iff xs ys in (λ h. ground (arith, e, t), λ h. ground (arith, e, t))

pub text_eq_refl : (s : Text) → text_eq s s ≡ true
text_eq_refl s = (text_eq_iff s s).1 refl

pub text_eq_comm : (s t : Text) → text_eq s t ≡ text_eq t s
unfolding text_eq
text_eq_comm [] [] = refl
text_eq_comm [] (y ∷ ys) = refl
text_eq_comm (x ∷ xs) [] = refl
text_eq_comm (x ∷ xs) (y ∷ ys) = let e = text_eq_comm xs ys in ground (arith, e)

-- `contains` of a set or a vector
unfoldable pub contains : Text → List Text → Bool
contains t [] = false
contains t (u ∷ us) = let later = contains t us in text_eq t u || later

-- `str::starts_with`, of a prefix
unfoldable pub starts_with : Text → Text → Bool
starts_with [] t = true
starts_with (x ∷ xs) [] = false
starts_with (x ∷ xs) (y ∷ ys) = x == y && starts_with xs ys

abbrev pub on_head : ℕ → List Text → List Text
on_head c [] = []
on_head c (t ∷ ts) = (c ∷ t) ∷ ts

-- `str::split` at a character: one piece more than there are separators
unfoldable pub split_on : ℕ → Text → List Text
split_on sep [] = [] ∷ []
split_on sep (c ∷ t) = let rest = split_on sep t in if c == sep then [] ∷ rest else on_head c rest

-- `str::rsplit_once`: at the last separator
unfoldable pub rsplit_once : ℕ → Text → Option (Text × Text)
rsplit_once sep [] = none
rsplit_once sep (c ∷ t) = elim (rsplit_once sep t) [
  | some (head, tail) ↦ some (c ∷ head, tail)
  | none ↦ if c == sep then some ([], t) else none
]

-- `str::replace` of one character by another
unfoldable pub replace_char : ℕ → ℕ → Text → Text
replace_char a b [] = []
replace_char a b (c ∷ t) = (if c == a then b else c) ∷ replace_char a b t

-- `str::trim_end_matches` of a character
unfoldable pub trim_end : ℕ → Text → Text
trim_end a [] = []
trim_end a (c ∷ t) = elim (trim_end a t) [ [] ↦ if c == a then [] else c ∷ [] | d ∷ u ↦ c ∷ d ∷ u ]

-- `str::trim_start_matches` of a character
unfoldable pub trim_start : ℕ → Text → Text
trim_start a [] = []
trim_start a (c ∷ t) = let rest = trim_start a t in if c == a then rest else c ∷ t

-- `HashMap::get` on the list of the map's entries
unfoldable pub lookup {ℓ} : {A : Type ℓ} → Text → List (Text × A) → Option A
lookup key [] = none
lookup key ((k, a) ∷ rest) = let later = lookup key rest in if text_eq k key then some a else later

-- No character of the text is `c`.
unfoldable pub Lacks : ℕ → Text → Type 0
Lacks c [] = Unit {0}
Lacks c (x ∷ t) = ((x == c) ≡ false) × Lacks c t

pub split_on_lacking : (sep : ℕ) (t : Text) → Lacks sep t → split_on sep t ≡ t ∷ []
unfolding split_on Lacks
split_on_lacking sep [] h = refl
split_on_lacking sep (c ∷ t) h = rw (h.0, split_on_lacking sep t h.1)

pub split_on-append :
    (sep : ℕ) (t u : Text) → Lacks sep t → split_on sep (t ++ (sep ∷ u)) ≡ t ∷ split_on sep u
unfolding split_on Lacks
split_on-append sep [] u h = let e = (==_iff sep sep).1 refl in rw e
split_on-append sep (c ∷ t) u h = rw (h.0, split_on-append sep t u h.1)

pub rsplit_once_lacking : (sep : ℕ) (t : Text) → Lacks sep t → rsplit_once sep t ≡ none
unfolding rsplit_once Lacks
rsplit_once_lacking sep [] h = refl
rsplit_once_lacking sep (c ∷ t) h = rw (rsplit_once_lacking sep t h.1, h.0)

pub rsplit_once-append :
    (sep : ℕ) (t u : Text) → Lacks sep u → rsplit_once sep (t ++ (sep ∷ u)) ≡ some (t, u)
unfolding rsplit_once
rsplit_once-append sep [] u h =
    let e = (==_iff sep sep).1 refl in rw (rsplit_once_lacking sep u h, e)
rsplit_once-append sep (c ∷ t) u h = rw (rsplit_once-append sep t u h)

pub Lacks-append : (c : ℕ) (t u : Text) → Lacks c t → Lacks c u → Lacks c (t ++ u)
unfolding Lacks
Lacks-append c [] u h k = k
Lacks-append c (x ∷ t) u h k = (h.0, Lacks-append c t u h.1 k)
