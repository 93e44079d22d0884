-- ===== src/Launch/Classpath/Contend.antt =====
-- How a jar takes its place among those that the loop of launch/classpath.rs keeps, and what is found
-- there afterwards.
use rc_launcher.Base.{
  ℕ, suc, ◌≡◌, refl, ap, sym, ◌∙◌, Bool, true, false, Option, none, some, List, [], ◌∷◌, ◌++◌, map,
  length, Bool-cases, Option-cases, inl, inr, some-injective, if◌then◌else◌,
}
use rc_launcher.Base.Text.{Text, text_eq, text_eq_iff, lookup}
use rc_launcher.Classpath.{compare_maven_versions}
use rc_launcher.Launch.Classpath.{Jar, Building, is_greater, set_entry}

-- The jar takes the place of one with its group and artifact if its version is greater, or the last place.
unfoldable pub contend : Jar → List Jar → List Jar
contend j [] = j ∷ []
contend j (w ∷ ws) =
    let rest = contend j ws in
    if text_eq w.ga j.ga
    then (if is_greater (compare_maven_versions j.version w.version) then j ∷ ws else w ∷ ws)
    else w ∷ rest

unfoldable pub winners : List Jar → List Jar → List Jar
winners ws [] = ws
winners ws (j ∷ js) = winners (contend j ws) js

abbrev bump : Option (ℕ × Text) → Option (ℕ × Text)
bump none = none
bump (some (i, v)) = some (suc i, v)

-- The place and the version of a group and artifact
unfoldable pub find : Text → List Jar → Option (ℕ × Text)
find ga [] = none
find ga (w ∷ ws) =
    let rest = find ga ws in if text_eq w.ga ga then some (0, w.version) else bump rest

abbrev pub paths : List Jar → List Text
paths ws = map (λ w. w.path) ws

-- The entries are the jars of the list, and `seen` finds each of them.
pub record Tracks (s : Building) (ws : List Jar) : Type 0 where
  pub entries : s.entries ≡ paths ws
  pub known : (ga : Text) → lookup ga s.seen ≡ find ga ws

-- What a jar does to a list in which its group and artifact stands at a place.
pub record Replaced (j : Jar) (ws : List Jar) (at : ℕ × Text) : Type 0 where
  pub entries : paths (contend j ws) ≡ (
      if is_greater (compare_maven_versions j.version at.1)
      then set_entry at.0 j.path (paths ws)
      else paths ws)
  pub known :
      (ga : Text)
      → find ga (contend j ws) ≡ (
          if is_greater (compare_maven_versions j.version at.1)
          then (if text_eq j.ga ga then some (at.0, j.version) else find ga ws)
          else find ga ws)

if_same {ℓ} :
    {A : Type ℓ} (b : Bool) (x y z : A)
    → (if b then x else z) ≡ (if b then x else if b then y else z)
if_same true x y z = refl
if_same false x y z = refl

Replaced-head :
    (j w : Jar) (ws : List Jar) → text_eq w.ga j.ga ≡ true → Replaced j (w ∷ ws) (0, w.version)
unfolding contend set_entry find
Replaced-head j w ws e =
    let q = (text_eq_iff w.ga j.ga).0 e in
    elim (Bool-cases (is_greater (compare_maven_versions j.version w.version))) [
      | inl b ↦ record {
        entries = rw (e, b) refl;
        known = λ ga. rw (e, b) (rw q (if_same (text_eq j.ga ga) _ _ _));
      }
      | inr b ↦ record { entries = rw (e, b) refl; known = λ ga. rw (e, b) refl }
    ]

if_swapped :
    (here there : Bool) (x f : Option (ℕ × Text)) (k : ℕ) (v : Text)
    → (here ≡ true → there ≡ false)
    → (if here then x else bump (if there then some (k, v) else f))
      ≡ (if there then some (suc k, v) else if here then x else bump f)
if_swapped true true x f k v h = absurd (cc (h refl))
if_swapped true false x f k v h = refl
if_swapped false true x f k v h = refl
if_swapped false false x f k v h = refl

other_ga : (s t u : Text) → text_eq s t ≡ false → text_eq s u ≡ true → text_eq t u ≡ false
other_ga s t u h k = elim (Bool-cases (text_eq t u)) [
  | inr b ↦ b
  | inl b ↦
      let e = (text_eq_iff s u).0 k ∙ sym ((text_eq_iff t u).0 b) in
      absurd (cc ((text_eq_iff s t).1 e, h))
]

Replaced-tail :
    (j w : Jar) (ws : List Jar) (k : ℕ) (v : Text)
    → text_eq w.ga j.ga ≡ false
    → Replaced j ws (k, v)
    → Replaced j (w ∷ ws) (suc k, v)
unfolding contend set_entry find
Replaced-tail j w ws k v e r = elim (Bool-cases (is_greater (compare_maven_versions j.version v))) [
  | inl b ↦ record {
    entries = rw (e, r.entries, b) refl;
    known = λ ga.
        let other = other_ga w.ga j.ga ga e in
        rw (e, r.known ga, b)
          (if_swapped (text_eq w.ga ga) (text_eq j.ga ga) _ (find ga ws) k j.version other);
  }
  | inr b ↦ record { entries = rw (e, r.entries, b) refl; known = λ ga. rw (e, r.known ga, b) refl }
]

pub find-Replaced :
    (j : Jar) (ws : List Jar) (at : ℕ × Text) → find j.ga ws ≡ some at → Replaced j ws at
unfolding find
find-Replaced j [] at h = absurd (cc)
find-Replaced j (w ∷ ws) at h = elim (Bool-cases (text_eq w.ga j.ga)) [
  | inl e ↦ rw (sym (some-injective (rw (e) at h))) (Replaced-head j w ws e)
  | inr e ↦ elim (Option-cases (find j.ga ws)) [
    | inl q ↦ absurd (cc (rw (e, q) at h))
    | inr (found, q) ↦
        rw (sym (some-injective (rw (e, q) at h)))
          (Replaced-tail j w ws found.0 found.1 e (find-Replaced j ws found q))
  ]
]

-- A jar whose group and artifact is not in the list comes last.
pub contend-absent : (j : Jar) (ws : List Jar) → find j.ga ws ≡ none → contend j ws ≡ ws ++ (j ∷ [])
unfolding find contend
contend-absent j [] h = refl
contend-absent j (w ∷ ws) h = elim (Bool-cases (text_eq w.ga j.ga)) [
  | inl e ↦ absurd (cc (rw (e) at h))
  | inr e ↦ elim (Option-cases (find j.ga ws)) [
    | inl q ↦ rw (e, contend-absent j ws q) refl
    | inr (found, q) ↦ absurd (cc (rw (e, q) at h))
  ]
]

abbrev or_at : Option (ℕ × Text) → Option (ℕ × Text) → Option (ℕ × Text)
or_at none o = o
or_at (some at) o = some at

bump-or_at :
    (here there : Bool) (x : ℕ × Text) (o : Option (ℕ × Text)) (n : ℕ) (v : Text)
    → (if here then some x else bump (or_at o (if there then some (n, v) else none)))
      ≡ or_at (if here then some x else bump o) (if there then some (suc n, v) else none)
bump-or_at true there x o n v = refl
bump-or_at false there x (some at) n v = refl
bump-or_at false true x none n v = refl
bump-or_at false false x none n v = refl

find-push :
    (ga : Text) (j : Jar) (ws : List Jar)
    → find ga (ws ++ (j ∷ []))
      ≡ or_at (find ga ws) (if text_eq j.ga ga then some (length ws, j.version) else none)
unfolding find
find-push ga j [] = elim (Bool-cases (text_eq j.ga ga)) [
  | inl e ↦ rw (e) refl
  | inr e ↦ rw (e) refl
]
find-push ga j (w ∷ ws) = rw (find-push ga j ws) (
    bump-or_at (text_eq w.ga ga) (text_eq j.ga ga) (0, w.version) (find ga ws) (length ws)
      j.version)

or_at-none : (o : Option (ℕ × Text)) → o ≡ or_at o none
or_at-none none = refl
or_at-none (some at) = refl

-- A new group and artifact is looked for before all others.
pub new_first :
    (ga : Text) (j : Jar) (ws : List Jar) (o : Option (ℕ × Text))
    → find j.ga ws ≡ none
    → o ≡ find ga ws
    → (if text_eq j.ga ga then some (length ws, j.version) else o) ≡ find ga (ws ++ (j ∷ []))
new_first ga j ws o h k = elim (Bool-cases (text_eq j.ga ga)) [
  | inl e ↦
      let same = (text_eq_iff j.ga ga).0 e in
      let found : find ga ws ≡ none = ap (λ t. find t ws) (sym same) ∙ h in
      rw (find-push ga j ws, e, found) refl
  | inr e ↦ rw (find-push ga j ws, e, k) (or_at-none (find ga ws))
]
