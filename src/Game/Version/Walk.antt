-- ===== src/Game/Version/Walk.antt =====
-- The walk along `inheritsFrom` against the line of a version's parents.
use rc_launcher.Base.{
  ℕ, zero, suc, ◌<◌, ◌≡◌, refl, sym, ap, ◌∙◌, ◌⊎◌, inl, inr, true, Option, none, some, List, [],
  ◌∷◌, length, Bool-cases, Option-cases, Result-cases, some-injective, ok-injective, arith, ok,
}
use rc_launcher.Base.Text.{Text, text_eq, text_eq_iff, contains}
use rc_launcher.Error.{RcResult}
use rc_launcher.Game.Version.{VersionJson, ResolvedVersion, merge_chain, walk, reverse_onto}

module _ {V : Type 0} (fetch : Text → RcResult (VersionJson V)) where
  -- A version with its parents, from itself to the one that inherits from nothing.
  pub data Line : Text → List (VersionJson V) → Type 0 where
    root :
        {id : Text} {v : VersionJson V}
        → fetch id ≡ ok v
        → v.inherits_from ≡ none
        → Line id (v ∷ [])
    child :
        {id parent : Text} {v : VersionJson V} {vs : List (VersionJson V)}
        → fetch id ≡ ok v
        → v.inherits_from ≡ some parent
        → Line parent vs
        → Line id (v ∷ vs)

  same_version : {id : Text} {v w : VersionJson V} → fetch id ≡ ok v → fetch id ≡ ok w → v ≡ w
  same_version f g = ok-injective (sym f ∙ g)

  no_parent :
      {v w : VersionJson V} {p : Text}
      → v ≡ w
      → v.inherits_from ≡ none
      → ¬ (w.inherits_from ≡ some p)
  no_parent e n m = absurd (cc (sym n ∙ (ap (λ v. v.inherits_from) e ∙ m)))

  Line-unique : (id : Text) (vs ws : List (VersionJson V)) → Line id vs → Line id ws → vs ≡ ws
  Line-unique id _ _ (root f n) (root g m) = ap (λ v. v ∷ []) (same_version f g)
  Line-unique id _ _ (root f n) (child g m d) = absurd (no_parent (same_version f g) n m)
  Line-unique id _ _ (child f n c) (root g m) = absurd (no_parent (same_version g f) m n)
  Line-unique id _ _ (child {parent = p} {v = v} {vs = vs} f n c)
        (child {parent = q} {vs = ws} g m d) =
      let e = same_version f g in
      let parents : p ≡ q = some-injective (sym n ∙ (ap (λ v. v.inherits_from) e ∙ m)) in
      let d' : Line p ws = rw (parents) d in let rest = Line-unique p vs ws c d' in cc (e, rest)

  -- A chain that is found belongs to the line of the version.
  pub walk_sound :
      (n : ℕ) (current : Text) (visited : List Text) (chain : List (VersionJson V))
      (r : ResolvedVersion V)
      → walk fetch n current visited chain ≡ some (ok r)
      → (vs : List (VersionJson V)) × Line current vs × (r ≡ merge_chain (reverse_onto vs chain))
  unfolding walk reverse_onto
  walk_sound zero current visited chain r h = absurd (cc)
  walk_sound (suc n) current visited chain r h = elim (Bool-cases (contains current visited)) [
    | inl e ↦ absurd (cc (rw (e) at h))
    | inr e ↦ elim (Result-cases (fetch current)) [
      | inr (x, f) ↦ absurd (cc (rw (e, f) at h))
      | inl (v, f) ↦ elim (Option-cases v.inherits_from) [
        | inl none_left ↦
            let same : merge_chain (v ∷ chain) ≡ r =
              ok-injective (some-injective (rw (e, f, none_left) at h)) in
            (v ∷ [], root f none_left, sym same)
        | inr (p, up) ↦
            let (vs, line, same) =
              walk_sound n p (current ∷ visited) (v ∷ chain) r (rw (e, f, up) at h) in
            (v ∷ vs, child f up line, same)
      ]
    ]
  ]

  -- No version that was visited has a line as short as that.
  abbrev pub AllLonger : ℕ → List Text → Type 0
  AllLonger n visited =
      (w : Text)
      → contains w visited ≡ true
      → (ws : List (VersionJson V)) → Line w ws
      → n < length ws

  AllLonger-cons :
      (current : Text) (v : VersionJson V) (vs : List (VersionJson V)) (visited : List Text)
      → Line current (v ∷ vs)
      → AllLonger (suc (length vs)) visited
      → AllLonger (length vs) (current ∷ visited)
  unfolding contains
  AllLonger-cons current v vs visited line h w c ws lw = elim (Bool-cases (text_eq w current)) [
    | inl e ↦
        let line' : Line w (v ∷ vs) = rw ((text_eq_iff w current).0 e) line in
        let same = Line-unique w (v ∷ vs) ws line' lw in omega (arith, ap length same)
    | inr e ↦ let longer = h w (rw (e) at c) ws lw in omega (arith, longer)
  ]

  -- A line is a version with no parent, or one with the line of its parent.
  Line-cases :
      (id : Text) (vs : List (VersionJson V))
      → Line id vs
      → (v : VersionJson V) × (fetch id ≡ ok v)
        × (((v.inherits_from ≡ none) × (vs ≡ v ∷ []))
            ⊎ ((p : Text) × (v.inherits_from ≡ some p)
                × ((ws : List (VersionJson V)) × Line p ws × (vs ≡ v ∷ ws))))
  Line-cases id _ (root {v = v} f n) = (v, f, inl (n, refl))
  Line-cases id _ (child {parent = p} {v = v} {vs = ws} f n line) =
      (v, f, inr (p, n, (ws, line, refl)))

  unfoldable pub Found : Option (RcResult (ResolvedVersion V)) → List (VersionJson V) → Type 0
  Found o chain = (o ≡ none) ⊎ (o ≡ some (ok (merge_chain chain)))

  -- The line of a version is found, unless the fuel is spent before.
  pub walk_complete :
      (n : ℕ) (current : Text) (visited : List Text) (chain vs : List (VersionJson V))
      → Line current vs
      → AllLonger (length vs) visited
      → Found (walk fetch n current visited chain) (reverse_onto vs chain)
  unfolding walk reverse_onto Found
  walk_complete zero current visited chain vs line h = inl refl
  walk_complete (suc n) current visited chain vs line h =
      elim (Bool-cases (contains current visited)) [
        | inl e ↦ absurd (let lt = h current e vs line in omega (arith, lt))
        | inr e ↦
            let (v, f, next) = Line-cases current vs line in
            elim next [
              | inl (top, only) ↦ rw (e, f, top, only) (inr refl)
              | inr (p, up, (ws, above, split)) ↦
                  let line' : Line current (v ∷ ws) = rw (sym split) line in
                  let h' : AllLonger (suc (length ws)) visited = rw (sym (ap length split)) h in
                  rw (e, f, up, split)
                    (walk_complete n p (current ∷ visited) (v ∷ chain) ws above
                      (AllLonger-cons current v ws visited line' h'))
            ]
      ]
