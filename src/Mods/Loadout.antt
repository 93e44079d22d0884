-- ===== src/Mods/Loadout.antt =====
-- A loadout without issues: mods/conflict.rs as a whole.
use rc_launcher.Base.{
  All, ℕ, ◌+◌, ◌≤◌, ◌≡◌, refl, ap, ◌∙◌, ◌↔◌, inl, inr, false, Option, List, [], ◌∷◌, ◌++◌, ltb,
  if◌then◌else◌, Bool-cases, arith,
}
use rc_launcher.Base.Text.{Text, text_eq, text_eq_comm, text_eq_refl, contains}
use rc_launcher.Mods.Constraint.{Semver}
use rc_launcher.Mods.Conflict.{
  ModView, Index, present, index_mods, enabled_same_id, duplicates, mod_issues, all_mod_issues,
  resolve_issues,
}
use rc_launcher.Mods.Present.{versions_of, present-index_mods, present-nil}
use rc_launcher.Mods.Sound.{Sound}
use rc_launcher.Mods.Checks.{
  both_empty, minecraft_issues-iff-Fits, dependency_issues-iff-Met, conflict_issues-iff-Clear,
}

unfoldable pub enabled_ids : {Req : Type 0} → List (ModView Req) → List Text
enabled_ids [] = []
enabled_ids (m ∷ ms) =
    let rest = enabled_ids ms in if m.is_enabled then m.meta.modid ∷ rest else rest

-- No text occurs twice.
unfoldable pub Unique : List Text → Type 0
Unique [] = Unit
Unique (x ∷ xs) = (contains x xs ≡ false) × Unique xs

unfoldable count : Text → List Text → ℕ
count id [] = 0
count id (x ∷ xs) = (if text_eq x id then 1 else 0) + count id xs

count_none : (id : Text) (xs : List Text) → count id xs ≤ 0 → contains id xs ≡ false
unfolding count contains
count_none id [] h = refl
count_none id (x ∷ xs) h =
    let c = text_eq_comm x id in
    elim (Bool-cases (text_eq id x)) [
      | inl e ↦ absurd (let e' = c ∙ e in ground (arith, e', h))
      | inr e ↦ let e' = c ∙ e in rw (e) (count_none id xs (ground (arith, e', h)))
    ]

count_absent : (id : Text) (xs : List Text) → contains id xs ≡ false → count id xs ≡ 0
unfolding count contains
count_absent id [] h = refl
count_absent id (x ∷ xs) h =
    let c = text_eq_comm x id in
    elim (Bool-cases (text_eq id x)) [
      | inl e ↦ absurd (cc (rw (e) at h))
      | inr e ↦ let later = count_absent id xs (rw (e) at h) in rw (c ∙ e) (omega (arith, later))
    ]

-- Counted once at most.
abbrev Once : List Text → Text → Type 0
Once xs x = count x xs ≤ 1

Once-tail : (x : Text) (xs ys : List Text) → All (Once (x ∷ xs)) ys → All (Once xs) ys
unfolding count
Once-tail x xs [] h = tt
Once-tail x xs (y ∷ ys) h = (let here = h.0 in ground (arith, here), Once-tail x xs ys h.1)

Once-cons :
    (x : Text) (xs ys : List Text)
    → contains x ys ≡ false
    → All (Once xs) ys
    → All (Once (x ∷ xs)) ys
unfolding count contains
Once-cons x xs [] h k = tt
Once-cons x xs (y ∷ ys) h k = elim (Bool-cases (text_eq x y)) [
  | inl e ↦ absurd (cc (rw (e) at h))
  | inr e ↦
      let here : Once (x ∷ xs) y = rw (count, e) (let low = k.0 in omega (arith, low)) in
      (here, Once-cons x xs ys (rw (e) at h) k.1)
]

Unique-iff-Once : (xs : List Text) → All (Once xs) xs ↔ Unique xs
unfolding Unique count
Unique-iff-Once [] = (λ h. tt, λ h. tt)
Unique-iff-Once (x ∷ xs) =
    let e = text_eq_refl x in
    let rest = Unique-iff-Once xs in
    (
      λ h.
          let low : count x xs ≤ 0 = (let here = h.0 in ground (arith, here, e)) in
          (count_none x xs low, rest.0 (Once-tail x xs xs h.1)),
      λ u.
          let none_there = count_absent x xs u.0 in
          (ground (arith, e, none_there), Once-cons x xs xs u.0 (rest.1 u.1)),
    )

module _ {Req : Type 0} where
  enabled_same_id-count :
      (id : Text) (ms : List (ModView Req)) → enabled_same_id id ms ≡ count id (enabled_ids ms)
  unfolding enabled_same_id count enabled_ids
  enabled_same_id-count id [] = refl
  enabled_same_id-count id (m ∷ ms) = elim (Bool-cases m.is_enabled) [
    | inl e ↦
        rw (e)
          (ap (λ n. (if text_eq m.meta.modid id then 1 else 0) + n) (enabled_same_id-count id ms))
    | inr e ↦ let rest = enabled_same_id-count id ms in rw (e) (omega (arith, rest))
  ]

  duplicates-iff-Once :
      (mods ms : List (ModView Req))
      → (duplicates mods ms ≡ []) ↔ All (Once (enabled_ids mods)) (enabled_ids ms)
  unfolding duplicates enabled_ids
  duplicates-iff-Once mods [] = (λ h. tt, λ h. refl)
  duplicates-iff-Once mods (m ∷ ms) =
      let rest = duplicates-iff-Once mods ms in
      let same = enabled_same_id-count m.meta.modid mods in
      elim (Bool-cases m.is_enabled) [
        | inr e ↦ rw (e) rest
        | inl e ↦ elim (Bool-cases (ltb 1 (enabled_same_id m.meta.modid mods))) [
          | inl many ↦
              rw (e, many)
                (λ h. absurd (cc), λ h. absurd (let o = h.0 in ground (arith, o, many, same)))
          | inr few ↦ rw (e, few) (λ h. (ground (arith, few, same), rest.0 h), λ h. rest.1 h.1)
        ]
      ]

module _ {Req : Type 0} (sem : Semver Req) where
  mod_issues-iff-Sound :
      (ix : Index) (mods : List (ModView Req)) (gv : Option Text)
      → ((id : Text) → present id ix ≡ versions_of id mods)
      → (m : ModView Req)
      → ((if m.is_enabled then mod_issues sem ix gv m.meta else []) ≡ []) ↔ Sound sem mods gv m
  unfolding mod_issues
  mod_issues-iff-Sound ix mods gv known m =
      let meta = m.meta in
      let parts = both_empty (minecraft_issues-iff-Fits sem gv meta) (
        both_empty (dependency_issues-iff-Met sem ix mods known meta.modid meta.dependencies)
          (conflict_issues-iff-Clear sem ix mods known gv meta.modid meta.conflicts)) in
      elim (Bool-cases m.is_enabled) [
        | inl e ↦ rw (e) (
          λ h _. let (fit, (met, clear)) = parts.0 h in (fit, met, clear),
          λ s. let (fit, met, clear) = s refl in parts.1 (fit, (met, clear)),
        )
        | inr e ↦ rw (e) (λ h off. absurd (cc), λ s. refl)
      ]

  all_mod_issues-iff-Sound :
      (ix : Index) (mods : List (ModView Req)) (gv : Option Text)
      → ((id : Text) → present id ix ≡ versions_of id mods)
      → (ms : List (ModView Req)) → (all_mod_issues sem ix gv ms ≡ []) ↔ All (Sound sem mods gv) ms
  unfolding all_mod_issues
  all_mod_issues-iff-Sound ix mods gv known [] = (λ h. tt, λ h. refl)
  all_mod_issues-iff-Sound ix mods gv known (m ∷ ms) =
      both_empty (mod_issues-iff-Sound ix mods gv known m)
        (all_mod_issues-iff-Sound ix mods gv known ms)

  -- No issue is reported exactly if the enabled mods have distinct ids and each of them fits the
  -- Minecraft version, finds its hard dependencies among the enabled mods, and conflicts with none
  -- of them.
  pub resolve_issues-iff-Sound :
      (mods : List (ModView Req)) (game_version : Option Text)
      → (resolve_issues sem mods game_version ≡ [])
        ↔ (All (Sound sem mods game_version) mods × Unique (enabled_ids mods))
  unfolding resolve_issues
  resolve_issues-iff-Sound mods gv =
      let known = λ (id : Text).
        present-index_mods id mods [] ∙ ap (λ vs. vs ++ versions_of id mods) (present-nil id) in
      let once = Unique-iff-Once (enabled_ids mods) in
      let twice = duplicates-iff-Once mods mods in
      both_empty (all_mod_issues-iff-Sound (index_mods [] mods) mods gv known mods)
        (λ h. once.0 (twice.0 h), λ u. twice.1 (once.1 u))
