-- ===== src/Mods/Present.antt =====
-- The index of mods/conflict.rs holds the versions of the enabled mods of each id.
use mathlib.Core.List.{append-nil, append_assoc}
use rc_launcher.Base.{
  ◌≡◌, refl, sym, ap, ◌∙◌, inl, inr, Bool, true, false, ◌&&◌, Option, List, [], ◌∷◌, ◌++◌,
  if◌then◌else◌, Bool-cases,
}
use rc_launcher.Base.Text.{Text, text_eq, text_eq_iff, text_eq_comm, lookup}
use rc_launcher.Mods.Conflict.{ModView, Index, push_version, present, index_mods}

-- The versions of the enabled mods of an id.
unfoldable pub versions_of : {Req : Type 0} → Text → List (ModView Req) → List (Option Text)
versions_of id [] = []
versions_of id (m ∷ ms) =
    let rest = versions_of id ms in
    if m.is_enabled && text_eq m.meta.modid id then m.meta.version ∷ rest else rest

present-cons :
    (id k : Text) (vs : List (Option Text)) (rest : Index)
    → present id ((k, vs) ∷ rest) ≡ (if text_eq k id then vs else present id rest)
unfolding present lookup
present-cons id k vs rest = elim (Bool-cases (text_eq k id)) [
  | inl e ↦ rw (present, lookup, e) refl
  | inr e ↦ rw (present, lookup, e) refl
]

pub present-nil : (id : Text) → present id [] ≡ []
unfolding present lookup
present-nil id = refl

present-push_version :
    (id k : Text) (v : Option Text) (ix : Index)
    → present id (push_version k v ix)
      ≡ (if text_eq k id then present id ix ++ (v ∷ []) else present id ix)
unfolding push_version
present-push_version id k v [] = rw (present-cons id k (v ∷ []) [], present-nil id) refl
present-push_version id k v ((j, vs) ∷ rest) = elim (Bool-cases (text_eq j k)) [
  | inl e ↦
      let same : k ≡ j = sym ((text_eq_iff j k).0 e) in
      rw (push_version, e, present-cons id j (vs ++ (v ∷ [])) rest, present-cons id j vs rest, same)
        (elim (Bool-cases (text_eq j id)) [ inl q ↦ rw (q) refl | inr q ↦ rw (q) refl ])
  | inr e ↦
      rw (push_version, e, present-cons id j vs (push_version k v rest), present-cons id j vs rest)
        (elim (Bool-cases (text_eq j id)) [
          | inl q ↦
              let other : text_eq k id ≡ false =
                rw (sym ((text_eq_iff j id).0 q)) (text_eq_comm k j ∙ e) in
              rw (q, other) refl
          | inr q ↦ rw (q) (present-push_version id k v rest)
        ])
]

module _ {Req : Type 0} where
  pub present-index_mods :
      (id : Text) (ms : List (ModView Req)) (ix : Index)
      → present id (index_mods ix ms) ≡ present id ix ++ versions_of id ms
  unfolding index_mods versions_of
  present-index_mods id [] ix = sym (append-nil (present id ix))
  present-index_mods id (m ∷ ms) ix = elim (Bool-cases m.is_enabled) [
    | inr e ↦ rw (index_mods, versions_of, e) (present-index_mods id ms ix)
    | inl e ↦
        let v = m.meta.version in
        rw (index_mods, versions_of, e)
          (present-index_mods id ms (push_version m.meta.modid v ix)
            ∙ (ap (λ vs. vs ++ versions_of id ms) (present-push_version id m.meta.modid v ix)
                ∙ moved (text_eq m.meta.modid id) v (present id ix) (versions_of id ms)))
  ]
    where
      moved :
          (b : Bool) (v : Option Text) (xs ys : List (Option Text))
          → (if b then xs ++ (v ∷ []) else xs) ++ ys ≡ xs ++ (if b then v ∷ ys else ys)
      moved true v xs ys = append_assoc xs (v ∷ []) ys
      moved false v xs ys = refl
