-- ===== src/Mods/Sound.antt =====
-- What it means that mods/conflict.rs finds no issue in a loadout.
use rc_launcher.Base.{
  All, ◌≡◌, refl, sym, ◌∙◌, ◌≢◌, ◌↔◌, ◌⊎◌, inl, inr, Bool, true, false, ◌&&◌, ◌||◌, Option, some,
  List, [], ◌∷◌, if◌then◌else◌, arith,
}
use rc_launcher.Base.Text.{Text, codes, text_eq, text_eq_iff}
use rc_launcher.Mods.Constraint.{Semver, VersionConstraint, constraint_matches}
use rc_launcher.Mods.Conflict.{ModView, ModMetadata, ModDependency, admits, any_admitted}
use rc_launcher.Mods.Present.{versions_of}

-- Some mod of the list is enabled, has that id, and a version in that range.
unfoldable pub Provided :
    {Req : Type 0}
    → Semver Req
    → Text
    → Option (VersionConstraint Req)
    → List (ModView Req)
    → Type 0
Provided sem id range [] = ⊥
Provided sem id range (m ∷ ms) =
    ((m.is_enabled ≡ true) × (m.meta.modid ≡ id) × (admits sem range m.meta.version ≡ true))
    ⊎ Provided sem id range ms

module _ {Req : Type 0} (sem : Semver Req) where
  any_admitted-cons :
      (id : Text) (range : Option (VersionConstraint Req)) (m : ModView Req)
      (ms : List (ModView Req))
      → any_admitted sem range (versions_of id (m ∷ ms)) ≡ (
          (m.is_enabled && (text_eq m.meta.modid id && admits sem range m.meta.version))
          || any_admitted sem range (versions_of id ms))
  unfolding any_admitted versions_of
  any_admitted-cons id range m ms =
      chosen m.is_enabled (text_eq m.meta.modid id) m.meta.version (versions_of id ms)
    where
      chosen :
          (e q : Bool) (v : Option Text) (vs : List (Option Text))
          → any_admitted sem range (if e && q then v ∷ vs else vs)
            ≡ ((e && (q && admits sem range v)) || any_admitted sem range vs)
      chosen true true v vs = refl
      chosen true false v vs = refl
      chosen false q v vs = refl

  pub any_admitted-iff-Provided :
      (id : Text) (range : Option (VersionConstraint Req)) (ms : List (ModView Req))
      → (any_admitted sem range (versions_of id ms) ≡ true) ↔ Provided sem id range ms
  unfolding any_admitted versions_of Provided
  any_admitted-iff-Provided id range [] = (λ h. absurd (cc), λ p. absurd p)
  any_admitted-iff-Provided id range (m ∷ ms) =
      let here = any_admitted-cons id range m ms in
      let later = any_admitted-iff-Provided id range ms in
      let same = text_eq_iff m.meta.modid id in
      let (to, from) =
        split m.is_enabled (text_eq m.meta.modid id) (admits sem range m.meta.version)
          (any_admitted sem range (versions_of id ms)) in
      (
        λ h. elim (to (sym here ∙ h)) [
          | inl (e, q, a) ↦ inl (e, same.0 q, a)
          | inr r ↦ inr (later.0 r)
        ],
        λ p.
            here ∙ from (elim p [ inl (e, q, a) ↦ inl (e, same.1 q, a) | inr r ↦ inr (later.1 r) ]),
      )
    where
      split :
          (e q a r : Bool)
          → (((e && (q && a)) || r) ≡ true) ↔ (((e ≡ true) × (q ≡ true) × (a ≡ true)) ⊎ (r ≡ true))
      split true true true r = (λ h. inl (refl, refl, refl), λ h. refl)
      split e q a r = ground arith

  -- The mod runs on the Minecraft version.
  abbrev pub Fits : Option Text → ModMetadata Req → Type 0
  Fits gv meta =
      (c : VersionConstraint Req) (v : Text)
      → meta.minecraft ≡ some c
      → gv ≡ some v
      → constraint_matches sem c v ≡ true

  -- A dependency, if it is a hard one and not Minecraft itself, is provided.
  abbrev pub Met : List (ModView Req) → ModDependency Req → Type 0
  Met mods dep =
      dep.modid ≢ codes "minecraft" → dep.required ≡ true → Provided sem dep.modid dep.range mods

  -- What a mod conflicts with is not there: not the running Minecraft, and no enabled mod.
  abbrev pub Clear : List (ModView Req) → Option Text → ModDependency Req → Type 0
  Clear mods gv cf =
      (cf.modid ≡ codes "minecraft"
        → (v : Text) → gv ≡ some v
        → admits sem cf.range (some v) ≡ false)
      × (cf.modid ≢ codes "minecraft" → ¬ Provided sem cf.modid cf.range mods)

  abbrev pub Sound : List (ModView Req) → Option Text → ModView Req → Type 0
  Sound mods gv m =
      m.is_enabled ≡ true
      → Fits gv m.meta × All (Met mods) m.meta.dependencies × All (Clear mods gv) m.meta.conflicts
