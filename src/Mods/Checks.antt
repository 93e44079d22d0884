-- ===== src/Mods/Checks.antt =====
-- The single checks of mods/conflict.rs: each reports nothing exactly if its condition holds.
use rc_launcher.Base.{
  All, ◌≡◌, refl, sym, ◌↔◌, inl, inr, Bool, true, false, not, ◌&&◌, Option, none, some, List, [],
  ◌∷◌, ◌++◌, if◌then◌else◌, Bool-cases, Option-cases, some-injective, arith,
}
use rc_launcher.Base.Text.{Text, codes, text_eq, text_eq_iff}
use rc_launcher.Mods.Constraint.{Semver, constraint_matches}
use rc_launcher.Mods.Conflict.{
  missing_dependency, incompatible_dependency, conflict, incompatible_minecraft, ModView,
  ModMetadata, ModDependency, ModIssue, Index, present, admits, any_admitted, minecraft_issues,
  dependency_issue, dependency_issues, breaks_minecraft, conflict_issue, conflict_issues,
}
use rc_launcher.Mods.Present.{versions_of}
use rc_launcher.Mods.Sound.{any_admitted-iff-Provided, Fits, Met, Clear}

pub append-empty : {A : Type 0} (xs ys : List A) → (xs ++ ys ≡ []) ↔ ((xs ≡ []) × (ys ≡ []))
append-empty [] ys = (λ h. (refl, h), λ h. h.1)
append-empty (x ∷ xs) ys = (λ h. absurd (cc), λ h. absurd (cc (h.0)))

-- A single issue is reported exactly if the test holds.
pub report-empty : {A : Type 0} (b : Bool) (x : A) → ((if b then x ∷ [] else []) ≡ []) ↔ (b ≡ false)
report-empty true x = (λ h. absurd (cc), λ h. absurd (cc))
report-empty false x = (λ h. refl, λ h. refl)

pub both_empty :
    {A P Q : Type 0} {xs ys : List A} → (xs ≡ []) ↔ P → (ys ≡ []) ↔ Q → (xs ++ ys ≡ []) ↔ (P × Q)
both_empty {xs = xs} {ys = ys} p q =
    let both = append-empty xs ys in
    (λ h. let (a, b) = both.0 h in (p.0 a, q.0 b), λ h. both.1 (p.1 h.0, q.1 h.1))

-- An issue is reported exactly if something is required and not there.
unmet :
    (required there : Bool) (x : ModIssue)
    → ((if required && not there then x ∷ [] else []) ≡ []) ↔ (required ≡ true → there ≡ true)
unmet true true x = (λ h k. refl, λ h. refl)
unmet true false x = (λ h. absurd (cc), λ h. absurd (cc (h refl)))
unmet false there x = (λ h k. absurd (cc), λ h. refl)

absent : (b : Bool) → ¬ (b ≡ true) → b ≡ false
absent true h = absurd (h refl)
absent false h = refl

and_true : (b : Bool) → (b && true) ≡ b
and_true b = ground arith

module _ {Req : Type 0} (sem : Semver Req) where
  breaks_minecraft-empty :
      (gv : Option Text) (source : Text) (cf : ModDependency Req)
      → (breaks_minecraft sem gv source cf ≡ [])
        ↔ ((v : Text) → gv ≡ some v → admits sem cf.range (some v) ≡ false)
  unfolding breaks_minecraft
  breaks_minecraft-empty none source cf = (λ h v e. absurd (cc), λ h. refl)
  breaks_minecraft-empty (some gv) source cf =
      let x : ModIssue = record {
        source_modid = source;
        kind = incompatible_minecraft;
        target = some (codes "minecraft");
      } in
      let h = report-empty (admits sem cf.range (some gv)) x in
      (λ e v q. rw (sym (some-injective q)) (h.0 e), λ k. h.1 (k gv refl))

  pub minecraft_issues-iff-Fits :
      (gv : Option Text) (meta : ModMetadata Req)
      → (minecraft_issues sem gv meta ≡ []) ↔ Fits sem gv meta
  unfolding minecraft_issues
  minecraft_issues-iff-Fits none meta = (λ h c v e q. absurd (cc), λ h. refl)
  minecraft_issues-iff-Fits (some gv) meta = elim (Option-cases meta.minecraft) [
    | inl e ↦ rw (minecraft_issues, e) (λ h c v q r. absurd (cc q), λ h. refl)
    | inr (c, e) ↦ elim (Bool-cases (constraint_matches sem c gv)) [
      | inl m ↦
          rw (minecraft_issues, e, m)
            (λ h c' v q r. rw (sym (some-injective q), sym (some-injective r)) m, λ h. refl)
      | inr m ↦
          rw (minecraft_issues, e, m) (λ h. absurd (cc), λ h. absurd (cc (h c gv refl refl, m)))
    ]
  ]

  dependency_issue-empty :
      (source : Text) (dep : ModDependency Req) (vs : List (Option Text))
      → (dependency_issue sem source dep vs ≡ [])
        ↔ (dep.required ≡ true → any_admitted sem dep.range vs ≡ true)
  unfolding dependency_issue any_admitted
  dependency_issue-empty source dep [] =
      let x : ModIssue = record {
        source_modid = source;
        kind = missing_dependency;
        target = some dep.modid;
      } in
      let h = unmet dep.required false x in
      (λ e. h.0 (rw (and_true dep.required) e), λ k. rw (sym (and_true dep.required)) (h.1 k))
  dependency_issue-empty source dep (v ∷ vs) =
      let x : ModIssue = record {
        source_modid = source;
        kind = incompatible_dependency;
        target = some dep.modid;
      } in
      unmet dep.required (any_admitted sem dep.range (v ∷ vs)) x

  -- The check of one dependency.
  dependency_iff-Met :
      (mods : List (ModView Req)) (source : Text) (dep : ModDependency Req)
      → ((if text_eq dep.modid (codes "minecraft")
            then []
            else dependency_issue sem source dep (versions_of dep.modid mods))
          ≡ [])
        ↔ Met sem mods dep
  dependency_iff-Met mods source dep =
      let name = text_eq_iff dep.modid (codes "minecraft") in
      let provided = any_admitted-iff-Provided sem dep.modid dep.range mods in
      let issue = dependency_issue-empty source dep (versions_of dep.modid mods) in
      elim (Bool-cases (text_eq dep.modid (codes "minecraft"))) [
        | inl e ↦ rw (e) (λ h other. absurd (other (name.0 e)), λ h. refl)
        | inr e ↦ rw (e) (
          λ h other needed. provided.0 (issue.0 h needed),
          λ met. issue.1 (λ needed. provided.1 (met (λ q. absurd (cc (name.1 q, e))) needed)),
        )
      ]

  pub dependency_issues-iff-Met :
      (ix : Index) (mods : List (ModView Req))
      → ((id : Text) → present id ix ≡ versions_of id mods)
      → (source : Text) (deps : List (ModDependency Req))
      → (dependency_issues sem ix source deps ≡ []) ↔ All (Met sem mods) deps
  unfolding dependency_issues
  dependency_issues-iff-Met ix mods known source [] = (λ h. tt, λ h. refl)
  dependency_issues-iff-Met ix mods known source (dep ∷ deps) =
      let head = dependency_iff-Met mods source dep in
      let tail = dependency_issues-iff-Met ix mods known source deps in
      rw (dependency_issues, known dep.modid) (both_empty head tail)

  conflict_iff-Clear :
      (mods : List (ModView Req)) (gv : Option Text) (source : Text) (ix : Index)
      (cf : ModDependency Req)
      → ((id : Text) → present id ix ≡ versions_of id mods)
      → ((if text_eq cf.modid (codes "minecraft")
            then breaks_minecraft sem gv source cf
            else conflict_issue sem ix source cf)
          ≡ [])
        ↔ Clear sem mods gv cf
  unfolding conflict_issue
  conflict_iff-Clear mods gv source ix cf known =
      let name = text_eq_iff cf.modid (codes "minecraft") in
      let provided = any_admitted-iff-Provided sem cf.modid cf.range mods in
      elim (Bool-cases (text_eq cf.modid (codes "minecraft"))) [
        | inl e ↦
            let breaks = breaks_minecraft-empty gv source cf in
            rw (e) (
              λ h. (λ _. breaks.0 h, λ other. absurd (other (name.0 e))),
              λ clear. breaks.1 (clear.0 (name.0 e)),
            )
        | inr e ↦
            let x : ModIssue = record {
              source_modid = source;
              kind = conflict;
              target = some cf.modid;
            } in
            let report = report-empty (any_admitted sem cf.range (versions_of cf.modid mods)) x in
            rw (e, conflict_issue, known cf.modid)
              (
                λ h. (
                  λ q. absurd (cc (name.1 q, e)),
                  λ other p. absurd (cc (provided.1 p, report.0 h)),
                ),
                λ clear. report.1 (
                    absent (any_admitted sem cf.range (versions_of cf.modid mods))
                      (λ t. clear.1 (λ q. absurd (cc (name.1 q, e))) (provided.0 t))),
              )
      ]

  pub conflict_issues-iff-Clear :
      (ix : Index) (mods : List (ModView Req))
      → ((id : Text) → present id ix ≡ versions_of id mods)
      → (gv : Option Text) (source : Text) (cfs : List (ModDependency Req))
      → (conflict_issues sem ix gv source cfs ≡ []) ↔ All (Clear sem mods gv) cfs
  unfolding conflict_issues
  conflict_issues-iff-Clear ix mods known gv source [] = (λ h. tt, λ h. refl)
  conflict_issues-iff-Clear ix mods known gv source (cf ∷ cfs) =
      both_empty (conflict_iff-Clear mods gv source ix cf known)
        (conflict_issues-iff-Clear ix mods known gv source cfs)
