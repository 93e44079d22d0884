-- ===== src/Game/Plan/Items.antt =====
-- The plan of a version against the list of everything that it needs.
use rc_launcher.Base.{
  ◌≡◌, refl, sym, ap, ◌∙◌, Option, none, some, List, [], ◌∷◌, ◌++◌, map, if◌then◌else◌, Bool-cases,
  inl, inr,
}
use rc_launcher.Base.Text.{Text}
use rc_launcher.Game.Library.{Library, is_allowed}
use rc_launcher.Game.Version.{ResolvedVersion}
use rc_launcher.Mirror.{Url}
use rc_launcher.Game.Plan.{
  DownloadItem, Resolver, Json, AssetsIndex, add_all, add_some, main_jar, native_jar, plan_library,
  plan_libraries, client_item, index_item, logging_item, build_plan, plan_assets, build_full_plan,
  dedup,
}
use rc_launcher.Game.Plan.Merged.{
  dests, dests_after, merged_at, add_all-Holds_new, dedup-Distinct, add_all-append,
}

abbrev pub of_option {ℓ} : {A : Type ℓ} → Option A → List A
of_option none = []
of_option (some a) = a ∷ []

dedup-add_all : (is : List DownloadItem) → dedup (add_all [] is) ≡ add_all [] is
dedup-add_all is =
    let h = add_all-Holds_new is in dedup-Distinct (add_all [] is) (rw (h.same_dests) h.distinct)

module _ (parse : Text → Option Url) (res : Resolver) where
  -- The jars of the libraries that the rules include.
  unfoldable pub needed_jars : List Library → List DownloadItem
  needed_jars [] = []
  needed_jars (lib ∷ libs) =
      let rest = needed_jars libs in
      if is_allowed lib res.platform []
      then of_option (main_jar parse res lib) ++ (of_option (native_jar parse res lib) ++ rest)
      else rest

  add_all_some :
      (o : Option DownloadItem) (rest plan : List DownloadItem)
      → add_all plan (of_option o ++ rest) ≡ add_all (add_some parse res plan o) rest
  unfolding add_all
  add_all_some none rest plan = refl
  add_all_some (some i) rest plan = refl

  add_all_option :
      (o : Option DownloadItem) (plan : List DownloadItem)
      → add_all plan (of_option o) ≡ add_some parse res plan o
  unfolding add_all
  add_all_option none plan = refl
  add_all_option (some i) plan = refl

  plan_libraries_lem :
      (libs : List Library) (plan : List DownloadItem)
      → plan_libraries parse res plan libs ≡ add_all plan (needed_jars libs)
  unfolding plan_libraries plan_library needed_jars add_all
  plan_libraries_lem [] plan = refl
  plan_libraries_lem (lib ∷ libs) plan = elim (Bool-cases (is_allowed lib res.platform [])) [
    | inl e ↦
        let rest = needed_jars libs in
        let native = of_option (native_jar parse res lib) in
        let with_main = add_some parse res plan (main_jar parse res lib) in
        rw (plan_library, e)
          (plan_libraries_lem libs (add_some parse res with_main (native_jar parse res lib))
            ∙ (sym (add_all_some (native_jar parse res lib) rest with_main)
                ∙ sym (add_all_some (main_jar parse res lib) (native ++ rest) plan)))
    | inr e ↦ rw (plan_library, e) (plan_libraries_lem libs plan)
  ]

  module _ {V : Type 0} (json : Json V) (r : ResolvedVersion V) where
    -- Everything of the version itself: the client jar, the asset index, the jars, and the logging
    -- configuration.
    unfoldable pub version_items : List DownloadItem
    version_items =
        of_option (client_item parse res json r)
        ++ (of_option (index_item parse res json r)
            ++ (needed_jars r.libraries ++ of_option (logging_item parse res json r)))

    build_plan_lem : build_plan parse res json r ≡ add_all [] version_items
    unfolding build_plan version_items add_all
    build_plan_lem =
        let client = client_item parse res json r in
        let index = index_item parse res json r in
        let log = logging_item parse res json r in
        let jars = needed_jars r.libraries in
        let one = add_some parse res [] client in
        let two = add_some parse res one index in
        let tail = jars ++ of_option log in
        ap dedup (
          sym (
            add_all_some client (of_option index ++ tail) []
            ∙ (add_all_some index tail one
                ∙ (add_all-append jars (of_option log) two
                    ∙ (add_all_option log (add_all two jars)
                        ∙ ap (λ p. add_some parse res p log)
                            (sym (plan_libraries_lem r.libraries two)))))))
        ∙ dedup-add_all version_items

    -- With the objects of its assets.
    unfoldable pub all_items : AssetsIndex → List DownloadItem
    all_items assets = version_items ++ plan_assets parse res assets.objects

    -- The full plan of a version holds one item for each destination of what the version needs, in the
    -- order in which the destinations first occur: the first item for it, completed by the later ones.
    pub build_full_plan_lem :
        (assets : AssetsIndex)
        → map some (build_full_plan parse res json r assets)
          ≡ map
              (λ p. merged_at p none (all_items assets))
              (dests_after [] (dests (all_items assets)))
    unfolding build_full_plan all_items
    build_full_plan_lem assets =
        let objects = plan_assets parse res assets.objects in
        ap (map some) (
          ap (λ p. dedup (add_all p objects)) build_plan_lem
          ∙ (ap dedup (sym (add_all-append version_items objects []))
              ∙ dedup-add_all (version_items ++ objects)))
        ∙ (add_all-Holds_new (version_items ++ objects)).items
