-- ===== src/Launch/Classpath/Winners.antt =====
-- Which jars the loop of launch/classpath.rs over the libraries keeps: one for each group and artifact,
-- at the place of the first of them.
use rc_launcher.Base.{
  ℕ, ◌≡◌, refl, ap, ◌∙◌, Bool, true, not, ◌&&◌, ◌||◌, Option, none, some, List, [], ◌∷◌, ◌++◌,
  map-push, length, length-map, Bool-cases, Option-cases, inl, inr, if◌then◌else◌,
}
use rc_launcher.Base.Text.{Text, lookup}
use rc_launcher.Classpath.{compare_maven_versions}
use rc_launcher.Game.Library.{Library, is_allowed, native_classifier, parse_maven, maven_path}
use rc_launcher.Launch.Path.{join_path}
use rc_launcher.Launch.Classpath.{
  Jar, Building, ClasspathBuilder, is_greater, collapse, place_seen, place_jar, is_declared,
  is_given, is_substituted, jar_of, add_library, add_natives, add_main, add_libraries,
}
use rc_launcher.Launch.Classpath.Contend.{
  contend, winners, find, Tracks, find-Replaced, contend-absent, new_first,
}

collapse-Tracks :
    (j : Jar) (s : Building) (ws : List Jar) (at : ℕ × Text)
    → find j.ga ws ≡ some at
    → Tracks s ws
    → Tracks (collapse j at.0 at.1 s) (contend j ws)
unfolding collapse lookup
collapse-Tracks j s ws at q t =
    let r = find-Replaced j ws at q in
    elim (Bool-cases (is_greater (compare_maven_versions j.version at.1))) [
      | inl b ↦
          rw (collapse, b)
            (record {
              entries = rw (r.entries, b, t.entries) refl;
              known = λ ga. rw (r.known ga, b, t.known ga) refl;
            })
      | inr b ↦
          rw (collapse, b)
            (record {
              entries = rw (r.entries, b) t.entries;
              known = λ ga. rw (r.known ga, b) (t.known ga);
            })
    ]

-- One jar of the loop, when duplicates are collapsed
place_jar-Tracks :
    (j : Jar) (s : Building) (ws : List Jar)
    → Tracks s ws
    → Tracks (place_jar true j s) (contend j ws)
unfolding place_jar place_seen lookup
place_jar-Tracks j s ws t = elim (Option-cases (find j.ga ws)) [
  | inl q ↦
      rw (place_seen, t.known j.ga, q, contend-absent j ws q)
        (record {
          entries = rw (map-push (λ w. w.path) ws j, t.entries) refl;
          known = λ ga.
              rw (ap length t.entries ∙ length-map (λ w. w.path) ws)
                (new_first ga j ws (lookup ga s.seen) q (t.known ga));
        })
  | inr (at, q) ↦ rw (place_seen, t.known j.ga, q) (collapse-Tracks j s ws at q t)
]

place_jar-Tracks_on :
    (on : Bool) (j : Jar) (s : Building) (ws : List Jar)
    → on ≡ true
    → Tracks s ws
    → Tracks (place_jar on j s) (contend j ws)
place_jar-Tracks_on on j s ws e t = rw (e) (place_jar-Tracks j s ws t)

-- A library takes part with its main jar if the rules allow it, it is not substituted, and it declares the
-- jar or has neither natives for the platform nor a classifier.
unfoldable pub takes_part : ClasspathBuilder → Library → Bool
takes_part b lib =
    is_allowed lib b.platform b.features
    && not (is_substituted b lib)
    && (is_declared lib.downloads.artifact
        || not (is_given (native_classifier lib b.platform))
          && not (is_given (parse_maven lib.name).classifier))

unfoldable pub main_jars : ClasspathBuilder → List Library → List Jar
main_jars b [] = []
main_jars b (lib ∷ libs) =
    let rest = main_jars b libs in if takes_part b lib then jar_of b lib ∷ rest else rest

module _ (b : ClasspathBuilder) (on : b.policy.collapse_duplicates ≡ true) where
  -- What one library does to the list
  abbrev with_library : Library → List Jar → List Jar
  with_library lib ws = if takes_part b lib then contend (jar_of b lib) ws else ws

  add_main-Tracks :
      (lib : Library) (s : Building) (ws : List Jar)
      → Tracks s ws
      → Tracks (add_main b lib s) (
          if is_declared lib.downloads.artifact || not (is_given (parse_maven lib.name).classifier)
          then contend (jar_of b lib) ws
          else ws)
  unfolding add_main
  add_main-Tracks lib s ws t = elim (Bool-cases (is_declared lib.downloads.artifact)) [
    | inl d ↦ elim (Bool-cases (is_given (parse_maven lib.name).classifier)) [
      | inl g ↦
          rw (d, g) (place_jar-Tracks_on b.policy.collapse_duplicates (jar_of b lib) s ws on t)
      | inr g ↦
          rw (d, g) (place_jar-Tracks_on b.policy.collapse_duplicates (jar_of b lib) s ws on t)
    ]
    | inr d ↦ elim (Bool-cases (is_given (parse_maven lib.name).classifier)) [
      | inl g ↦ rw (d, g) t
      | inr g ↦
          rw (d, g) (place_jar-Tracks_on b.policy.collapse_duplicates (jar_of b lib) s ws on t)
    ]
  ]

  add_natives-Tracks :
      (lib : Library) (s : Building) (ws : List Jar)
      → Tracks s ws
      → (natives : Option Text)
      → Tracks (add_natives b lib natives s) (
          if is_declared lib.downloads.artifact
            || not (is_given natives) && not (is_given (parse_maven lib.name).classifier)
          then contend (jar_of b lib) ws
          else ws)
  unfolding add_natives
  add_natives-Tracks lib s ws t none = add_main-Tracks lib s ws t
  add_natives-Tracks lib s ws t (some classifier) =
      let path = join_path b.libraries_dir (maven_path lib.name (some classifier)) in
      let s' : Building = record s { native_jars = s.native_jars ++ (path ∷ []) } in
      let t' : Tracks s' ws = record { entries = t.entries; known = t.known } in
      elim (Bool-cases (is_declared lib.downloads.artifact)) [
        | inl d ↦ let step = add_main-Tracks lib s' ws t' in rw (d) (rw (d) at step)
        | inr d ↦ rw (d) t'
      ]

  add_library-Tracks :
      (lib : Library) (s : Building) (ws : List Jar)
      → Tracks s ws
      → Tracks (add_library b lib s) (with_library lib ws)
  unfolding add_library add_natives add_main takes_part
  add_library-Tracks lib s ws t = elim (Bool-cases (is_allowed lib b.platform b.features)) [
    | inr a ↦ rw (a) t
    | inl a ↦ elim (Bool-cases (is_substituted b lib)) [
      | inl u ↦ rw (a, u) (record { entries = t.entries; known = t.known })
      | inr u ↦ rw (a, u) (add_natives-Tracks lib s ws t (native_classifier lib b.platform))
    ]
  ]

  pub add_libraries-Tracks :
      (libs : List Library) (s : Building) (ws : List Jar)
      → Tracks s ws
      → Tracks (add_libraries b libs s) (winners ws (main_jars b libs))
  unfolding add_libraries main_jars winners
  add_libraries-Tracks [] s ws t = t
  add_libraries-Tracks (lib ∷ libs) s ws t = elim (Bool-cases (takes_part b lib)) [
    | inl h ↦
        let step = add_library-Tracks lib s ws t in
        rw (h) (
          add_libraries-Tracks libs (add_library b lib s) (contend (jar_of b lib) ws)
            (rw (h) at step))
    | inr h ↦
        let step = add_library-Tracks lib s ws t in
        rw (h) (add_libraries-Tracks libs (add_library b lib s) ws (rw (h) at step))
  ]
