-- ===== src/Launch/Classpath/Sound.antt =====
-- What the class path of launch/classpath.rs holds when duplicates are collapsed.
use rc_launcher.Base.{
  ◌≡◌, refl, ap, sym, true, List, [], ◌∷◌, ◌++◌, map, ok, Bool-cases, Result-cases, inl, inr,
  ok-injective, if◌then◌else◌,
}
use rc_launcher.Base.Text.{Text, text_eq, text_eq_iff, text_eq_comm, contains, lookup}
use rc_launcher.Classpath.{compare_maven_versions}
use rc_launcher.Game.Library.{Library}
use rc_launcher.Game.Version.Index.{Distinct, Distinct-push}
use rc_launcher.Launch.Classpath.{
  Classpath, ClasspathBuilder, Jar, is_greater, build_classpath, with_client, runtime_jars,
  nothing_built,
}
use rc_launcher.Launch.Classpath.Contend.{contend, winners, paths, find, Tracks}
use rc_launcher.Launch.Classpath.Winners.{main_jars, add_libraries-Tracks}
use rc_launcher.Launch.Env.{push_dirs}
use rc_launcher.Launch.Env.Dirs.{Searched, push_dirs-Searched, DistinctPaths}
use rc_launcher.Launch.Args.Prune.{Sublist}

abbrev pub gas : List Jar → List Text
gas ws = map (λ w. w.ga) ws

gas-contend :
    (j : Jar) (ws : List Jar)
    → gas (contend j ws) ≡ (if contains j.ga (gas ws) then gas ws else gas ws ++ (j.ga ∷ []))
unfolding contend contains
gas-contend j [] = refl
gas-contend j (w ∷ ws) = elim (Bool-cases (text_eq w.ga j.ga)) [
  | inl e ↦ elim (Bool-cases (is_greater (compare_maven_versions j.version w.version))) [
    | inl g ↦
        rw (text_eq_comm j.ga w.ga, e, g) (ap (λ t. t ∷ gas ws) (sym ((text_eq_iff w.ga j.ga).0 e)))
    | inr g ↦ rw (text_eq_comm j.ga w.ga, e, g) refl
  ]
  | inr e ↦ elim (Bool-cases (contains j.ga (gas ws))) [
    | inl c ↦ rw (text_eq_comm j.ga w.ga, e, gas-contend j ws, c) refl
    | inr c ↦ rw (text_eq_comm j.ga w.ga, e, gas-contend j ws, c) refl
  ]
]

contend-Distinct : (j : Jar) (ws : List Jar) → Distinct (gas ws) → Distinct (gas (contend j ws))
contend-Distinct j ws d = elim (Bool-cases (contains j.ga (gas ws))) [
  | inl c ↦ rw (gas-contend j ws, c) d
  | inr c ↦ rw (gas-contend j ws, c) (Distinct-push j.ga (gas ws) c d)
]

winners-Distinct : (ws js : List Jar) → Distinct (gas ws) → Distinct (gas (winners ws js))
unfolding winners
winners-Distinct ws [] d = d
winners-Distinct ws (j ∷ js) d = winners-Distinct (contend j ws) js (contend-Distinct j ws d)

-- The class path, given the jars that take part: of each group and artifact one jar, the winner, then the
-- jars of the bundle, and the client jar at its end; each path where it stands first.
pub record Assembled (b : ClasspathBuilder) (libs : List Library) (client_jar : Text)
    (cp : Classpath) : Type 0 where
  pub bundle : List Text
  pub listed : runtime_jars b ≡ ok bundle
  pub one_each : Distinct (gas (winners [] (main_jars b libs)))
  pub entries :
      Searched
        (with_client b.policy.client_jar_last client_jar
          (paths (winners [] (main_jars b libs)) ++ bundle))
        cp.entries

start-Tracks : Tracks nothing_built []
unfolding find lookup
start-Tracks = record { entries = refl; known = λ ga. refl }

push_dirs-Searched_nil : (dirs : List Text) → Searched dirs (push_dirs dirs [])
unfolding DistinctPaths Sublist
push_dirs-Searched_nil dirs =
    push_dirs-Searched [] dirs [] (record { distinct = tt; found = tt; ordered = tt })

-- When duplicates are collapsed, the class path that a build returns has exactly one jar for each group
-- and artifact of the libraries that take part, the one that is left when each jar in turn takes the place
-- of one with a lower version, then the jars of the bundle, with the client jar at its end, and no path
-- twice.
pub build_classpath-Assembled :
    (b : ClasspathBuilder) (libs : List Library) (client_jar : Text) (cp : Classpath)
    → b.policy.collapse_duplicates ≡ true
    → build_classpath b libs client_jar ≡ ok cp
    → Assembled b libs client_jar cp
unfolding build_classpath Distinct
build_classpath-Assembled b libs client_jar cp on h = elim (Result-cases (runtime_jars b)) [
  | inr (e, q) ↦ absurd (cc (rw (q) at h))
  | inl (jars, q) ↦
      let t = add_libraries-Tracks b on libs nothing_built [] start-Tracks in
      let entries = ap (λ c. c.entries) (ok-injective (rw (q) at h)) in
      record {
        bundle = jars;
        listed = q;
        one_each = winners-Distinct [] (main_jars b libs) tt;
        entries = rw (sym entries, t.entries) (push_dirs-Searched_nil _);
      }
]
