-- ===== src/Launch/Env/Dirs.antt =====
-- The search path of native libraries in launch/env.rs.
use mathlib.Core.List.{append-nil, append_assoc}
use rc_launcher.Base.{
  ◌≡◌, refl, sym, ◌∙◌, Bool, true, false, ◌||◌, List, [], ◌∷◌, ◌++◌, All, Bool-cases, inl, inr,
  or_false, if◌then◌else◌,
}
use rc_launcher.Base.Text.{Text}
use rc_launcher.Game.Path.{path_eq, path_eq_iff, path_eq_comm}
use rc_launcher.Launch.Args.Prune.{All-append, Sublist, Sublist-push, Sublist-behind}
use rc_launcher.Launch.Env.{push_dirs, library_path, candidate_dirs}
use rc_launcher.Launch.Options.{LaunchOptions}
use rc_launcher.Launch.Path.{path_of, contains_path}

-- No path comes twice.
unfoldable pub DistinctPaths : List Text → Type 0
DistinctPaths [] = Unit {0}
DistinctPaths (t ∷ ts) = (contains_path t ts ≡ false) × DistinctPaths ts

-- The directories are the candidates in their order without those that a path equal to them precedes.
pub record Searched (candidates dirs : List Text) : Type 0 where
  pub distinct : DistinctPaths dirs
  pub found : All (λ d. contains_path d dirs ≡ true) candidates
  pub ordered : Sublist dirs candidates

or_false_right : (b : Bool) → (b || false) ≡ b
or_false_right true = refl
or_false_right false = refl

or_assoc : (a b c : Bool) → (a || (b || c)) ≡ ((a || b) || c)
or_assoc true b c = refl
or_assoc false b c = refl

or_true : (b : Bool) → (b || true) ≡ true
or_true true = refl
or_true false = refl

path_eq_self : (t : Text) → path_eq (path_of t) (path_of t) ≡ true
path_eq_self t = (path_eq_iff (path_of t) (path_of t)).1 refl

contains_path-push :
    (t u : Text) (ts : List Text)
    → contains_path t (ts ++ (u ∷ [])) ≡ (contains_path t ts || path_eq (path_of u) (path_of t))
unfolding contains_path
contains_path-push t u [] = or_false_right (path_eq (path_of u) (path_of t))
contains_path-push t u (x ∷ xs) = rw (contains_path-push t u xs) (
    or_assoc (path_eq (path_of x) (path_of t)) (contains_path t xs)
      (path_eq (path_of u) (path_of t)))

DistinctPaths-push :
    (t : Text) (ts : List Text)
    → contains_path t ts ≡ false
    → DistinctPaths ts
    → DistinctPaths (ts ++ (t ∷ []))
unfolding DistinctPaths contains_path
DistinctPaths-push t [] h d = (refl, tt)
DistinctPaths-push t (x ∷ xs) h d =
    let o = or_false (path_eq (path_of x) (path_of t)) (contains_path t xs) h in
    (
      contains_path-push x t xs ∙ rw (d.0, path_eq_comm (path_of t) (path_of x), o.0) refl,
      DistinctPaths-push t xs o.1 d.1,
    )

-- A path that is there stays, and one that was pushed is there.
All-push :
    (u : Text) (cs dirs : List Text)
    → All (λ d. contains_path d dirs ≡ true) cs
    → All (λ d. contains_path d (dirs ++ (u ∷ [])) ≡ true) cs
All-push u [] dirs h = tt
All-push u (c ∷ cs) dirs h = (rw (contains_path-push c u dirs, h.0) refl, All-push u cs dirs h.1)

push_one-Searched :
    (done : List Text) (d : Text) (dirs : List Text)
    → Searched done dirs
    → Searched (done ++ (d ∷ [])) (if contains_path d dirs then dirs else dirs ++ (d ∷ []))
push_one-Searched done d dirs s = elim (Bool-cases (contains_path d dirs)) [
  | inl b ↦ rw (b) (record {
    distinct = s.distinct;
    found = All-append (λ c. contains_path c dirs ≡ true) done (d ∷ []) s.found (b, tt);
    ordered = Sublist-behind dirs done d s.ordered;
  })
  | inr b ↦ rw (b) (record {
    distinct = DistinctPaths-push d dirs b s.distinct;
    found =
        All-append (λ c. contains_path c (dirs ++ (d ∷ [])) ≡ true) done (d ∷ [])
          (All-push d done dirs s.found)
          (
            rw (contains_path-push d d dirs, path_eq_self d, or_true (contains_path d dirs)) refl,
            tt,
          );
    ordered = Sublist-push dirs done d s.ordered;
  })
]

pub push_dirs-Searched :
    (done ds dirs : List Text) → Searched done dirs → Searched (done ++ ds) (push_dirs ds dirs)
unfolding push_dirs
push_dirs-Searched done [] dirs s = rw (append-nil done) s
push_dirs-Searched done (d ∷ ds) dirs s =
    rw (sym (append_assoc done (d ∷ []) ds))
      (push_dirs-Searched (done ++ (d ∷ [])) ds _ (push_one-Searched done d dirs s))

-- The search path names no directory twice, names every directory that it is made of, and keeps their
-- order.
pub library_path-Searched :
    (o : LaunchOptions) (id : Text) (extra : List Text)
    → Searched (candidate_dirs o id extra) (library_path o id extra)
unfolding library_path DistinctPaths Sublist
library_path-Searched o id extra =
    push_dirs-Searched [] (candidate_dirs o id extra) []
      (record { distinct = tt; found = tt; ordered = tt })
