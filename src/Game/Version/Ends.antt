-- ===== src/Game/Version/Ends.antt =====
-- That the walk along `inheritsFrom` ends when finitely many versions can be fetched, as those of a
-- manifest, and with what.
use rc_launcher.Base.{
  ℕ, zero, suc, ◌+◌, ◌≤◌, ◌<◌, ◌≡◌, refl, sym, ap, ◌∙◌, ◌↔◌, ◌≢◌, inl, inr, true, false, none, some,
  List, [], ◌∷◌, map, length, length-map, Bool-cases, Option-cases, Result-cases, arith, ok,
  if◌then◌else◌,
}
use rc_launcher.Base.Text.{Text, text_eq, text_eq_iff, text_eq_comm, contains}
use rc_launcher.Error.{RcResult}
use rc_launcher.Game.Version.{
  VersionJson, ResolvedVersion, VersionManifest, VersionEntry, find_entry, fetch_entry, merge_chain,
  reverse_onto, walk, resolve_version,
}
use rc_launcher.Game.Version.Walk.{Line, Found, walk_sound, walk_complete}

-- How many of the known ids are not visited.
unfoldable unvisited : List Text → List Text → ℕ
unvisited [] visited = 0
unvisited (k ∷ ks) visited = (if contains k visited then 0 else 1) + unvisited ks visited

unvisited_le : (ks visited : List Text) → unvisited ks visited ≤ length ks
unfolding unvisited
unvisited_le [] visited = omega arith
unvisited_le (k ∷ ks) visited = let h = unvisited_le ks visited in ground (arith, h)

unvisited-cons_le :
    (c : Text) (ks visited : List Text) → unvisited ks (c ∷ visited) ≤ unvisited ks visited
unfolding unvisited contains
unvisited-cons_le c [] visited = omega arith
unvisited-cons_le c (k ∷ ks) visited = let h = unvisited-cons_le c ks visited in ground (arith, h)

unvisited-cons :
    (c : Text) (ks visited : List Text)
    → contains c ks ≡ true
    → contains c visited ≡ false
    → unvisited ks (c ∷ visited) < unvisited ks visited
unfolding unvisited contains
unvisited-cons c [] visited h k = absurd (cc)
unvisited-cons c (x ∷ ks) visited h k = elim (Bool-cases (text_eq c x)) [
  | inl e ↦
      let same : contains x visited ≡ false = rw (sym ((text_eq_iff c x).0 e)) k in
      let le = unvisited-cons_le c ks visited in rw (text_eq_comm x c, e, same) (omega (arith, le))
  | inr e ↦
      let less = unvisited-cons c ks visited (rw (e) at h) k in
      rw (text_eq_comm x c, e) (ground (arith, less))
]

module _ {V : Type 0} (fetch : Text → RcResult (VersionJson V)) (known : List Text)
    (complete : (id : Text) (v : VersionJson V) → fetch id ≡ ok v → contains id known ≡ true) where
  walk_ends :
      (n : ℕ) (current : Text) (visited : List Text) (chain : List (VersionJson V))
      → unvisited known visited < n
      → ¬ (walk fetch n current visited chain ≡ none)
  unfolding walk
  walk_ends zero current visited chain h e = absurd (omega (arith, h))
  walk_ends (suc n) current visited chain h e = elim (Bool-cases (contains current visited)) [
    | inl c ↦ absurd (cc (rw (c) at e))
    | inr c ↦ elim (Result-cases (fetch current)) [
      | inr (x, f) ↦ absurd (cc (rw (c, f) at e))
      | inl (v, f) ↦ elim (Option-cases v.inherits_from) [
        | inl top ↦ absurd (cc (rw (c, f, top) at e))
        | inr (p, up) ↦
            let less = unvisited-cons current known visited (complete current v f) c in
            walk_ends n p (current ∷ visited) (v ∷ chain) (omega (arith, less, h))
              (rw (c, f, up) at e)
      ]
    ]
  ]

  walk-iff-Line :
      (n : ℕ) (start : Text)
      → length known < n
      → (r : ResolvedVersion V)
      → (walk fetch n start [] [] ≡ some (ok r)) ↔ (
          (vs : List (VersionJson V)) × Line fetch start vs
          × (r ≡ merge_chain (reverse_onto vs [])))
  unfolding Found contains
  walk-iff-Line n start enough r = (
    walk_sound fetch n start [] [] r,
    λ (vs, line, same).
        let le = unvisited_le known [] in
        let none_before =
          λ (w : Text) (c : contains w [] ≡ true) (ws : List (VersionJson V)) (l : Line fetch w ws).
            absurd (cc c) in
        elim (walk_complete fetch n start [] [] vs line none_before) [
          | inl spent ↦ absurd (walk_ends n start [] [] (omega (arith, enough, le)) spent)
          | inr found ↦ found ∙ ap (λ x. some (ok x)) (sym same)
        ],
  )

-- The ids of a manifest.
abbrev pub ids : VersionManifest → List Text
ids m = map (λ e. e.id) m.versions

module _ {V : Type 0} (download : Text → RcResult (VersionJson V)) (m : VersionManifest) where
  find_entry-contains :
      (id : Text) (es : List VersionEntry) (e : VersionEntry)
      → find_entry id es ≡ some e
      → contains id (map (λ e. e.id) es) ≡ true
  unfolding find_entry contains
  find_entry-contains id [] e h = absurd (cc)
  find_entry-contains id (x ∷ es) e h = elim (Bool-cases (text_eq x.id id)) [
    | inl q ↦ rw (text_eq_comm id x.id, q) refl
    | inr q ↦ rw (text_eq_comm id x.id, q) (find_entry-contains id es e (rw (q) at h))
  ]

  fetch_entry-known :
      (id : Text) (v : VersionJson V)
      → fetch_entry download m id ≡ ok v
      → contains id (ids m) ≡ true
  unfolding fetch_entry
  fetch_entry-known id v h = elim (Option-cases (find_entry id m.versions)) [
    | inl q ↦ absurd (cc (rw (fetch_entry, q) at h))
    | inr (e, q) ↦ find_entry-contains id m.versions e q
  ]

  -- With fuel for one version more than the manifest lists, the walk returns, whatever the versions
  -- inherit from.
  pub resolve_version-returns :
      (fuel : ℕ) (version_id : Text)
      → length m.versions < fuel
      → resolve_version download m fuel version_id ≢ none
  unfolding resolve_version
  resolve_version-returns fuel id enough =
      let count = length-map (λ e. e.id) m.versions in
      let le = unvisited_le (ids m) [] in
      walk_ends (fetch_entry download m) (ids m) fetch_entry-known fuel id [] []
        (omega (arith, enough, count, le))

  walk-Line :
      (fuel : ℕ) (version_id : Text)
      → length m.versions < fuel
      → (r : ResolvedVersion V)
      → (resolve_version download m fuel version_id ≡ some (ok r)) ↔ (
          (vs : List (VersionJson V)) × Line (fetch_entry download m) version_id vs
          × (r ≡ merge_chain (reverse_onto vs [])))
  unfolding resolve_version
  walk-Line fuel id enough =
      let count = length-map (λ e. e.id) m.versions in
      walk-iff-Line (fetch_entry download m) (ids m) fetch_entry-known fuel id
        (omega (arith, enough, count))

  -- With fuel for one version more than the manifest lists, the walk returns, whatever the versions
  -- inherit from, and a version is resolved exactly if it has a line of parents in the manifest that
  -- ends with a version that inherits from nothing, and to the merge of that line, root first.
  pub resolve_version-iff-Line :
      (fuel : ℕ) (version_id : Text)
      → length m.versions < fuel
      → (r : ResolvedVersion V)
      → (resolve_version download m fuel version_id ≢ none)
        × ((resolve_version download m fuel version_id ≡ some (ok r)) ↔ (
            (vs : List (VersionJson V)) × Line (fetch_entry download m) version_id vs
            × (r ≡ merge_chain (reverse_onto vs []))))
  resolve_version-iff-Line fuel id enough r =
      (resolve_version-returns fuel id enough, walk-Line fuel id enough r)
