-- ===== src/Game/Plan/Merged.antt =====
-- What the plans of game/resolve.rs hold: one item for each destination.
use rc_launcher.Base.{
  ◌≡◌, refl, sym, ap, ◌∙◌, inl, inr, true, false, ◌||◌, Option, none, some, List, [], ◌∷◌, ◌++◌,
  map, map-push, Bool-cases, or_false, if◌then◌else◌, arith,
}
use rc_launcher.Game.Plan.{DownloadItem, complete, add, add_all, has_path, dedup, dedup_after}
use rc_launcher.Game.Path.{PathBuf, path_eq, path_eq_iff, path_eq_comm}

-- The destinations, each at its first place.
unfoldable pub dests_after : List PathBuf → List PathBuf → List PathBuf
dests_after ps [] = ps
dests_after ps (x ∷ xs) = dests_after (if has_path x ps then ps else ps ++ (x ∷ [])) xs

-- The item of a destination, with one more for it.
abbrev pub merged_with : Option DownloadItem → DownloadItem → DownloadItem
merged_with none i = i
merged_with (some e) i = complete e i

-- The items of a destination, the later ones completing the first.
unfoldable pub merged_at : PathBuf → Option DownloadItem → List DownloadItem → Option DownloadItem
merged_at p o [] = o
merged_at p o (i ∷ is) = merged_at p (if path_eq p i.dest then some (merged_with o i) else o) is

abbrev pub dests : List DownloadItem → List PathBuf
dests = map (λ i. i.dest)

unfoldable pub Distinct : List PathBuf → Type 0
Distinct [] = Unit {0}
Distinct (x ∷ xs) = (has_path x xs ≡ false) × Distinct xs

-- The items of the destinations when `i` comes behind them.
abbrev with_item : DownloadItem → (PathBuf → Option DownloadItem) → PathBuf → Option DownloadItem
with_item i o p = if path_eq p i.dest then some (merged_with (o p) i) else o p

add_new :
    (plan : List DownloadItem) (i : DownloadItem)
    → has_path i.dest (dests plan) ≡ false
    → add plan i ≡ plan ++ (i ∷ [])
unfolding add has_path
add_new [] i h = refl
add_new (j ∷ js) i h = elim (Bool-cases (path_eq i.dest j.dest)) [
  | inl e ↦ absurd (cc (rw (e) at h))
  | inr e ↦ rw (add, path_eq_comm j.dest i.dest, e) (ap (λ is. j ∷ is) (add_new js i (rw (e) at h)))
]

module _ (i : DownloadItem) (o : PathBuf → Option DownloadItem) where
  map-with_item :
      (ps : List PathBuf) → has_path i.dest ps ≡ false → map (with_item i o) ps ≡ map o ps
  unfolding has_path
  map-with_item [] h = refl
  map-with_item (p ∷ ps) h = elim (Bool-cases (path_eq i.dest p)) [
    | inl e ↦ absurd (cc (rw (e) at h))
    | inr e ↦ rw (path_eq_comm p i.dest, e) (ap (λ os. o p ∷ os) (map-with_item ps (rw (e) at h)))
  ]

  -- An item for a destination that is there completes the item that is there.
  add_known :
      (plan : List DownloadItem)
      → has_path i.dest (dests plan) ≡ true
      → Distinct (dests plan)
      → map some plan ≡ map o (dests plan)
      → (dests (add plan i) ≡ dests plan)
        × (map some (add plan i) ≡ map (with_item i o) (dests plan))
  unfolding add has_path Distinct complete
  add_known [] h d k = absurd (cc)
  add_known (j ∷ js) h d k = elim (Bool-cases (path_eq j.dest i.dest)) [
    | inl e ↦
        let same = (path_eq_iff j.dest i.dest).0 e in
        let absent : has_path i.dest (dests js) ≡ false = rw (sym same) d.0 in
        let rest = map-with_item (dests js) absent in
        let head : some j ≡ o j.dest = cc k in
        let tail : map some js ≡ map o (dests js) = cc k in
        rw (add, e, rest, sym head) (refl, cc tail)
    | inr e ↦
        let here : has_path i.dest (dests js) ≡ true = rw (path_eq_comm i.dest j.dest, e) at h in
        let (a, b) = add_known js here d.1 (cc k) in
        let head : some j ≡ o j.dest = cc k in rw (add, e, a, b, sym head) (refl, refl)
  ]

-- The plan, against the destinations `ps` that were added and the merged item `o` of each.
pub record Holds (plan : List DownloadItem) (ps : List PathBuf) (o : PathBuf → Option DownloadItem)
    : Type 0 where
  pub same_dests : dests plan ≡ ps
  pub distinct : Distinct ps
  pub items : map some plan ≡ map o ps
  pub outside : (p : PathBuf) → has_path p ps ≡ false → o p ≡ none

has_path-push :
    (p q : PathBuf) (ps : List PathBuf)
    → has_path p (ps ++ (q ∷ [])) ≡ (has_path p ps || path_eq p q)
unfolding has_path
has_path-push p q [] = ground arith
has_path-push p q (x ∷ xs) = let e = has_path-push p q xs in ground (arith, e)

Distinct-push :
    (p : PathBuf) (ps : List PathBuf)
    → has_path p ps ≡ false
    → Distinct ps
    → Distinct (ps ++ (p ∷ []))
unfolding Distinct has_path
Distinct-push p [] h d = (refl, tt)
Distinct-push p (x ∷ xs) h d =
    let (a, b) = or_false (path_eq p x) (has_path p xs) h in
    (rw (has_path-push x p xs, d.0, path_eq_comm x p, a) refl, Distinct-push p xs b d.1)

abbrev dests_with : List PathBuf → DownloadItem → List PathBuf
dests_with ps i = if has_path i.dest ps then ps else ps ++ (i.dest ∷ [])

add-Holds :
    (plan : List DownloadItem) (ps : List PathBuf) (o : PathBuf → Option DownloadItem)
    (i : DownloadItem)
    → Holds plan ps o
    → Holds (add plan i) (dests_with ps i) (with_item i o)
add-Holds plan ps o i t = elim (Bool-cases (has_path i.dest ps)) [
  | inl e ↦
      let (a, b) =
        add_known i o plan (rw (t.same_dests) e) (rw (t.same_dests) t.distinct)
          (rw (t.same_dests) t.items) in
      rw (e) (record {
        same_dests = a ∙ t.same_dests;
        distinct = t.distinct;
        items = b ∙ ap (map (with_item i o)) t.same_dests;
        outside = λ p h. elim (Bool-cases (path_eq p i.dest)) [
          | inl q ↦ absurd (cc (ap (λ p. has_path p ps) ((path_eq_iff p i.dest).0 q), h, e))
          | inr q ↦ rw (q) (t.outside p h)
        ];
      })
  | inr e ↦
      let itself : with_item i o i.dest ≡ some i =
        rw ((path_eq_iff i.dest i.dest).1 refl, t.outside i.dest e) refl in
      let absent : has_path i.dest (dests plan) ≡ false = rw (t.same_dests) e in
      rw (e, add_new plan i absent)
        (record {
          same_dests = map-push (λ j. j.dest) plan i ∙ ap (λ qs. qs ++ (i.dest ∷ [])) t.same_dests;
          distinct = Distinct-push i.dest ps e t.distinct;
          items =
              map-push some plan i
              ∙ (ap (λ xs. xs ++ (some i ∷ [])) (t.items ∙ sym (map-with_item i o ps e))
                  ∙ (ap (λ x. map (with_item i o) ps ++ (x ∷ [])) (sym itself)
                      ∙ sym (map-push (with_item i o) ps i.dest)));
          outside = λ p h.
              let (a, b) =
                or_false (has_path p ps) (path_eq p i.dest) (sym (has_path-push p i.dest ps) ∙ h) in
              rw (b) (t.outside p a);
        })
]

add_all-Holds :
    (is plan : List DownloadItem) (ps : List PathBuf) (o : PathBuf → Option DownloadItem)
    → Holds plan ps o
    → Holds (add_all plan is) (dests_after ps (dests is)) (λ p. merged_at p (o p) is)
unfolding add_all dests_after merged_at
add_all-Holds [] plan ps o t = t
add_all-Holds (i ∷ is) plan ps o t =
    add_all-Holds is (add plan i) (dests_with ps i) (with_item i o) (add-Holds plan ps o i t)

-- What is added one by one to an empty plan.
pub add_all-Holds_new :
    (is : List DownloadItem)
    → Holds (add_all [] is) (dests_after [] (dests is)) (λ p. merged_at p none is)
unfolding Distinct
add_all-Holds_new is = add_all-Holds is [] [] (λ p. none) nothing
  where
    nothing : Holds [] [] (λ p. none)
    nothing = record { same_dests = refl; distinct = tt; items = refl; outside = λ p h. refl }

-- A plan with distinct destinations is not changed by `dedup`.
dedup_after-Distinct :
    (seen : List PathBuf) (plan : List DownloadItem)
    → Distinct (dests plan)
    → ((p : PathBuf) → has_path p (dests plan) ≡ true → has_path p seen ≡ false)
    → dedup_after seen plan ≡ plan
unfolding dedup_after Distinct has_path
dedup_after-Distinct seen [] d h = refl
dedup_after-Distinct seen (i ∷ is) d h =
    let fresh : has_path i.dest seen ≡ false =
      h i.dest (rw ((path_eq_iff i.dest i.dest).1 refl) refl) in
    rw (fresh) (
      ap (λ is. i ∷ is)
        (dedup_after-Distinct (i.dest ∷ seen) is d.1 (λ p k. elim (Bool-cases (path_eq p i.dest)) [
          | inl q ↦
              absurd (cc (ap (λ p. has_path p (dests is)) ((path_eq_iff p i.dest).0 q), k, d.0))
          | inr q ↦ rw (q) (h p (rw (q) k))
        ])))

pub dedup-Distinct : (plan : List DownloadItem) → Distinct (dests plan) → dedup plan ≡ plan
unfolding dedup has_path
dedup-Distinct plan d = dedup_after-Distinct [] plan d (λ p h. refl)

pub add_all-append :
    (is js plan : List DownloadItem) → add_all plan (is ++ js) ≡ add_all (add_all plan is) js
unfolding add_all
add_all-append [] js plan = refl
add_all-append (i ∷ is) js plan = add_all-append is js (add plan i)
