-- ===== src/Game/Version/Libraries.antt =====
-- What the merge of a chain makes of its libraries.
use rc_launcher.Base.{
  ℕ, ◌≡◌, refl, sym, ap, ◌∙◌, true, false, Option, none, some, List, [], ◌∷◌, ◌++◌, map, map-push,
  length, length-map, if◌then◌else◌, Bool-cases, Option-cases, inl, inr,
}
use rc_launcher.Base.Text.{Text, text_eq, text_eq_iff, text_eq_refl, text_eq_comm, lookup, contains}
use rc_launcher.Game.Library.{Library}
use rc_launcher.Game.Version.Index.{
  index_of, index_of-head, index_of-none, index_of-some, Distinct, Distinct-push, index_of-push,
}
use rc_launcher.Game.Version.{
  VersionJson, Libs, set_at, place, place_all, merge_libraries, merge_chain,
}

abbrev pub names : List Library → List Text
names = map (λ l. l.name)

-- The libraries of all the versions, in the order of the chain.
unfoldable pub all_libraries : {V : Type 0} → List (VersionJson V) → List Library
all_libraries [] = []
all_libraries (v ∷ vs) = v.libraries ++ all_libraries vs

-- The names, each at its first place.
unfoldable pub distinct_after : List Text → List Text → List Text
distinct_after ns [] = ns
distinct_after ns (x ∷ xs) = distinct_after (if contains x ns then ns else ns ++ (x ∷ [])) xs

-- The last library of that name; the one that is given, if there is none.
unfoldable pub last_named : Text → Option Library → List Library → Option Library
last_named n o [] = o
last_named n o (l ∷ ls) = last_named n (if text_eq l.name n then some l else o) ls

names-set_at :
    (i : ℕ) (l : Library) (libs : List Library)
    → index_of l.name (names libs) ≡ some i
    → names (set_at i l libs) ≡ names libs
unfolding index_of set_at
names-set_at i l [] h = absurd (cc)
names-set_at i l (m ∷ ms) h = elim (index_of-head l.name m.name (names ms) i h) [
  | inl (e, z) ↦ rw (z) (ap (λ n. n ∷ names ms) (sym ((text_eq_iff m.name l.name).0 e)))
  | inr (e, (j, z, q)) ↦ rw (z) (ap (λ ns. m.name ∷ ns) (names-set_at j l ms q))
]

-- The last libraries when `l` comes behind them.
abbrev with_last : Library → (Text → Option Library) → Text → Option Library
with_last l o n = if text_eq l.name n then some l else o n

module _ (l : Library) (o : Text → Option Library) where
  map-with_last : (ns : List Text) → contains l.name ns ≡ false → map (with_last l o) ns ≡ map o ns
  unfolding contains
  map-with_last [] h = refl
  map-with_last (x ∷ xs) h = elim (Bool-cases (text_eq l.name x)) [
    | inl e ↦ absurd (cc (rw e at h))
    | inr e ↦ rw (e) (ap (λ os. o x ∷ os) (map-with_last xs (rw e at h)))
  ]

  map-set_at :
      (i : ℕ) (libs : List Library)
      → index_of l.name (names libs) ≡ some i
      → Distinct (names libs)
      → map some libs ≡ map o (names libs)
      → map some (set_at i l libs) ≡ map (with_last l o) (names libs)
  unfolding index_of set_at Distinct
  map-set_at i [] h d k = absurd (cc)
  map-set_at i (m ∷ ms) h d k = elim (index_of-head l.name m.name (names ms) i h) [
    | inl (e, z) ↦
        let same : l.name ≡ m.name = sym ((text_eq_iff m.name l.name).0 e) in
        let head : text_eq l.name m.name ≡ true = (text_eq_iff l.name m.name).1 same in
        let rest : map (with_last l o) (names ms) ≡ map o (names ms) =
          map-with_last (names ms) (ap (λ n. contains n (names ms)) same ∙ d.0) in
        rw (z, head, rest) (cc k)
    | inr (e, (j, z, q)) ↦
        let rest : map some (set_at j l ms) ≡ map (with_last l o) (names ms) =
          map-set_at j ms q d.1 (cc k) in
        let other : text_eq l.name m.name ≡ false = text_eq_comm l.name m.name ∙ e in
        let head : some m ≡ o m.name = cc k in rw (z, other, rest, head) refl
  ]

-- The state of the loop, against the names `ns` that it has met, and the last library `o` of each.
record Tracks (s : Libs) (ns : List Text) (o : Text → Option Library) : Type 0 where
  same_names : names s.libs ≡ ns
  indexed : (n : Text) → lookup n s.seen ≡ index_of n ns
  distinct : Distinct ns
  last : map some s.libs ≡ map o ns

-- The names and the last libraries after one more library.
abbrev pub names_with : List Text → Library → List Text
names_with ns l = if contains l.name ns then ns else ns ++ (l.name ∷ [])

place_known :
    (s : Libs) (l : Library) (i : ℕ)
    → lookup l.name s.seen ≡ some i
    → place s l ≡ record s { libs = set_at i l s.libs }
unfolding place
place_known s l i h = rw (place, h) refl

place_new :
    (s : Libs) (l : Library)
    → lookup l.name s.seen ≡ none
    → place s l ≡ record { libs = s.libs ++ (l ∷ []); seen = (l.name, length s.libs) ∷ s.seen }
unfolding place
place_new s l h = rw (place, h) refl

module _ (s : Libs) (ns : List Text) (o : Text → Option Library) (t : Tracks s ns o)
    (l : Library) where
  same_length : length s.libs ≡ length ns
  same_length = sym (length-map (λ m. m.name) s.libs) ∙ ap length t.same_names

  itself : with_last l o l.name ≡ some l
  itself = rw (text_eq_refl l.name) refl

  new_index :
      index_of l.name ns ≡ none
      → (n : Text) → lookup n ((l.name, length s.libs) ∷ s.seen) ≡ index_of n (ns ++ (l.name ∷ []))
  unfolding lookup
  new_index q n = elim (Bool-cases (text_eq l.name n)) [
    | inl e ↦
        let absent : index_of n ns ≡ none =
          ap (λ m. index_of m ns) (sym ((text_eq_iff l.name n).0 e)) ∙ q in
        rw (lookup, index_of-push n l.name ns, absent, e, same_length) refl
    | inr e ↦
        rw (lookup, index_of-push n l.name ns, e, t.indexed n)
          (elim (Option-cases (index_of n ns)) [
            | inl none_there ↦ rw (none_there, e) refl
            | inr (i, there) ↦ rw (there) refl
          ])
  ]

  place-Tracks : Tracks (place s l) (names_with ns l) (with_last l o)
  place-Tracks = elim (Option-cases (index_of l.name ns)) [
    | inr (i, q) ↦
        let here : index_of l.name (names s.libs) ≡ some i = rw (t.same_names) q in
        rw (place_known s l i (t.indexed l.name ∙ q), index_of-some l.name ns i q)
          (record {
            same_names = names-set_at i l s.libs here ∙ t.same_names;
            indexed = t.indexed;
            distinct = t.distinct;
            last =
                map-set_at l o i s.libs here (rw (t.same_names) t.distinct)
                  (rw (t.same_names) t.last)
                ∙ ap (map (with_last l o)) t.same_names;
          })
    | inl q ↦
        rw (place_new s l (t.indexed l.name ∙ q), index_of-none l.name ns q)
          (record {
            same_names =
                map-push (λ m. m.name) s.libs l ∙ ap (λ xs. xs ++ (l.name ∷ [])) t.same_names;
            indexed = new_index q;
            distinct = Distinct-push l.name ns (index_of-none l.name ns q) t.distinct;
            last =
                map-push some s.libs l
                ∙ (ap (λ xs. xs ++ (some l ∷ []))
                      (t.last ∙ sym (map-with_last l o ns (index_of-none l.name ns q)))
                    ∙ (ap (λ x. map (with_last l o) ns ++ (x ∷ [])) (sym itself)
                        ∙ sym (map-push (with_last l o) ns l.name)));
          })
  ]

place_all-Tracks :
    (ls : List Library) (s : Libs) (ns : List Text) (o : Text → Option Library)
    → Tracks s ns o
    → Tracks (place_all s ls) (distinct_after ns (names ls)) (λ n. last_named n (o n) ls)
unfolding place_all distinct_after last_named
place_all-Tracks [] s ns o t = t
place_all-Tracks (l ∷ ls) s ns o t =
    place_all-Tracks ls (place s l) (names_with ns l) (with_last l o) (place-Tracks s ns o t l)

place_all-append :
    (ls ms : List Library) (s : Libs) → place_all s (ls ++ ms) ≡ place_all (place_all s ls) ms
unfolding place_all
place_all-append [] ms s = refl
place_all-append (l ∷ ls) ms s = place_all-append ls ms (place s l)

abbrev start : Libs
start = record { libs = []; seen = [] }

start-Tracks : Tracks start [] (λ n. none)
unfolding lookup index_of Distinct
start-Tracks = record { same_names = refl; indexed = λ n. refl; distinct = tt; last = refl }

module _ {V : Type 0} where
  merge_libraries_lem :
      (chain : List (VersionJson V)) (s : Libs)
      → merge_libraries s chain ≡ place_all s (all_libraries chain)
  unfolding merge_libraries all_libraries place_all
  merge_libraries_lem [] s = refl
  merge_libraries_lem (v ∷ vs) s =
      merge_libraries_lem vs (place_all s v.libraries)
      ∙ sym (place_all-append v.libraries (all_libraries vs) s)

  -- The libraries of a merged chain, first version first: each name once, at the place where it
  -- first occurs, with the last of the libraries of that name.
  pub libraries-merge_chain :
      (chain : List (VersionJson V))
      → map some ((merge_chain chain).libraries)
        ≡ map
            (λ n. last_named n none (all_libraries chain))
            (distinct_after [] (names (all_libraries chain)))
  unfolding merge_chain
  libraries-merge_chain chain =
      let all = all_libraries chain in
      let t : Tracks (place_all start all) (distinct_after [] (names all))
          (λ n. last_named n none all) =
        place_all-Tracks all start [] (λ n. none) start-Tracks in
      ap (λ s. map some s.libs) (merge_libraries_lem chain start) ∙ t.last
