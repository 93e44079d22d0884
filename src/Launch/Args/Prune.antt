-- ===== src/Launch/Args/Prune.antt =====
-- What the removal of arguments in launch/args.rs leaves.
use mathlib.Core.List.{append-nil, append_assoc}
use rc_launcher.Base.{
  is_nil, ◌+◌, ◌≡◌, refl, ap, sym, ◌∙◌, Option, none, some, List, [], ◌∷◌, ◌++◌, map, ◌⊎◌, map-push,
  All, arith, length, length-append, Bool-cases, inl, inr, ℕ, zero, suc, false, if◌then◌else◌,
}
use rc_launcher.Base.Text.{Text}
use rc_launcher.Launch.Args.{
  Substitutions, apply, unresolved, PrunedArgs, split_last, attach, drop_note, drop_behind,
  prune_one, prune_from, prune_unresolved, is_flag,
}

-- The first list is the second without some of its elements.
unfoldable pub Sublist : List Text → List Text → Type 0
Sublist [] ys = Unit {0}
Sublist (x ∷ xs) [] = ⊥
Sublist (x ∷ xs) (y ∷ ys) = ((x ≡ y) × Sublist xs ys) ⊎ Sublist (x ∷ xs) ys

pub Sublist-push :
    (xs ys : List Text) (a : Text) → Sublist xs ys → Sublist (xs ++ (a ∷ [])) (ys ++ (a ∷ []))
unfolding Sublist
Sublist-push [] [] a s = inl (refl, tt)
Sublist-push [] (y ∷ ys) a s = inr (Sublist-push [] ys a tt)
Sublist-push (x ∷ xs) [] a s = absurd s
Sublist-push (x ∷ xs) (y ∷ ys) a (inl (e, s)) = inl (e, Sublist-push xs ys a s)
Sublist-push (x ∷ xs) (y ∷ ys) a (inr s) = inr (Sublist-push (x ∷ xs) ys a s)

pub Sublist-behind : (xs ys : List Text) (a : Text) → Sublist xs ys → Sublist xs (ys ++ (a ∷ []))
unfolding Sublist
Sublist-behind [] ys a s = tt
Sublist-behind (x ∷ xs) [] a s = absurd s
Sublist-behind (x ∷ xs) (y ∷ ys) a (inl (e, s)) = inl (e, Sublist-behind xs ys a s)
Sublist-behind (x ∷ xs) (y ∷ ys) a (inr s) = inr (Sublist-behind (x ∷ xs) ys a s)

Sublist-init : (xs ys : List Text) (a : Text) → Sublist (xs ++ (a ∷ [])) ys → Sublist xs ys
unfolding Sublist
Sublist-init [] ys a s = tt
Sublist-init (x ∷ xs) [] a s = absurd s
Sublist-init (x ∷ xs) (y ∷ ys) a (inl (e, s)) = inl (e, Sublist-init xs ys a s)
Sublist-init (x ∷ xs) (y ∷ ys) a (inr s) = inr (Sublist-init (x ∷ xs) ys a s)

pub All-append {ℓ κ} :
    {A : Type ℓ} (P : A → Type κ) (xs ys : List A) → All P xs → All P ys → All P (xs ++ ys)
All-append P [] ys h k = k
All-append P (x ∷ xs) ys h k = (h.0, All-append P xs ys h.1 k)

pub All-before {ℓ κ} : {A : Type ℓ} (P : A → Type κ) (xs ys : List A) → All P (xs ++ ys) → All P xs
All-before P [] ys h = tt
All-before P (x ∷ xs) ys h = (h.0, All-before P xs ys h.1)

-- The list that was split.
abbrev rebuild : Option (List Text × Text) → List Text
rebuild none = []
rebuild (some (init, prev)) = init ++ (prev ∷ [])

rebuild-attach : (t : Text) (o : Option (List Text × Text)) → rebuild (attach t o) ≡ t ∷ rebuild o
rebuild-attach t none = refl
rebuild-attach t (some (init, prev)) = refl

rebuild-split_last : (ts : List Text) → rebuild (split_last ts) ≡ ts
unfolding split_last
rebuild-split_last [] = refl
rebuild-split_last (t ∷ ts) =
    rebuild-attach t (split_last ts) ∙ ap (λ us. t ∷ us) (rebuild-split_last ts)

List-cases {ℓ} : {A : Type ℓ} (xs : List A) → (xs ≡ []) ⊎ ((x : A) × (ys : List A) × (xs ≡ x ∷ ys))
List-cases [] = inl refl
List-cases (x ∷ xs) = inr (x, xs, refl)

-- What stays of the arguments `raws`: the arguments left have no placeholder without a value, and they
-- are expansions of arguments in their order.
record Pruned (subs : Substitutions) (raws : List Text) (p : PrunedArgs) : Type 0 where
  resolved : All (λ a. unresolved subs a ≡ []) p.args
  kept : Sublist p.args (map (apply subs) raws)

module _ (subs : Substitutions) where
  drop_value-Pruned :
      (raws : List Text) (raw note : Text) (p : PrunedArgs)
      → Pruned subs raws p
      → Pruned subs (raws ++ (raw ∷ [])) (record p { dropped = p.dropped ++ (note ∷ []) })
  drop_value-Pruned raws raw note p h = record {
    resolved = h.resolved;
    kept = rw (map-push (apply subs) raws raw) (Sublist-behind p.args _ (apply subs raw) h.kept);
  }

  drop_behind-Pruned :
      (o : Option (List Text × Text)) (raws : List Text) (raw note : Text) (p : PrunedArgs)
      → p.args ≡ rebuild o
      → Pruned subs raws p
      → Pruned subs (raws ++ (raw ∷ [])) (drop_behind o note p)
  unfolding drop_behind
  drop_behind-Pruned none raws raw note p e h = drop_value-Pruned raws raw note p h
  drop_behind-Pruned (some (init, prev)) raws raw note p e h = elim (Bool-cases (is_flag prev)) [
    | inr f ↦ rw (f) (drop_value-Pruned raws raw note p h)
    | inl f ↦ rw (f) (
        let all : All (λ a. unresolved subs a ≡ []) (init ++ (prev ∷ [])) = rw (sym e) h.resolved in
        let sub : Sublist (init ++ (prev ∷ [])) (map (apply subs) raws) = rw (sym e) h.kept in
        record {
          resolved = All-before _ init (prev ∷ []) all;
          kept =
              rw (map-push (apply subs) raws raw)
                (Sublist-behind init _ (apply subs raw) (Sublist-init init _ prev sub));
        })
  ]

  prune_one-Pruned :
      (raws : List Text) (raw : Text) (p : PrunedArgs)
      → Pruned subs raws p
      → Pruned subs (raws ++ (raw ∷ [])) (prune_one subs raw p)
  unfolding prune_one
  prune_one-Pruned raws raw p h = elim (List-cases (unresolved subs (apply subs raw))) [
    | inl e ↦
        rw (prune_one, e)
          (let l = length-append raws (raw ∷ []) in
            record {
              resolved = All-append _ p.args _ h.resolved (e, tt);
              kept =
                  rw (map-push (apply subs) raws raw)
                    (Sublist-push p.args _ (apply subs raw) h.kept);
            })
    | inr (key, keys, e) ↦
        rw (prune_one, e)
          (drop_behind-Pruned (split_last p.args) raws raw (drop_note raw (key ∷ keys)) p
            (sym (rebuild-split_last p.args)) h)
  ]

  prune_from-Pruned :
      (done raws : List Text) (p : PrunedArgs)
      → Pruned subs done p
      → Pruned subs (done ++ raws) (prune_from subs raws p)
  unfolding prune_from
  prune_from-Pruned done [] p h = rw (append-nil done) h
  prune_from-Pruned done (raw ∷ raws) p h = rw (sym (append_assoc done (raw ∷ []) raws)) (
      prune_from-Pruned (done ++ (raw ∷ [])) raws (prune_one subs raw p)
        (prune_one-Pruned done raw p h))

-- The arguments read from the last to the first: those that stay, and how many of those that are
-- dropped still look for a flag before them. A flag stays if none does, and any other argument with
-- all its placeholders filled in stays and ends the search.
stay_or_follow : Text → List Text × ℕ → List Text × ℕ
stay_or_follow a (rest, zero) = (a ∷ rest, 0)
stay_or_follow a (rest, suc n) = if is_flag a then (rest, n) else (a ∷ rest, 0)

pub survivors : Substitutions → List Text → List Text × ℕ
survivors subs [] = ([], 0)
survivors subs (raw ∷ raws) =
    let behind = survivors subs raws in
    if is_nil (unresolved subs (apply subs raw))
    then stay_or_follow (apply subs raw) behind
    else (behind.0, suc behind.1)

pub count_unresolved : Substitutions → List Text → ℕ
count_unresolved subs [] = 0
count_unresolved subs (raw ∷ raws) =
    let rest = count_unresolved subs raws in
    if is_nil (unresolved subs (apply subs raw)) then rest else rest + 1

-- The list without its last element, if that is a flag.
abbrev without_flag : Option (List Text × Text) → List Text
without_flag none = []
without_flag (some (init, prev)) = if is_flag prev then init else init ++ (prev ∷ [])

unfoldable drop_flags : ℕ → List Text → List Text
drop_flags zero args = args
drop_flags (suc n) args = drop_flags n (without_flag (split_last args))

split_last-push : (ts : List Text) (a : Text) → split_last (ts ++ (a ∷ [])) ≡ some (ts, a)
unfolding split_last
split_last-push [] a = refl
split_last-push (t ∷ ts) a = ap (attach t) (split_last-push ts a)

drop_flags-push :
    (n : ℕ) (args : List Text) (a : Text)
    → is_flag a ≡ false
    → drop_flags n (args ++ (a ∷ [])) ≡ args ++ (a ∷ [])
unfolding drop_flags
drop_flags-push zero args a h = refl
drop_flags-push (suc n) args a h = rw (split_last-push args a, h) (drop_flags-push n args a h)

drop_flags_nil : (n : ℕ) → drop_flags n [] ≡ []
unfolding drop_flags split_last
drop_flags_nil zero = refl
drop_flags_nil (suc n) = drop_flags_nil n

drop_behind-args :
    (o : Option (List Text × Text)) (note : Text) (p : PrunedArgs)
    → p.args ≡ rebuild o
    → ((drop_behind o note p).args ≡ without_flag o)
      × (length (drop_behind o note p).dropped ≡ length p.dropped + 1)
unfolding drop_behind
drop_behind-args none note p e = (e, length-append p.dropped (note ∷ []))
drop_behind-args (some (init, prev)) note p e = elim (Bool-cases (is_flag prev)) [
  | inl f ↦ rw (f) (refl, length-append p.dropped _)
  | inr f ↦ rw (f) (e, length-append p.dropped _)
]

stay_or_follow_lem :
    (a : Text) (args rest : List Text) (n : ℕ)
    → drop_flags n (args ++ (a ∷ [])) ++ rest
      ≡ drop_flags (stay_or_follow a (rest, n)).1 args ++ (stay_or_follow a (rest, n)).0
unfolding stay_or_follow drop_flags
stay_or_follow_lem a args rest zero = append_assoc args (a ∷ []) rest
stay_or_follow_lem a args rest (suc n) = elim (Bool-cases (is_flag a)) [
  | inl f ↦ rw (split_last-push args a, f) refl
  | inr f ↦
      rw (split_last-push args a, f)
        (ap (λ ts. ts ++ rest) (drop_flags-push n args a f) ∙ append_assoc args (a ∷ []) rest)
]

prune_one_filled :
    (subs : Substitutions) (raw : Text) (p : PrunedArgs)
    → unresolved subs (apply subs raw) ≡ []
    → prune_one subs raw p ≡ record p { args = p.args ++ (apply subs raw ∷ []) }
unfolding prune_one
prune_one_filled subs raw p e = rw (prune_one, e) refl

prune_one_missing :
    (subs : Substitutions) (raw : Text) (p : PrunedArgs) (key : Text) (keys : List Text)
    → unresolved subs (apply subs raw) ≡ key ∷ keys
    → prune_one subs raw p ≡ drop_behind (split_last p.args) (drop_note raw (key ∷ keys)) p
unfolding prune_one
prune_one_missing subs raw p key keys e = rw (prune_one, e) refl

prune_from-survivors :
    (subs : Substitutions) (raws : List Text) (p : PrunedArgs)
    → ((prune_from subs raws p).args
        ≡ drop_flags (survivors subs raws).1 p.args ++ (survivors subs raws).0)
      × (length (prune_from subs raws p).dropped ≡ length p.dropped + count_unresolved subs raws)
unfolding prune_from survivors count_unresolved drop_flags
prune_from-survivors subs [] p = unfold drop_flags in (sym (append-nil p.args), omega arith)
prune_from-survivors subs (raw ∷ raws) p = elim (List-cases (unresolved subs (apply subs raw))) [
  | inl e ↦
      let d : List Text = p.args ++ (apply subs raw ∷ []) in
      let (args, notes) = prune_from-survivors subs raws (record p { args = d }) in
      let one = prune_one_filled subs raw p e in
      rw (e) (
        ap (λ q. (prune_from subs raws q).args) one
            ∙ args
            ∙ stay_or_follow_lem (apply subs raw) p.args (survivors subs raws).0
                (survivors subs raws).1,
        ap (λ q. length (prune_from subs raws q).dropped) one ∙ notes,
      )
  | inr (key, keys, e) ↦
      let note = drop_note raw (key ∷ keys) in
      let q = drop_behind (split_last p.args) note p in
      let (args, notes) = prune_from-survivors subs raws q in
      let (flags, noted) =
        drop_behind-args (split_last p.args) note p (sym (rebuild-split_last p.args)) in
      let one = prune_one_missing subs raw p key keys e in
      rw (e) (
        ap (λ q. (prune_from subs raws q).args) one
            ∙ args
            ∙ ap (λ ts. drop_flags (survivors subs raws).1 ts ++ (survivors subs raws).0) flags,
        ap (λ q. length (prune_from subs raws q).dropped) one ∙ notes ∙ omega (arith, noted),
      )
]

-- What stays of any arguments is what a walk from the last to the first keeps: an argument with a
-- placeholder that has no value goes, and so does the flag in front of it, where arguments that went
-- for that reason are passed over, one flag for each. There is one note for each argument with such
-- a placeholder, the arguments that stay have no such placeholder, and they are expansions of
-- arguments in their order.
pub prune_unresolved-survivors :
    (subs : Substitutions) (raws : List Text)
    → ((prune_unresolved raws subs).args ≡ (survivors subs raws).0)
      × (length (prune_unresolved raws subs).dropped ≡ count_unresolved subs raws)
      × All (λ a. unresolved subs a ≡ []) (prune_unresolved raws subs).args
      × Sublist (prune_unresolved raws subs).args (map (apply subs) raws)
unfolding prune_unresolved Sublist
prune_unresolved-survivors subs raws =
    let none_yet : PrunedArgs = record { args = []; dropped = [] } in
    let (args, notes) = prune_from-survivors subs raws none_yet in
    let h = prune_from-Pruned subs [] raws none_yet (record { resolved = tt; kept = tt }) in
    (
      args ∙ ap (λ ts. ts ++ (survivors subs raws).0) (drop_flags_nil (survivors subs raws).1),
      notes ∙ omega arith,
      h.resolved,
      h.kept,
    )
