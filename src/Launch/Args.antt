-- ===== src/Launch/Args.antt =====
-- launch/args.rs: the table of placeholders and the expansion of `${key}`, the lists of arguments of
-- a manifest, and the removal of arguments with a placeholder that stayed.
pub mod Template
pub mod Prune
use rc_launcher.Base.{
  ℕ, zero, suc, Bool, true, false, ◌&&◌, ◌||◌, Option, none, some, List, [], ◌∷◌, ◌++◌, ok, err,
  ◌>>=◌, if◌then◌else◌, ◌==◌, ltb, length,
}
use rc_launcher.Base.Text.{Text, codes, text_eq, lookup, starts_with}
use rc_launcher.Error.{RcResult, launch, json}
use rc_launcher.Game.Library.{Rule, Features, last_verdict}
use rc_launcher.Game.Platform.{Platform}
use rc_launcher.Launch.Text.{split_once, join_with, split_whitespace}

-- `Substitutions`: the entries of the map
abbrev pub Substitutions : Type 0
Substitutions = List (Text × Text)

-- `Substitutions::set`
unfoldable pub set : Text → Text → Substitutions → Substitutions
set key value [] = (key, value) ∷ []
set key value ((k, v) ∷ subs) =
    let rest = set key value subs in if text_eq k key then (key, value) ∷ subs else (k, v) ∷ rest

abbrev pub is_some {ℓ} : {A : Type ℓ} → Option A → Bool
is_some none = false
is_some (some a) = true

-- `Substitutions::contains`
unfoldable pub defines : Substitutions → Text → Bool
defines subs key = is_some (lookup key subs)

-- What follows a `${` at the start of the text.
unfoldable pub after_open : Text → Option Text
after_open [] = none
after_open (c ∷ []) = none
after_open (c ∷ d ∷ t) = if (c == b'$') && (d == b'{') then some t else none

-- `${key}`
abbrev pub placeholder : Text → Text
placeholder key = b'$' ∷ b'{' ∷ (key ++ (b'}' ∷ []))

-- What a placeholder becomes: its value, or itself.
unfoldable pub fill_in : Substitutions → Text → Text
fill_in subs key = elim (lookup key subs) [ some v ↦ v | none ↦ placeholder key ]

-- The loop of `Substitutions::apply` on fuel: each round reads a character at least.
unfoldable pub apply_fuel : ℕ → Substitutions → Text → Text
apply_fuel zero subs t = []
apply_fuel (suc n) subs [] = []
apply_fuel (suc n) subs (c ∷ t) = elim (after_open (c ∷ t)) [
  | some after ↦ elim (split_once b'}' after) [
    | some (key, rest) ↦ fill_in subs key ++ apply_fuel n subs rest
    | none ↦ c ∷ t
  ]
  | none ↦ c ∷ apply_fuel n subs t
]

unfoldable pub apply : Substitutions → Text → Text
apply subs t = apply_fuel (length t) subs t

-- The loop of `Substitutions::unresolved`, on fuel.
unfoldable pub unresolved_fuel : ℕ → Substitutions → Text → List Text
unresolved_fuel zero subs t = []
unresolved_fuel (suc n) subs [] = []
unresolved_fuel (suc n) subs (c ∷ t) = elim (after_open (c ∷ t)) [
  | some after ↦ elim (split_once b'}' after) [
    | some (key, rest) ↦
        let missing = unresolved_fuel n subs rest in
        if defines subs key then missing else key ∷ missing
    | none ↦ []
  ]
  | none ↦ unresolved_fuel n subs t
]

unfoldable pub unresolved : Substitutions → Text → List Text
unresolved subs t = unresolved_fuel (length t) subs t

unfoldable pub rules_allow : List Rule → Platform → Features → Bool
rules_allow [] p have = true
rules_allow (r ∷ rs) p have = last_verdict p have false (r ∷ rs)

-- `split_legacy_arguments`
abbrev pub split_legacy_arguments : Text → List Text
split_legacy_arguments t = split_whitespace t

unfoldable pub is_flag : Text → Bool
is_flag t = starts_with (codes "-") t && ltb 1 (length t)

pub record PrunedArgs : Type 0 where
  pub args : List Text
  pub dropped : List Text

-- The list with an element more before it.
abbrev pub attach : Text → Option (List Text × Text) → Option (List Text × Text)
attach t none = some ([], t)
attach t (some (init, prev)) = some (t ∷ init, prev)

-- `out.last()` with the list before it
unfoldable pub split_last : List Text → Option (List Text × Text)
split_last [] = none
split_last (t ∷ ts) = attach t (split_last ts)

-- `{} (unresolved ${{{}}})`
unfoldable pub drop_note : Text → List Text → Text
drop_note raw missing =
    raw ++ (codes " (unresolved ${" ++ (join_with (codes "}, ${") missing ++ codes "})"))

-- An argument is dropped, and the flag before it, with the note for it.
unfoldable pub drop_behind : Option (List Text × Text) → Text → PrunedArgs → PrunedArgs
drop_behind none note p = record p { dropped = p.dropped ++ (note ∷ []) }
drop_behind (some (init, prev)) note p =
    if is_flag prev
    then record { args = init; dropped = p.dropped ++ ((prev ++ (b' ' ∷ note)) ∷ []) }
    else record p { dropped = p.dropped ++ (note ∷ []) }

-- The body of the loop of `prune_unresolved`
unfoldable pub prune_one : Substitutions → Text → PrunedArgs → PrunedArgs
prune_one subs raw p = elim (unresolved subs (apply subs raw)) [
  | [] ↦ record p { args = p.args ++ (apply subs raw ∷ []) }
  | key ∷ keys ↦ drop_behind (split_last p.args) (drop_note raw (key ∷ keys)) p
]

unfoldable pub prune_from : Substitutions → List Text → PrunedArgs → PrunedArgs
prune_from subs [] p = p
prune_from subs (raw ∷ args) p = prune_from subs args (prune_one subs raw p)

unfoldable pub prune_unresolved : List Text → Substitutions → PrunedArgs
prune_unresolved args subs = prune_from subs args (record { args = []; dropped = [] })

unfoldable pub has_flag : List Text → Text → Bool
has_flag [] flag = false
has_flag (a ∷ args) flag =
    let later = has_flag args flag in text_eq a flag || starts_with (flag ++ (b'=' ∷ [])) a || later

-- What the code uses of `serde_json::Value`: a string, whether it is an object, its fields, an array,
-- and `from_value` into rules.
pub record ArgumentJson (V : Type 0) : Type 0 where
  pub as_string : V → Option Text
  pub is_object : V → Bool
  pub get : V → Text → Option V
  pub as_array : V → Option (List V)
  pub to_rules : V → Option (List Rule)

module _ {V : Type 0} (j : ArgumentJson V) where
  -- The loop over the elements of a value.
  unfoldable pub flatten_items : List V → RcResult (List Text)
  flatten_items [] = ok []
  flatten_items (it ∷ items) = elim (j.as_string it) [
    | some s ↦ flatten_items items >>= λ out. ok (s ∷ out)
    | none ↦ err (launch "malformed argument value element")
  ]

  -- A list of strings, if it is one.
  unfoldable pub flatten_list : Option (List V) → RcResult (List Text)
  flatten_list (some items) = flatten_items items
  flatten_list none = err (launch "malformed argument entry (no usable `value`)")

  -- The `match` on `obj.get("value")`
  unfoldable pub flatten_value : Option V → RcResult (List Text)
  flatten_value none = err (launch "malformed argument entry (no usable `value`)")
  flatten_value (some v) = elim (j.as_string v) [
    | some s ↦ ok (s ∷ [])
    | none ↦ flatten_list (j.as_array v)
  ]

  -- The rules of an entry: none, if it has no field for them.
  unfoldable pub entry_rules : V → RcResult (List Rule)
  entry_rules v = elim (j.get v (codes "rules")) [
    | none ↦ ok []
    | some r ↦ elim (j.to_rules r) [ none ↦ err (json "rules") | some rules ↦ ok rules ]
  ]

  -- What one entry of the list adds to the arguments.
  unfoldable pub flatten_entry : Platform → Features → V → RcResult (List Text)
  flatten_entry p have v = elim (j.as_string v) [
    | some s ↦ ok (s ∷ [])
    | none ↦
        if j.is_object v
        then entry_rules v >>= (λ rules.
          if rules_allow rules p have then flatten_value (j.get v (codes "value")) else ok [])
        else err (launch "malformed argument entry")
  ]

  unfoldable pub flatten_arguments : Platform → Features → List V → RcResult (List Text)
  flatten_arguments p have [] = ok []
  flatten_arguments p have (v ∷ vs) =
      flatten_entry p have v >>= λ out. flatten_arguments p have vs >>= λ rest. ok (out ++ rest)
