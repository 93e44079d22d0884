-- ===== src/Launch/Merge/Keys.antt =====
-- What the loops of launch/command.rs over the JVM arguments add: those of the manifest that redefine
-- no property, and those of the user as they are.
use mathlib.Core.List.{append-nil, append_assoc}
use rc_launcher.Base.{
  arith, not, ◌&&◌, ◌≡◌, refl, ap, sym, ◌∙◌, Bool, true, false, none, List, [], ◌∷◌, ◌++◌,
  Bool-cases, inl, inr, or_false, if◌then◌else◌,
}
use rc_launcher.Base.Text.{Text}
use rc_launcher.Launch.Args.{is_some}
use rc_launcher.Launch.Command.{has_classpath_flag, is_classpath_flag, property_key}
use rc_launcher.Launch.Merge.{
  merge_manifest, merge_user, take_manifest, replaced_prefix, replaced_jvm_prefixes, is_overridden,
}
use rc_launcher.Launch.Noted.{Noted}

-- The arguments without the class path flags and the values behind them.
unfoldable pub without_classpath : List Text → Bool → List Text
without_classpath [] skip_value = []
without_classpath (arg ∷ args) true = without_classpath args false
without_classpath (arg ∷ args) false =
    let rest = without_classpath args (is_classpath_flag arg) in
    if is_classpath_flag arg then rest else arg ∷ rest

-- Whether a manifest argument stands behind `before`: the launcher does not replace it, and no
-- argument before it defines its property.
stands : List Text → Text → Bool
stands before arg =
    not (is_some (replaced_prefix replaced_jvm_prefixes arg))
    && not (is_overridden (property_key arg) before)

-- The arguments that stand, in their order, each behind those that were chosen.
pub chosen : List Text → List Text → List Text
chosen before [] = []
chosen before (arg ∷ args) = elim (stands before arg) [
  | true ↦ arg ∷ chosen (before ++ (arg ∷ [])) args
  | false ↦ chosen before args
]

-- Each argument is none that the launcher replaces, and defines no property that an argument before
-- it defines.
unfoldable pub Unopposed : List Text → List Text → Type 0
Unopposed before [] = Unit {0}
Unopposed before (a ∷ added) =
    (replaced_prefix replaced_jvm_prefixes a ≡ none)
    × (is_overridden (property_key a) before ≡ false)
    × Unopposed (before ++ (a ∷ [])) added

unopposed :
    (before : List Text) (arg : Text)
    → stands before arg ≡ true
    → (replaced_prefix replaced_jvm_prefixes arg ≡ none)
      × (is_overridden (property_key arg) before ≡ false)
unfolding stands
unopposed before arg h = ground arith

pub chosen-Unopposed : (before args : List Text) → Unopposed before (chosen before args)
unfolding chosen Unopposed
chosen-Unopposed before [] = tt
chosen-Unopposed before (arg ∷ args) = elim (Bool-cases (stands before arg)) [
  | inl h ↦
      let (a, b) = unopposed before arg h in
      rw (h, chosen) (a, b, chosen-Unopposed (before ++ (arg ∷ [])) args)
  | inr h ↦ rw (h, chosen) (chosen-Unopposed before args)
]

take_manifest-stands :
    (arg : Text) (s : Noted)
    → (take_manifest arg (replaced_prefix replaced_jvm_prefixes arg) s).args
      ≡ (if stands s.args arg then s.args ++ (arg ∷ []) else s.args)
unfolding take_manifest stands
take_manifest-stands arg s = ground arith

chosen_step :
    (before : List Text) (arg : Text) (args after : List Text)
    → after ≡ (if stands before arg then before ++ (arg ∷ []) else before)
    → after ++ chosen after args ≡ before ++ chosen before (arg ∷ args)
unfolding chosen
chosen_step before arg args after e = elim (Bool-cases (stands before arg)) [
  | inl h ↦
      let q : after ≡ before ++ (arg ∷ []) = e ∙ (rw (h) refl) in
      rw (h, chosen) (rw (q) (append_assoc before (arg ∷ []) (chosen (before ++ (arg ∷ [])) args)))
  | inr h ↦ let q : after ≡ before = e ∙ (rw (h) refl) in rw (h, chosen) (rw (q) refl)
]

-- The loop adds, of the arguments that are no class path, those that stand.
pub merge_manifest-chosen :
    (args : List Text) (skip_value : Bool) (s : Noted)
    → (merge_manifest args skip_value s).args
      ≡ s.args ++ chosen s.args (without_classpath args skip_value)
unfolding merge_manifest without_classpath
merge_manifest-chosen [] skip_value s = unfold chosen in sym (append-nil s.args)
merge_manifest-chosen (arg ∷ args) true s = merge_manifest-chosen args false s
merge_manifest-chosen (arg ∷ args) false s = elim (Bool-cases (is_classpath_flag arg)) [
  | inl b ↦ rw (merge_manifest, b, without_classpath) (merge_manifest-chosen args true _)
  | inr b ↦
      rw (merge_manifest, b, without_classpath)
        (merge_manifest-chosen args false
            (take_manifest arg (replaced_prefix replaced_jvm_prefixes arg) s)
          ∙ chosen_step s.args arg (without_classpath args false) _ (take_manifest-stands arg s))
]

pub merge_user-without_classpath :
    (args : List Text) (skip_value : Bool) (s : Noted)
    → (merge_user args skip_value s).args ≡ s.args ++ without_classpath args skip_value
unfolding merge_user without_classpath
merge_user-without_classpath [] skip_value s = sym (append-nil s.args)
merge_user-without_classpath (arg ∷ args) true s = merge_user-without_classpath args false s
merge_user-without_classpath (arg ∷ args) false s = elim (Bool-cases (is_classpath_flag arg)) [
  | inl b ↦ rw (merge_user, b, without_classpath) (merge_user-without_classpath args true _)
  | inr b ↦
      rw (merge_user, b, without_classpath)
        (merge_user-without_classpath args false _
          ∙ append_assoc s.args (arg ∷ []) (without_classpath args false))
]

pub without_classpath-same :
    (args : List Text) → has_classpath_flag args ≡ false → without_classpath args false ≡ args
unfolding without_classpath has_classpath_flag
without_classpath-same [] h = refl
without_classpath-same (arg ∷ args) h =
    let o = or_false (is_classpath_flag arg) (has_classpath_flag args) h in
    rw (without_classpath, o.0) (ap (λ ts. arg ∷ ts) (without_classpath-same args o.1))
