-- ===== src/Launch/Merge/Flags.antt =====
-- The class path flags among the JVM arguments of launch/command.rs: none but the launcher's own.
use rc_launcher.Base.{
  ◌≡◌, refl, Bool, true, false, Option, none, some, List, [], ◌∷◌, ◌++◌, Bool-cases, inl, inr,
  or_false, ℕ,
}
use rc_launcher.Base.Text.{Text, text_eq, contains}
use rc_launcher.Launch.BaseArgs.{
  Outside, base_jvm_args, fixed_jvm_args, processor_args, encoding_args, jna_args, logging_argument,
  awt_bridge,
}
use rc_launcher.Launch.Bridge.{
  AwtTransport, bridge_args, desktop_args, backend_args, transport_args, boot_arg, agent_arg,
  listed, live_args, jars_with_role,
}
use rc_launcher.Launch.Bridge.Bundle.{
  AwtBackend, headless, cacio8, cacio17, CacioBundle, toolkit, graphics_env, is_graphical,
  on_boot_classpath, agent,
}
use rc_launcher.Launch.Command.{has_classpath_flag, is_classpath_flag, property_key}
use rc_launcher.Launch.Merge.{
  merge_manifest, merge_user, take_manifest, replaced_prefix, replaced_jvm_prefixes, is_overridden,
}
use rc_launcher.Launch.Noted.{Noted}
use rc_launcher.Launch.Options.{
  LaunchOptions, MemoryOptions, WindowSize, memory_args, min_heap_args,
}
use rc_launcher.Game.Version.{ResolvedVersion}
use rc_launcher.Runtime.{JavaVersion, java8, java17, java21, java25}

-- No argument is a class path flag.
abbrev pub Flagless : List Text → Type 0
Flagless args = has_classpath_flag args ≡ false

pub Flagless-append : (xs ys : List Text) → Flagless xs → Flagless ys → Flagless (xs ++ ys)
unfolding has_classpath_flag
Flagless-append [] ys h k = k
Flagless-append (x ∷ xs) ys h k =
    let o = or_false (is_classpath_flag x) (has_classpath_flag xs) h in
    rw (o.0, Flagless-append xs ys o.1 k) refl

Flagless-push :
    (xs : List Text) (x : Text)
    → Flagless xs
    → is_classpath_flag x ≡ false
    → Flagless (xs ++ (x ∷ []))
unfolding has_classpath_flag
Flagless-push xs x h k = Flagless-append xs (x ∷ []) h (rw (k) refl)

take_manifest-Flagless :
    (arg : Text) (found : Option Text) (s : Noted)
    → is_classpath_flag arg ≡ false
    → Flagless s.args
    → Flagless (take_manifest arg found s).args
unfolding take_manifest
take_manifest-Flagless arg (some prefix) s f h = h
take_manifest-Flagless arg none s f h =
    elim (Bool-cases (is_overridden (property_key arg) s.args)) [
      | inl b ↦ rw (b) h
      | inr b ↦ rw (b) (Flagless-push s.args arg h f)
    ]

pub merge_manifest-Flagless :
    (args : List Text) (skip_value : Bool) (s : Noted)
    → Flagless s.args
    → Flagless (merge_manifest args skip_value s).args
unfolding merge_manifest
merge_manifest-Flagless [] skip_value s h = h
merge_manifest-Flagless (arg ∷ args) true s h = merge_manifest-Flagless args false s h
merge_manifest-Flagless (arg ∷ args) false s h = elim (Bool-cases (is_classpath_flag arg)) [
  | inl b ↦ rw (merge_manifest, b) (merge_manifest-Flagless args true _ h)
  | inr b ↦
      let found = replaced_prefix replaced_jvm_prefixes arg in
      rw (merge_manifest, b)
        (merge_manifest-Flagless args false _ (take_manifest-Flagless arg found s b h))
]

pub merge_user-Flagless :
    (args : List Text) (skip_value : Bool) (s : Noted)
    → Flagless s.args
    → Flagless (merge_user args skip_value s).args
unfolding merge_user
merge_user-Flagless [] skip_value s h = h
merge_user-Flagless (arg ∷ args) true s h = merge_user-Flagless args false s h
merge_user-Flagless (arg ∷ args) false s h = elim (Bool-cases (is_classpath_flag arg)) [
  | inl b ↦ rw (merge_user, b) (merge_user-Flagless args true _ h)
  | inr b ↦ rw (merge_user, b) (merge_user-Flagless args false _ (Flagless-push s.args arg h b))
]

min_heap_args-Flagless : (least : Option ℕ) → Flagless (min_heap_args least)
unfolding min_heap_args has_classpath_flag is_classpath_flag contains text_eq
min_heap_args-Flagless none = refl
min_heap_args-Flagless (some least) = refl

memory_args-Flagless : (m : MemoryOptions) → Flagless (memory_args m)
unfolding memory_args has_classpath_flag is_classpath_flag contains text_eq
memory_args-Flagless m =
    Flagless-append (min_heap_args m.min_mb) _ (min_heap_args-Flagless m.min_mb) refl

processor_args-Flagless : (n : Option ℕ) → Flagless (processor_args n)
unfolding processor_args has_classpath_flag is_classpath_flag contains text_eq
processor_args-Flagless none = refl
processor_args-Flagless (some n) = refl

encoding_args-Flagless : (java : JavaVersion) → Flagless (encoding_args java)
unfolding encoding_args has_classpath_flag is_classpath_flag contains text_eq
encoding_args-Flagless java8 = refl
encoding_args-Flagless java17 = refl
encoding_args-Flagless java21 = refl
encoding_args-Flagless java25 = refl

jna_args-Flagless : (dir : Option Text) → Flagless (jna_args dir)
unfolding jna_args has_classpath_flag is_classpath_flag contains text_eq
jna_args-Flagless none = refl
jna_args-Flagless (some dir) = refl

fixed_jvm_args-Flagless : (o : LaunchOptions) (path : Text) → Flagless (fixed_jvm_args o path)
unfolding fixed_jvm_args has_classpath_flag is_classpath_flag contains text_eq
fixed_jvm_args-Flagless o path =
    Flagless-append (memory_args o.memory) _ (memory_args-Flagless o.memory) (
      Flagless-append (processor_args o.processor_count) _
        (processor_args-Flagless o.processor_count)
        (Flagless-append (encoding_args o.java_version) _ (encoding_args-Flagless o.java_version) (
          Flagless-append (jna_args o.native_lib_dir) _ (jna_args-Flagless o.native_lib_dir) refl)))

boot_arg-Flagless : (jars : List Text) → Flagless (listed (boot_arg jars))
unfolding has_classpath_flag is_classpath_flag contains text_eq
boot_arg-Flagless [] = refl
boot_arg-Flagless (jar ∷ jars) = refl

agent_arg-Flagless : (jars : List Text) → Flagless (listed (agent_arg jars))
unfolding has_classpath_flag is_classpath_flag contains text_eq
agent_arg-Flagless [] = refl
agent_arg-Flagless (jar ∷ jars) = refl

backend_args-Flagless :
    (backend : AwtBackend) (bundle : Option CacioBundle) → Flagless (backend_args backend bundle)
unfolding backend_args has_classpath_flag is_classpath_flag contains text_eq
backend_args-Flagless headless bundle = refl
backend_args-Flagless cacio8 bundle = boot_arg-Flagless (jars_with_role on_boot_classpath bundle)
backend_args-Flagless cacio17 bundle = agent_arg-Flagless (jars_with_role agent bundle)

live_args-Flagless : (t : Option AwtTransport) → Flagless (live_args t)
unfolding transport_args has_classpath_flag is_classpath_flag contains text_eq
live_args-Flagless none = refl
live_args-Flagless (some t) = refl

desktop_args-Flagless :
    (backend : AwtBackend) (screen : WindowSize) (bundle : Option CacioBundle)
    (t : Option AwtTransport)
    → Flagless (desktop_args backend screen bundle t)
unfolding desktop_args is_graphical toolkit graphics_env has_classpath_flag is_classpath_flag
    contains text_eq
desktop_args-Flagless headless screen bundle t = refl
desktop_args-Flagless cacio8 screen bundle t =
    Flagless-append (backend_args cacio8 bundle) _ (backend_args-Flagless cacio8 bundle)
      (live_args-Flagless t)
desktop_args-Flagless cacio17 screen bundle t =
    Flagless-append (backend_args cacio17 bundle) _ (backend_args-Flagless cacio17 bundle)
      (live_args-Flagless t)

-- The JVM arguments of the launcher have no class path flag, unless the template of the logging
-- configuration is one.
pub base_jvm_args-Flagless :
    {V : Type 0} (x : Outside V) (o : LaunchOptions) (v : ResolvedVersion V) (path : Text)
    → Flagless (logging_argument x o v).args
    → Flagless (base_jvm_args x o v path).args
unfolding base_jvm_args
base_jvm_args-Flagless x o v path h =
    Flagless-append (fixed_jvm_args o path) _ (fixed_jvm_args-Flagless o path) (
      Flagless-append (bridge_args (awt_bridge x.jars o)) _
        (desktop_args-Flagless _ _ _ (awt_bridge x.jars o).transport) h)
