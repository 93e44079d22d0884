-- ===== src/Launch/Merge.antt =====
-- launch/command.rs: the JVM arguments of the manifest and of the user behind those of the launcher.
pub mod Flags
pub mod Keys
use rc_launcher.Base.{
  ℕ, max, Bool, true, false, not, ◌&&◌, ◌||◌, Option, none, some, List, [], ◌∷◌, ◌++◌, map, ok, err,
  ◌>>=◌, ◌>>◌, if◌then◌else◌, ◌==◌,
}
use rc_launcher.Base.Text.{Text, codes, text_eq, starts_with}
use rc_launcher.Error.{RcResult, launch}
use rc_launcher.Game.Plan.{and_then}
use rc_launcher.Game.Version.{ResolvedVersion, VersionArguments, AssetIndexRef, or_else}
use rc_launcher.Launch.Args.{
  Substitutions, set, apply, ArgumentJson, flatten_arguments, split_legacy_arguments, PrunedArgs,
  prune_unresolved, has_flag,
}
use rc_launcher.Launch.Bridge.{
  AwtBridge, AwtTransport, headless_bridge, transport_in_dir, bridge_args, bridge_notes,
}
use rc_launcher.Launch.Bridge.Bundle.{
  AwtBackend, backend_for_java, artifacts, scan_bundle, CacioBundle,
}
use rc_launcher.Launch.Classpath.{Classpath}
use rc_launcher.Launch.Command.{LaunchCommand, is_classpath_flag, property_key, validate_command}
use rc_launcher.Launch.Env.{set_all, library_path, join_paths, path_sep, build_env}
use rc_launcher.Launch.Options.{
  LaunchOptions, ServerAddress, QuickPlay, no_quick_play, singleplayer, multiplayer, realms,
  user_type_str, platform, features, natives_dir_for, libraries_dir, assets_dir, client_jar_for,
  java_executable, validate_options, refuse_if, memory_args, gl_libname, account_secrets,
}
use rc_launcher.Launch.Path.{join_path, is_empty_text}
use rc_launcher.Launch.Text.{show_nat, join_with, has_text}
use rc_launcher.Launch.Noted.{Noted, add_note, drop_notes}
use rc_launcher.Mods.Constraint.{trim}
use rc_launcher.Runtime.{JavaVersion, java8}

-- `REPLACED_JVM_PREFIXES.iter().find(..)`
unfoldable pub replaced_prefix : List Text → Text → Option Text
replaced_prefix [] arg = none
replaced_prefix (p ∷ ps) arg =
    let later = replaced_prefix ps arg in if starts_with p arg then some p else later

abbrev pub replaced_jvm_prefixes : List Text
replaced_jvm_prefixes = codes "-Djava.library.path=" ∷ codes "-XX:HeapDumpPath=" ∷ []

-- Whether an argument gives a property a value, or defines it without one.
unfoldable pub defines_property : Text → List Text → Bool
defines_property key [] = false
defines_property key (e ∷ args) =
    let later = defines_property key args in
    text_eq e key || starts_with (key ++ (b'=' ∷ [])) e || later

-- `-Dkey` of the argument is there already.
unfoldable pub is_overridden : Option Text → List Text → Bool
is_overridden none args = false
is_overridden (some key) args = defines_property key args

-- A manifest argument that is no class path flag.
unfoldable pub take_manifest : Text → Option Text → Noted → Noted
take_manifest arg (some prefix) s = record s {
  notes = s.notes ++ ((codes "replaced manifest jvm argument " ++ (prefix ++ codes "…")) ∷ []);
}
take_manifest arg none s =
    if is_overridden (property_key arg) s.args then s else record s { args = s.args ++ (arg ∷ []) }

abbrev pub cp_replaced : Text
cp_replaced = codes "replaced the manifest classpath with the assembled one"

abbrev pub cp_ignored : Text
cp_ignored = codes "ignored user -cp: the launcher assembles the classpath itself"

-- The loop over the manifest's JVM arguments; the flag is `skip_value`.
unfoldable pub merge_manifest : List Text → Bool → Noted → Noted
merge_manifest [] skip_value s = s
merge_manifest (arg ∷ args) true s = merge_manifest args false s
merge_manifest (arg ∷ args) false s = merge_manifest args (is_classpath_flag arg) (
    if is_classpath_flag arg
    then add_note cp_replaced s
    else take_manifest arg (replaced_prefix replaced_jvm_prefixes arg) s)

-- The loop over the user's JVM arguments
unfoldable pub merge_user : List Text → Bool → Noted → Noted
merge_user [] skip_value s = s
merge_user (arg ∷ args) true s = merge_user args false s
merge_user (arg ∷ args) false s = merge_user args (is_classpath_flag arg) (
    if is_classpath_flag arg
    then add_note cp_ignored s
    else record s { args = s.args ++ (arg ∷ []) })
