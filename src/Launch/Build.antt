-- ===== src/Launch/Build.antt =====
-- launch/command.rs: the builder of a command line, from the options, the version and the class path.
pub mod Sound
use rc_launcher.Base.{
  is_nil, ℕ, max, Bool, true, false, not, ◌&&◌, ◌||◌, Option, none, some, List, [], ◌∷◌, ◌++◌, map,
  ok, err, ◌>>=◌, ◌>>◌, if◌then◌else◌, ◌==◌,
}
use rc_launcher.Base.Text.{Text, codes, text_eq, starts_with}
use rc_launcher.Error.{RcResult, launch}
use rc_launcher.Game.Plan.{and_then}
use rc_launcher.Game.Version.{ResolvedVersion, VersionArguments, AssetIndexRef, or_else}
use rc_launcher.Launch.Args.{
  Substitutions, set, apply, ArgumentJson, flatten_arguments, split_legacy_arguments, PrunedArgs,
  prune_unresolved, has_flag,
}
use rc_launcher.Launch.Bridge.{
  AwtBridge, AwtTransport, headless_bridge, transport_in_dir, bridge_args, bridge_notes,
}
use rc_launcher.Launch.Bridge.Bundle.{
  AwtBackend, backend_for_java, artifacts, scan_bundle, CacioBundle,
}
use rc_launcher.Launch.Classpath.{Classpath}
use rc_launcher.Launch.Command.{LaunchCommand, is_classpath_flag, property_key, validate_command}
use rc_launcher.Launch.Env.{set_all, library_path, join_paths, path_sep, build_env}
use rc_launcher.Launch.Options.{
  LaunchOptions, ServerAddress, QuickPlay, no_quick_play, singleplayer, multiplayer, realms,
  user_type_str, platform, features, natives_dir_for, libraries_dir, assets_dir, client_jar_for,
  java_executable, validate_options, refuse_if, memory_args, gl_libname, account_secrets,
}
use rc_launcher.Launch.Path.{join_path, is_empty_text}
use rc_launcher.Launch.Text.{show_nat, join_with, has_text}
use rc_launcher.Launch.Noted.{Noted, add_note, drop_notes}
use rc_launcher.Launch.Table.{or_value, assets_index, substitutions, optional_pair}
use rc_launcher.Launch.BaseArgs.{Outside, BundleJars, base_jvm_args}
use rc_launcher.Launch.Merge.{merge_manifest, merge_user}
use rc_launcher.Launch.GameArgs.{game_args}
use rc_launcher.Mods.Constraint.{trim}
use rc_launcher.Runtime.{JavaVersion, java8}

module _ {V : Type 0} (x : Outside V) where
  -- The list of the manifest, flattened; an empty one is no list.
  unfoldable pub manifest_jvm : LaunchOptions → Option (VersionArguments V) → RcResult (List Text)
  manifest_jvm o none = ok []
  manifest_jvm o (some a) = flatten_arguments x.json (platform o) (features o) a.jvm

  -- The JVM arguments before the class path
  unfoldable pub jvm_args :
      LaunchOptions → ResolvedVersion V → Substitutions → Text → RcResult Noted
  jvm_args o v subs java_library_path = manifest_jvm o v.arguments >>= λ manifest.
      let base = base_jvm_args x o v java_library_path in
      let pruned = prune_unresolved manifest subs in
      ok (
        merge_user o.extra_jvm_args false (
          merge_manifest pruned.args false (record {
            args = base.args;
            notes = base.notes ++ drop_notes (codes "dropped jvm argument: ") pruned.dropped;
          })))

  -- The main class, unless it is missing or blank.
  unfoldable pub main_class_of : Option Text → RcResult Text
  main_class_of none = err (launch "version declares no mainClass")
  main_class_of (some m) =
      if is_empty_text (trim m) then err (launch "version declares no mainClass") else ok m

  unfoldable pub assemble :
      LaunchOptions → ResolvedVersion V → Classpath → Text → Noted → Noted → LaunchCommand
  assemble o v cp main_class jvm game = record {
    program = java_executable o;
    jvm_args = jvm.args ++ (codes "-cp" ∷ join_with path_sep cp.entries ∷ []);
    main_class = main_class;
    game_args = game.args;
    working_dir = o.game_dir;
    env = build_env o v.id cp.native_dirs;
    version_id = v.id;
    notes = game.notes;
    secrets = account_secrets o.account;
  }

  abbrev pub table : LaunchOptions → ResolvedVersion V → Classpath → Substitutions
  table o v cp = substitutions o v (join_with path_sep cp.entries) (natives_dir_for o v.id)

  -- `CommandBuilder::build`
  unfoldable pub build : LaunchOptions → ResolvedVersion V → Classpath → RcResult LaunchCommand
  build o v cp =
      validate_options o
      >> (refuse_if (is_empty_text (trim v.id)) "resolved version has no id"
          >> (main_class_of v.main_class >>= λ main_class.
              refuse_if (is_nil cp.entries) "classpath for version is empty"
              >> (jvm_args o v (table o v cp) (join_paths (library_path o v.id cp.native_dirs))
                  >>= λ jvm. game_args x o v (table o v cp) jvm.notes >>= λ game.
                      let command = assemble o v cp main_class jvm game in
                      validate_command command >> ok command)))
