-- ===== src/Launch/Build/Sound.antt =====
-- What a command line that launch/command.rs builds is made of.
use rc_launcher.Base.{◌≡◌, false, List, [], ◌∷◌, ◌++◌, ok}
use rc_launcher.Base.Text.{Text, codes}
use rc_launcher.Game.Version.{ResolvedVersion}
use rc_launcher.Launch.Args.{prune_unresolved}
use rc_launcher.Launch.BaseArgs.{Outside, base_jvm_args}
use rc_launcher.Launch.Build.{jvm_args, table, manifest_jvm}
use rc_launcher.Launch.Classpath.{Classpath}
use rc_launcher.Launch.Command.{LaunchCommand, command_args, any_placeholder}
use rc_launcher.Launch.Env.{path_sep, library_path, join_paths}
use rc_launcher.Launch.GameArgs.{game_args}
use rc_launcher.Launch.Merge.Flags.{Flagless}
use rc_launcher.Launch.Merge.Keys.{Unopposed, chosen, without_classpath}
use rc_launcher.Launch.Noted.{Noted}
use rc_launcher.Launch.Options.{LaunchOptions}
use rc_launcher.Launch.Path.{is_empty_text}
use rc_launcher.Launch.Text.{join_with}
use rc_launcher.Mods.Constraint.{trim}

-- The JVM arguments of a build: those of the launcher, those of the manifest that stand behind them,
-- which redefine no property, and those of the user, both but for a class path, and no class path
-- flag among them.
pub record JvmArgs (base manifest user after : List Text) : Type 0 where
  pub parts :
      after ≡ base ++ chosen base (without_classpath manifest false) ++ without_classpath user false
  pub unopposed : Unopposed base (chosen base (without_classpath manifest false))
  pub flagless : Flagless after

module _ {V : Type 0} (x : Outside V) (o : LaunchOptions) (v : ResolvedVersion V) where
  -- A command that was built: its JVM arguments end with the one class path flag, its game arguments
  -- with those of the user, no placeholder is left, and the main class is not blank.
  pub record Built (cp : Classpath) (c : LaunchCommand) : Type 0 where
    pub manifest : List Text
    pub flattened : manifest_jvm x o v.arguments ≡ ok manifest
    pub before : List Text
    pub own : List Text
    pub jvm :
        JvmArgs
          (base_jvm_args x o v (join_paths (library_path o v.id cp.native_dirs))).args
          (prune_unresolved manifest (table x o v cp)).args
          o.extra_jvm_args
          before
    pub class_path : c.jvm_args ≡ before ++ (codes "-cp" ∷ join_with path_sep cp.entries ∷ [])
    pub game : c.game_args ≡ own ++ o.extra_game_args
    pub resolved : any_placeholder (command_args c) ≡ false
    pub main : is_empty_text (trim c.main_class) ≡ false
