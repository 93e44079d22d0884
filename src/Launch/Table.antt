-- ===== src/Launch/Table.antt =====
-- launch/command.rs: the table of the placeholders.
use rc_launcher.Base.{Option, none, some, List, [], ◌∷◌, ◌++◌}
use rc_launcher.Base.Text.{Text, codes}
use rc_launcher.Game.Version.{ResolvedVersion, AssetIndexRef, or_else}
use rc_launcher.Launch.Args.{Substitutions}
use rc_launcher.Launch.Env.{set_all, path_sep}
use rc_launcher.Launch.Options.{
  LaunchOptions, QuickPlay, no_quick_play, singleplayer, multiplayer, realms, user_type_str,
  libraries_dir, assets_dir, client_jar_for,
}
use rc_launcher.Launch.Path.{join_path}
use rc_launcher.Launch.Text.{show_nat}

abbrev pub or_value : Text → Option Text → Text
or_value t none = t
or_value t (some u) = u

-- A placeholder that is set only if there is a value.
abbrev pub optional_pair : Text → Option Text → List (Text × Text)
optional_pair key none = []
optional_pair key (some v) = (key, v) ∷ []

abbrev quick_pairs : LaunchOptions → QuickPlay → List (Text × Text)
quick_pairs o no_quick_play = []
quick_pairs o (singleplayer world) =
    (codes "quickPlaySingleplayer", world)
    ∷ (
      codes "quickPlayPath",
      join_path (join_path o.game_dir (codes "quickPlay")) (codes "log.json"),
    )
    ∷ []
quick_pairs o (multiplayer address) =
    (codes "quickPlayMultiplayer", address)
    ∷ (
      codes "quickPlayPath",
      join_path (join_path o.game_dir (codes "quickPlay")) (codes "log.json"),
    )
    ∷ []
quick_pairs o (realms id) =
    (codes "quickPlayRealms", id)
    ∷ (
      codes "quickPlayPath",
      join_path (join_path o.game_dir (codes "quickPlay")) (codes "log.json"),
    )
    ∷ []

abbrev index_id : Option AssetIndexRef → Option Text
index_id none = none
index_id (some a) = some a.id

module _ {V : Type 0} where
  unfoldable pub assets_index : ResolvedVersion V → Text
  assets_index v = or_value (codes "legacy") (or_else (index_id v.asset_index) v.assets)

  -- `CommandBuilder::substitutions`
  unfoldable pub substitutions : LaunchOptions → ResolvedVersion V → Text → Text → Substitutions
  substitutions o v classpath natives_dir =
      set_all
        ((codes "auth_player_name", o.account.username)
          ∷ (codes "auth_uuid", o.account.uuid)
          ∷ (codes "auth_access_token", o.account.access_token)
          ∷ (
            codes "auth_session",
            codes "token:" ++ (o.account.access_token ++ (b':' ∷ o.account.uuid)),
          )
          ∷ (codes "user_type", user_type_str o.account.user_type)
          ∷ (codes "user_properties", o.account.user_properties)
          ∷ (codes "profile_name", o.account.username)
          ∷ (optional_pair (codes "auth_xuid") o.account.xuid
              ++ (optional_pair (codes "clientid") o.account.client_id
                  ++ ((codes "version_name", v.id)
                      ∷ (codes "version_type", or_value o.launcher_name v.kind)
                      ∷ (codes "launcher_name", o.launcher_name)
                      ∷ (codes "launcher_version", o.launcher_version)
                      ∷ (codes "game_directory", o.game_dir)
                      ∷ (codes "assets_root", assets_dir o)
                      ∷ (codes "assets_index_name", assets_index v)
                      ∷ (
                        codes "game_assets",
                        join_path (join_path (assets_dir o) (codes "virtual")) (assets_index v),
                      )
                      ∷ (codes "natives_directory", natives_dir)
                      ∷ (codes "classpath", classpath)
                      ∷ (codes "classpath_separator", path_sep)
                      ∷ (codes "library_directory", libraries_dir o)
                      ∷ (codes "primary_jar", client_jar_for o v.id)
                      ∷ (codes "primary_jar_name", v.id ++ codes ".jar")
                      ∷ (codes "resolution_width", show_nat o.window.width)
                      ∷ (codes "resolution_height", show_nat o.window.height)
                      ∷ quick_pairs o o.quick_play))))
        []
