-- ===== src/Launch/GameArgs.antt =====
-- launch/command.rs: the arguments of the game.
use rc_launcher.Base.{
  ℕ, Bool, false, not, ◌&&◌, ◌||◌, Option, none, some, List, [], ◌∷◌, ◌++◌, ok, err, ◌>>=◌,
  if◌then◌else◌, ◌==◌,
}
use rc_launcher.Base.Text.{Text, codes}
use rc_launcher.Error.{RcResult, launch}
use rc_launcher.Game.Version.{ResolvedVersion, VersionArguments}
use rc_launcher.Launch.Args.{
  Substitutions, flatten_arguments, split_legacy_arguments, prune_unresolved, has_flag,
}
use rc_launcher.Launch.Options.{LaunchOptions, ServerAddress, platform, features}
use rc_launcher.Launch.Path.{is_empty_text}
use rc_launcher.Launch.Text.{show_nat, has_text}
use rc_launcher.Launch.Noted.{Noted, add_note, drop_notes}
use rc_launcher.Launch.BaseArgs.{Outside}
use rc_launcher.Mods.Constraint.{trim}

module _ {V : Type 0} (x : Outside V) where
  -- `arguments.game`, if it is there and not empty
  abbrev pub modern_args : Option (VersionArguments V) → List V
  modern_args none = []
  modern_args (some a) = a.game

  unfoldable pub legacy_templates : ResolvedVersion V → RcResult (List Text)
  legacy_templates v = elim v.minecraft_arguments [
    | none ↦ err (launch "version declares neither `arguments.game` nor `minecraftArguments`")
    | some legacy ↦
        if is_empty_text (trim legacy)
        then err (launch "version declares neither `arguments.game` nor `minecraftArguments`")
        else ok (split_legacy_arguments legacy)
  ]

  -- The templates of the game arguments
  unfoldable pub game_templates : LaunchOptions → ResolvedVersion V → RcResult (List Text)
  game_templates o v = elim (modern_args v.arguments) [
    | [] ↦ legacy_templates v
    | a ∷ rest ↦ flatten_arguments x.json (platform o) (features o) (a ∷ rest)
  ]

  unfoldable pub mentions_quick_play : List V → Bool
  mentions_quick_play [] = false
  mentions_quick_play (a ∷ rest) =
      let later = mentions_quick_play rest in
      has_text (codes "quickPlayMultiplayer") (x.show_json a) || later

unfoldable pub add_window : LaunchOptions → List Text → List Text
add_window o args =
    if o.fullscreen
    then (if has_flag args (codes "--fullscreen")
        then args
        else args ++ (codes "--fullscreen" ∷ []))
    else if not (has_flag args (codes "--width")) && not (has_flag args (codes "--height"))
    then args
      ++ (codes "--width"
          ∷ show_nat o.window.width
          ∷ codes "--height"
          ∷ show_nat o.window.height
          ∷ [])
    else args

unfoldable pub add_demo : LaunchOptions → List Text → List Text
add_demo o args =
    if o.demo && not (has_flag args (codes "--demo")) then args ++ (codes "--demo" ∷ []) else args

-- The address of a server for quick play: the default port is left out.
unfoldable pub quick_address : Text → Option ℕ → Text
quick_address host none = host
quick_address host (some p) = if p == 25565 then host else host ++ (b':' ∷ show_nat p)

abbrev pub port_args : Option ℕ → List Text
port_args none = []
port_args (some p) = codes "--port" ∷ show_nat p ∷ []

unfoldable pub add_server : Bool → Option ServerAddress → Noted → Noted
add_server quick_play_capable none s = s
add_server quick_play_capable (some server) s =
    let host = trim server.host in
    if is_empty_text host
    then add_note (codes "ignored empty server address") s
    else if quick_play_capable
    then (if has_flag s.args (codes "--quickPlayMultiplayer") then s else record s {
      args = s.args ++ (codes "--quickPlayMultiplayer" ∷ quick_address host server.port ∷ []);
    })
    else if has_flag s.args (codes "--server")
    then s
    else record s { args = s.args ++ (codes "--server" ∷ host ∷ port_args server.port) }

module _ {V : Type 0} (x : Outside V) where
  -- `game_args`, with the notes so far
  unfoldable pub game_args :
      LaunchOptions → ResolvedVersion V → Substitutions → List Text → RcResult Noted
  game_args o v subs notes = game_templates x o v >>= λ templates.
      let pruned = prune_unresolved templates subs in
      let capable = mentions_quick_play x (modern_args x v.arguments) in
      let s = add_server capable o.server (record {
        args = add_demo o (add_window o pruned.args);
        notes = notes ++ drop_notes (codes "dropped game argument: ") pruned.dropped;
      }) in
      ok (record s { args = s.args ++ o.extra_game_args })
