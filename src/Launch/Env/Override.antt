-- ===== src/Launch/Env/Override.antt =====
-- Which value a variable of the environment of launch/env.rs has.
use rc_launcher.Base.{
  ◌≡◌, refl, ap, ◌∙◌, Bool, true, false, Option, none, some, List, [], ◌∷◌, if◌then◌else◌, arith,
}
use rc_launcher.Base.Text.{Text, text_eq, text_eq_iff, lookup}
use rc_launcher.Game.Version.{or_else}
use rc_launcher.Launch.Args.{set}
use rc_launcher.Launch.Env.{LaunchEnv, set_all, build_env, own_env}
use rc_launcher.Launch.Options.{LaunchOptions}

-- The value that comes last for a key.
unfoldable pub last_value : Text → List (Text × Text) → Option Text
last_value key [] = none
last_value key ((k, v) ∷ pairs) =
    or_else (last_value key pairs) (if text_eq k key then some v else none)

pub lookup-set :
    (key k v : Text) (env : LaunchEnv)
    → lookup key (set k v env) ≡ (if text_eq k key then some v else lookup key env)
unfolding lookup set
lookup-set key k v [] = refl
lookup-set key k v ((j, w) ∷ env) =
    ground (arith, text_eq_iff j k, text_eq_iff j key, text_eq_iff k key, lookup-set key k v env)

or_else-if :
    (o : Option Text) (b : Bool) (v : Text) (w : Option Text)
    → or_else o (if b then some v else w) ≡ or_else (or_else o (if b then some v else none)) w
or_else-if none true v w = refl
or_else-if none false v w = refl
or_else-if (some u) b v w = refl

pub lookup-set_all :
    (key : Text) (pairs : List (Text × Text)) (env : LaunchEnv)
    → lookup key (set_all pairs env) ≡ or_else (last_value key pairs) (lookup key env)
unfolding set_all last_value
lookup-set_all key [] env = refl
lookup-set_all key ((k, v) ∷ pairs) env =
    lookup-set_all key pairs (set k v env)
    ∙ (ap (or_else (last_value key pairs)) (lookup-set key k v env)
        ∙ or_else-if (last_value key pairs) (text_eq k key) v (lookup key env))

or_else-none : (o : Option Text) → or_else o none ≡ o
or_else-none none = refl
or_else-none (some v) = refl

-- A variable of the game has the value of the user's override, if there is one, and else the last
-- value that the launcher gives it.
pub lookup-build_env :
    (o : LaunchOptions) (id : Text) (dirs : List Text) (key : Text)
    → lookup key (build_env o id dirs)
      ≡ or_else (last_value key o.env_overrides) (last_value key (own_env o id dirs))
unfolding build_env lookup
lookup-build_env o id dirs key =
    lookup-set_all key o.env_overrides (set_all (own_env o id dirs) [])
    ∙ ap (or_else (last_value key o.env_overrides)) (
        lookup-set_all key (own_env o id dirs) []
        ∙ or_else-none (last_value key (own_env o id dirs)))
