-- ===== src/Launch/Options.antt =====
-- launch/options.rs: what the user and the settings decide about a launch. A path is its text, since
-- it ends as an argument or in the environment.
pub mod Memory
use rc_launcher.Base.{
  ℕ, ◌-◌, ◌+◌, max, String, Bool, true, false, not, ◌&&◌, ◌||◌, Option, none, some, List, [], ◌∷◌,
  ◌++◌, ok, err, ◌>>=◌, ◌>>◌, if◌then◌else◌, ◌==◌, ltb, leb, length,
}
use rc_launcher.Base.Text.{Text, codes, text_eq, starts_with}
use rc_launcher.Error.{RcResult, launch}
use rc_launcher.Game.Library.{Features}
use rc_launcher.Game.Platform as Platforms
use rc_launcher.Launch.Path.{is_empty_text, is_absolute, join_path}
use rc_launcher.Launch.Text.{show_nat, byte_len}
use rc_launcher.Mods.Constraint.{trim}
use rc_launcher.Runtime.{JavaVersion, Abi, arm64_v8a, armeabi_v7a, x86, x86_64, as_android_abi}

pub data UserType : Type 0 where
  msa mojang offline : UserType

-- `UserType::as_str`
unfoldable pub user_type_str : UserType → Text
user_type_str msa = codes "msa"
user_type_str mojang = codes "mojang"
user_type_str offline = codes "legacy"

pub record AccountProfile : Type 0 where
  pub username : Text
  pub uuid : Text
  pub access_token : Text
  pub user_type : UserType
  pub xuid : Option Text
  pub client_id : Option Text
  pub user_properties : Text

-- `AccountProfile::offline`
abbrev pub offline_account : Text → Text → AccountProfile
offline_account username uuid = record {
  username = username;
  uuid = uuid;
  access_token = codes "0";
  user_type = offline;
  xuid = none;
  client_id = none;
  user_properties = codes "{}";
}

-- `AccountProfile::secrets`
unfoldable pub account_secrets : AccountProfile → List Text
account_secrets a = if ltb 8 (byte_len a.access_token) then a.access_token ∷ [] else []

-- A check that fails with a message when the test holds.
abbrev pub refuse_if : Bool → String → RcResult (Unit {0})
refuse_if b message = if b then err (launch message) else ok tt

-- `AccountProfile::validate`
unfoldable pub validate_account : AccountProfile → RcResult (Unit {0})
validate_account a =
    refuse_if (is_empty_text (trim a.username)) "account username is empty"
    >> refuse_if (is_empty_text (trim a.uuid)) "account uuid is empty"

pub record MemoryOptions : Type 0 where
  pub min_mb : Option ℕ
  pub max_mb : ℕ

unfoldable pub min_heap_args : Option ℕ → List Text
min_heap_args none = []
min_heap_args (some least) = (codes "-Xms" ++ (show_nat least ++ codes "M")) ∷ []

-- `MemoryOptions::to_args`
unfoldable pub memory_args : MemoryOptions → List Text
memory_args m = min_heap_args m.min_mb ++ ((codes "-Xmx" ++ (show_nat m.max_mb ++ codes "M")) ∷ [])

-- The minimum, not above the maximum.
abbrev pub lower_min : Option ℕ → ℕ → Option ℕ
lower_min none most = none
lower_min (some least) most = if ltb most least then some most else some least

-- `MemoryOptions::clamped`, with the saturating subtraction
unfoldable pub clamped : MemoryOptions → ℕ → ℕ → MemoryOptions
clamped m device_total_mb reserve_mb =
    let budget = max (device_total_mb - reserve_mb) 256 in
    let most = if ltb budget m.max_mb then budget else m.max_mb in
    record { min_mb = lower_min m.min_mb most; max_mb = most }

-- `min > self.max_mb`, if there is a minimum
abbrev pub min_exceeds : Option ℕ → ℕ → Bool
min_exceeds none most = false
min_exceeds (some least) most = ltb most least

-- `MemoryOptions::validate`
unfoldable pub validate_memory : MemoryOptions → RcResult (Unit {0})
validate_memory m =
    refuse_if (m.max_mb == 0) "-Xmx must be greater than 0"
    >> refuse_if (min_exceeds m.min_mb m.max_mb) "-Xms exceeds -Xmx"

pub record WindowSize : Type 0 where
  pub width : ℕ
  pub height : ℕ

-- `WindowSize::default`
abbrev pub default_window : WindowSize
default_window = record { width = 1280; height = 720 }

-- `WindowSize::as_screen_size`
unfoldable pub as_screen_size : WindowSize → Text
as_screen_size w = show_nat w.width ++ (b'x' ∷ show_nat w.height)

pub record ServerAddress : Type 0 where
  pub host : Text
  pub port : Option ℕ

-- `QuickPlay`; the first is `None`.
pub data QuickPlay : Type 0 where
  no_quick_play : QuickPlay
  singleplayer multiplayer realms : Text → QuickPlay

pub data Renderer : Type 0 where
  gl4es ng_gl4es vir_gl zink angle : Renderer

-- `Renderer::id`
unfoldable pub renderer_id : Renderer → Text
renderer_id gl4es = codes "opengles2"
renderer_id ng_gl4es = codes "opengles2_ng"
renderer_id vir_gl = codes "opengles2_vgpu"
renderer_id zink = codes "opengles3_desktopgl_zink_kopper"
renderer_id angle = codes "opengles3_angle"

unfoldable pub gl_libname : Renderer → Text
gl_libname gl4es = codes "libgl4es_114.so"
gl_libname ng_gl4es = codes "libng_gl4es.so"
gl_libname vir_gl = codes "libvgpu.so"
gl_libname zink = codes "libOSMesa_8.so"
gl_libname angle = codes "libGLESv2_angle.so"

-- `Renderer::from_id`
unfoldable pub renderer_from_id : Text → Option Renderer
renderer_from_id s =
    if text_eq s (codes "opengles2") || text_eq s (codes "gl4es")
    then some gl4es
    else if text_eq s (codes "opengles2_ng") || text_eq s (codes "ng_gl4es")
    then some ng_gl4es
    else if text_eq s (codes "opengles2_vgpu")
        || text_eq s (codes "virgl")
        || text_eq s (codes "vgpu")
    then some vir_gl
    else if text_eq s (codes "opengles3_desktopgl_zink_kopper") || text_eq s (codes "zink")
    then some zink
    else if text_eq s (codes "opengles3_angle") || text_eq s (codes "angle")
    then some angle
    else none

-- `PerfProfile` of launch/render.rs
pub data PerfProfile : Type 0 where
  diagnostic balanced low_power high_performance maximum : PerfProfile

-- What the launch reads of `LaunchOptions`.
pub record LaunchOptions : Type 0 where
  pub game_dir : Text
  pub data_root : Text
  pub java_home : Text
  pub java_version : JavaVersion
  pub abi : Abi
  pub native_lib_dir : Option Text
  pub natives_dir : Option Text
  pub memory : MemoryOptions
  pub window : WindowSize
  pub account : AccountProfile
  pub renderer : Renderer
  pub perf_profile : PerfProfile
  pub demo : Bool
  pub fullscreen : Bool
  pub server : Option ServerAddress
  pub quick_play : QuickPlay
  pub launcher_name : Text
  pub launcher_version : Text
  pub extra_jvm_args : List Text
  pub extra_game_args : List Text
  pub env_overrides : List (Text × Text)
  pub use_cacio : Bool
  pub awt_transport_dir : Option Text
  pub processor_count : Option ℕ

abbrev pub java_executable : LaunchOptions → Text
java_executable o = join_path (join_path o.java_home (codes "bin")) (codes "java")

-- The architecture that rules know an ABI by.
unfoldable pub arch_of : Abi → Platforms.Arch
arch_of arm64_v8a = Platforms.arm64
arch_of armeabi_v7a = Platforms.arm
arch_of x86 = Platforms.x86
arch_of x86_64 = Platforms.x86_64

-- `LaunchOptions::platform`
abbrev pub platform : LaunchOptions → Platforms.Platform
platform o = record Platforms.android { arch = arch_of o.abi }

abbrev pub is_default_window : WindowSize → Bool
is_default_window w = (w.width == 1280) && (w.height == 720)

abbrev pub quick_flags : QuickPlay → Features
quick_flags q =
    (codes "has_quick_plays_support", elim q [ no_quick_play ↦ false | _ ↦ true ])
    ∷ (codes "is_quick_play_singleplayer", elim q [ singleplayer _ ↦ true | _ ↦ false ])
    ∷ (codes "is_quick_play_multiplayer", elim q [ multiplayer _ ↦ true | _ ↦ false ])
    ∷ (codes "is_quick_play_realms", elim q [ realms _ ↦ true | _ ↦ false ])
    ∷ []

-- `LaunchOptions::features`
abbrev pub features : LaunchOptions → Features
features o =
    (codes "is_demo_user", o.demo)
    ∷ (codes "has_custom_resolution", not (is_default_window o.window) || o.fullscreen)
    ∷ quick_flags o.quick_play

abbrev pub under_version : LaunchOptions → Text → Text
under_version o id = join_path (join_path o.data_root (codes "versions")) id

unfoldable pub natives_dir_for : LaunchOptions → Text → Text
natives_dir_for o id = elim o.natives_dir [
  | some dir ↦ dir
  | none ↦ join_path (under_version o id) (codes "natives-" ++ as_android_abi o.abi)
]

abbrev pub libraries_dir : LaunchOptions → Text
libraries_dir o = join_path o.data_root (codes "libraries")

abbrev pub assets_dir : LaunchOptions → Text
assets_dir o = join_path o.data_root (codes "assets")

abbrev pub client_jar_for : LaunchOptions → Text → Text
client_jar_for o id = join_path (under_version o id) (id ++ codes ".jar")

-- `LaunchOptions::validate`
unfoldable pub validate_options : LaunchOptions → RcResult (Unit {0})
validate_options o =
    validate_account o.account
    >> (validate_memory o.memory
        >> (refuse_if ((o.window.width == 0) || (o.window.height == 0))
              "window size must be non-zero"
            >> (refuse_if (not (is_absolute o.game_dir)) "game_dir must be absolute"
                >> refuse_if (not (is_absolute o.data_root)) "data_root must be absolute")))
