-- ===== src/Launch/Env.antt =====
-- launch/env.rs, with the tuning of launch/render.rs and the variables of a renderer in
-- launch/options.rs: the directories of native libraries, and the environment of the game.
pub mod Override
pub mod Dirs
use rc_launcher.Base.{ℕ, Bool, true, false, Option, none, some, List, [], ◌∷◌, ◌++◌, if◌then◌else◌}
use rc_launcher.Base.Text.{Text, codes}
use rc_launcher.Launch.Args.{set}
use rc_launcher.Launch.Options.{
  LaunchOptions, natives_dir_for, Renderer, gl4es, ng_gl4es, vir_gl, zink, angle, renderer_id,
  PerfProfile, diagnostic, balanced, low_power, high_performance, maximum,
}
use rc_launcher.Launch.Path.{join_path, contains_path}
use rc_launcher.Launch.Text.{join_with}
use rc_launcher.Runtime.{JavaVersion, java8, Abi, arm64_v8a, armeabi_v7a, x86, x86_64}

-- `LaunchEnv`: the entries of the map
abbrev pub LaunchEnv : Type 0
LaunchEnv = List (Text × Text)

abbrev pub path_sep : Text
path_sep = codes ":"

abbrev lib_suffix : Abi → Text
lib_suffix arm64_v8a = codes "lib64"
lib_suffix armeabi_v7a = codes "lib"
lib_suffix x86 = codes "lib"
lib_suffix x86_64 = codes "lib64"

unfoldable pub system_lib_dirs : Abi → List Text
system_lib_dirs abi =
    join_path (codes "/system") (lib_suffix abi) ∷ join_path (codes "/vendor") (lib_suffix abi) ∷ []

unfoldable pub java8_arch_dir : Abi → Text
java8_arch_dir arm64_v8a = codes "aarch64"
java8_arch_dir armeabi_v7a = codes "arm"
java8_arch_dir x86 = codes "i386"
java8_arch_dir x86_64 = codes "amd64"

unfoldable pub jre_lib_dirs : Text → JavaVersion → Abi → List Text
jre_lib_dirs java_home java8 abi =
    let lib = join_path java_home (codes "lib") in
    let base = join_path lib (java8_arch_dir abi) in
    join_path base (codes "server") ∷ join_path base (codes "jli") ∷ base ∷ lib ∷ []
jre_lib_dirs java_home _ abi =
    let lib = join_path java_home (codes "lib") in join_path lib (codes "server") ∷ lib ∷ []

-- The directories of `library_path` in the order in which they are pushed.
abbrev pub listed_dir : Option Text → List Text
listed_dir none = []
listed_dir (some dir) = dir ∷ []

unfoldable pub candidate_dirs : LaunchOptions → Text → List Text → List Text
candidate_dirs o version_id extra_dirs =
    natives_dir_for o version_id
    ∷ (extra_dirs
        ++ (listed_dir o.native_lib_dir
            ++ (jre_lib_dirs o.java_home o.java_version o.abi ++ system_lib_dirs o.abi)))

-- The pushes: a directory that is there already is not pushed again.
unfoldable pub push_dirs : List Text → List Text → List Text
push_dirs [] dirs = dirs
push_dirs (d ∷ ds) dirs = push_dirs ds (if contains_path d dirs then dirs else dirs ++ (d ∷ []))

unfoldable pub library_path : LaunchOptions → Text → List Text → List Text
library_path o version_id extra_dirs = push_dirs (candidate_dirs o version_id extra_dirs) []

abbrev pub join_paths : List Text → Text
join_paths dirs = join_with path_sep dirs

-- `set` of each pair, in order
unfoldable pub set_all : List (Text × Text) → LaunchEnv → LaunchEnv
set_all [] env = env
set_all ((k, v) ∷ pairs) env = set_all pairs (set k v env)

abbrev pub gl4es_env : LaunchEnv
gl4es_env =
    (codes "LIBGL_ES", codes "2")
    ∷ (codes "LIBGL_MIPMAP", codes "3")
    ∷ (codes "LIBGL_NORMALIZE", codes "1")
    ∷ (codes "LIBGL_NOINTOVLHACK", codes "1")
    ∷ (codes "LIBGL_NOERROR", codes "1")
    ∷ (codes "LIBGL_USE_MC_COLOR", codes "1")
    ∷ []

-- `Renderer::env`
unfoldable pub renderer_env : Renderer → LaunchEnv
renderer_env gl4es = gl4es_env
renderer_env ng_gl4es = gl4es_env
renderer_env vir_gl =
    (codes "GALLIUM_DRIVER", codes "virpipe")
    ∷ (codes "VTEST_SOCKET_NAME", codes "/tmp/.virgl_test")
    ∷ (codes "MESA_GL_VERSION_OVERRIDE", codes "4.3")
    ∷ (codes "MESA_GLSL_VERSION_OVERRIDE", codes "430")
    ∷ []
renderer_env zink =
    (codes "LIB_MESA_NAME", codes "libOSMesa_8.so")
    ∷ (codes "MESA_LOADER_DRIVER_OVERRIDE", codes "zink")
    ∷ (codes "GALLIUM_DRIVER", codes "zink")
    ∷ (codes "MESA_GL_VERSION_OVERRIDE", codes "4.6")
    ∷ (codes "MESA_GLSL_VERSION_OVERRIDE", codes "460")
    ∷ (codes "OSMESA_NO_FLUSH_FRONTBUFFER", codes "1")
    ∷ []
renderer_env angle =
    (codes "LIBGL_ES", codes "3")
    ∷ (codes "MESA_GL_VERSION_OVERRIDE", codes "4.6")
    ∷ (codes "MESA_GLSL_VERSION_OVERRIDE", codes "460")
    ∷ []

abbrev native_pair : Text → Option Text → LaunchEnv
native_pair key none = []
native_pair key (some dir) = (key, dir) ∷ []

unfoldable pub gl_translation_env : Renderer → Option Text → LaunchEnv
gl_translation_env angle native_lib_dir =
    (codes "ANGLE_DEFAULT_PLATFORM", codes "vulkan") ∷ (codes "ANGLE_NO_VALIDATION", codes "1") ∷ []
gl_translation_env gl4es native_lib_dir = native_pair (codes "LIBGL_GLEXT") native_lib_dir
gl_translation_env ng_gl4es native_lib_dir = native_pair (codes "LIBGL_GLEXT") native_lib_dir
gl_translation_env vir_gl native_lib_dir = []
gl_translation_env zink native_lib_dir = []

-- `PerfProfile::env`
unfoldable pub perf_env : PerfProfile → LaunchEnv
perf_env diagnostic = []
perf_env balanced = []
perf_env low_power = (codes "LIBGL_NOERROR", codes "1") ∷ (codes "MESA_NO_ERROR", codes "1") ∷ []
perf_env high_performance =
    (codes "LIBGL_NOERROR", codes "1")
    ∷ (codes "MESA_NO_ERROR", codes "1")
    ∷ (codes "LIBGL_NOINDIRECT", codes "1")
    ∷ []
perf_env maximum =
    (codes "LIBGL_NOERROR", codes "1")
    ∷ (codes "MESA_NO_ERROR", codes "1")
    ∷ (codes "LIBGL_NOINDIRECT", codes "1")
    ∷ (codes "LIBGL_FPS", codes "1")
    ∷ []

abbrev system_bin : Text
system_bin =
    join_with path_sep (codes "/system/bin" ∷ codes "/system/xbin" ∷ codes "/vendor/bin" ∷ [])

-- The variables that `build_env` sets itself, in order.
unfoldable pub own_env : LaunchOptions → Text → List Text → LaunchEnv
own_env o version_id native_dirs =
    (codes "JAVA_HOME", o.java_home)
    ∷ (codes "PATH", join_path o.java_home (codes "bin") ++ (path_sep ++ system_bin))
    ∷ (codes "LD_LIBRARY_PATH", join_paths (library_path o version_id native_dirs))
    ∷ (codes "HOME", o.game_dir)
    ∷ (codes "TMPDIR", join_path o.data_root (codes "tmp"))
    ∷ (codes "MESA_GLSL_CACHE_DIR", join_path o.data_root (codes "cache"))
    ∷ (codes "POJAV_RENDERER", renderer_id o.renderer)
    ∷ (codes "RC_RENDERER", renderer_id o.renderer)
    ∷ (renderer_env o.renderer
        ++ (native_pair (codes "LIBGL_DRIVERS_PATH") o.native_lib_dir
            ++ (native_pair (codes "POJAV_NATIVEDIR") o.native_lib_dir
                ++ (gl_translation_env o.renderer o.native_lib_dir ++ perf_env o.perf_profile))))

unfoldable pub build_env : LaunchOptions → Text → List Text → LaunchEnv
build_env o version_id native_dirs =
    set_all o.env_overrides (set_all (own_env o version_id native_dirs) [])
