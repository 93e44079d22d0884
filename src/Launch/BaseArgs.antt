-- ===== src/Launch/BaseArgs.antt =====
-- launch/command.rs: the JVM arguments of the launcher. What a build takes from outside is a record: the
-- JSON values, the jars of the bundle of AWT, and whether a file exists.
use rc_launcher.Base.{ℕ, max, Bool, Option, none, some, List, [], ◌∷◌, ◌++◌, if◌then◌else◌}
use rc_launcher.Base.Text.{Text, codes}
use rc_launcher.Game.Plan.{and_then}
use rc_launcher.Game.Version.{ResolvedVersion}
use rc_launcher.Launch.Args.{set, apply, ArgumentJson}
use rc_launcher.Launch.Bridge.{
  AwtBridge, AwtTransport, headless_bridge, transport_in_dir, bridge_args, bridge_notes,
}
use rc_launcher.Launch.Bridge.Bundle.{
  AwtBackend, backend_for_java, artifacts, scan_bundle, CacioBundle,
}
use rc_launcher.Launch.Options.{LaunchOptions, memory_args, gl_libname}
use rc_launcher.Launch.Path.{join_path}
use rc_launcher.Launch.Text.{show_nat}
use rc_launcher.Launch.Noted.{Noted}
use rc_launcher.Launch.Table.{or_value}
use rc_launcher.Runtime.{JavaVersion, java8}

-- The jars of a bundle, in a directory of the app's runtime if there is one
abbrev pub BundleJars : Type 0
BundleJars = AwtBackend → Option (List Text)

abbrev pub bundle_of : AwtBackend → Option (List Text) → Option CacioBundle
bundle_of backend none = none
bundle_of backend (some jars) = some (scan_bundle jars (artifacts backend))

abbrev pub transport_of : Option Text → Option AwtTransport
transport_of none = none
transport_of (some dir) = some (transport_in_dir dir)

-- `CommandBuilder::awt_bridge`
unfoldable pub awt_bridge : BundleJars → LaunchOptions → AwtBridge
awt_bridge jars o =
    let backend = backend_for_java o.java_version in
    if o.use_cacio
    then record {
      backend = backend;
      screen = o.window;
      bundle = bundle_of backend (jars backend);
      transport = transport_of o.awt_transport_dir;
    }
    else headless_bridge

unfoldable pub processor_args : Option ℕ → List Text
processor_args none = []
processor_args (some n) = (codes "-XX:ActiveProcessorCount=" ++ show_nat (max n 1)) ∷ []

unfoldable pub encoding_args : JavaVersion → List Text
encoding_args java8 =
    codes "-Dsun.stdout.encoding=UTF-8"
    ∷ codes "-Dsun.stderr.encoding=UTF-8"
    ∷ codes "-Dsun.jnu.encoding=UTF-8"
    ∷ []
encoding_args _ = codes "-Dstdout.encoding=UTF-8" ∷ codes "-Dstderr.encoding=UTF-8" ∷ []

unfoldable pub jna_args : Option Text → List Text
jna_args none = []
jna_args (some dir) = (codes "-Djna.boot.library.path=" ++ dir) ∷ codes "-Djna.nosys=false" ∷ []

-- `base_jvm_args` before those of the bridge
unfoldable pub fixed_jvm_args : LaunchOptions → Text → List Text
fixed_jvm_args o java_library_path =
    memory_args o.memory
    ++ (codes "-XX:+UseG1GC"
        ∷ codes "-XX:MaxGCPauseMillis=50"
        ∷ codes "-XX:-OmitStackTraceInFastThrow"
        ∷ (processor_args o.processor_count
            ++ ((codes "-XX:ErrorFile="
                  ++ join_path (join_path o.data_root (codes "logs")) (codes "hs_err_pid%p.log"))
                ∷ codes "-Dfile.encoding=UTF-8"
                ∷ (encoding_args o.java_version
                    ++ ((codes "-Dminecraft.launcher.brand=" ++ o.launcher_name)
                        ∷ (codes "-Dminecraft.launcher.version=" ++ o.launcher_version)
                        ∷ (codes "-Djava.library.path=" ++ java_library_path)
                        ∷ (codes "-Djna.tmpdir="
                            ++ join_path (join_path o.data_root (codes "tmp")) (codes "jna"))
                        ∷ (jna_args o.native_lib_dir
                            ++ ((codes "-Duser.home=" ++ o.game_dir)
                                ∷ (codes "-Dorg.lwjgl.opengl.libname=" ++ gl_libname o.renderer)
                                ∷ codes "-Dorg.lwjgl.vulkan.libname=libvulkan.so"
                                ∷ codes "-Dorg.lwjgl.system.allocator=system"
                                ∷ codes "-Dorg.lwjgl.util.NoChecks=false"
                                ∷ codes "-Dfml.earlyprogresswindow=false"
                                ∷ codes "-Dloader.disable_forked_guis=true"
                                ∷ codes "-Dlog4j2.formatMsgNoLookups=true"
                                ∷ [])))))))

-- What the build takes from outside.
pub record Outside (V : Type 0) : Type 0 where
  pub json : ArgumentJson V
  pub show_json : V → Text
  pub jars : BundleJars
  pub is_file : Text → Bool

module _ {V : Type 0} (x : Outside V) where
  abbrev field : Text → V → Option V
  field key v = x.json.get v key

  -- The identifier of the file, and the template of the argument.
  unfoldable pub log4j_file : ResolvedVersion V → Option Text
  log4j_file v = and_then (and_then v.logging (field (codes "client"))) λ client.
      and_then (and_then (field (codes "file") client) (field (codes "id"))) x.json.as_string

  unfoldable pub logging_template : ResolvedVersion V → Text
  logging_template v = or_value (codes "-Dlog4j.configurationFile=${path}") (
      and_then (and_then (and_then v.logging (field (codes "client"))) (field (codes "argument")))
        x.json.as_string)

  -- `logging_argument`, as a list
  unfoldable pub logging_argument : LaunchOptions → ResolvedVersion V → Noted
  logging_argument o v = elim (log4j_file v) [
    | none ↦ record { args = []; notes = [] }
    | some file_id ↦
        let file =
          join_path (join_path (join_path o.data_root (codes "assets")) (codes "log_configs"))
            file_id in
        if x.is_file file
        then record {
          args = apply (set (codes "path") file []) (logging_template v) ∷ [];
          notes = [];
        }
        else record {
          args = [];
          notes =
              (codes "log4j configuration "
                ++ (file ++ codes " not downloaded: using the game's built-in logging"))
              ∷ [];
        }
  ]

  -- `base_jvm_args`
  unfoldable pub base_jvm_args : LaunchOptions → ResolvedVersion V → Text → Noted
  base_jvm_args o v java_library_path =
      let bridge = awt_bridge x.jars o in
      let logging = logging_argument o v in
      record {
        args = fixed_jvm_args o java_library_path ++ (bridge_args bridge ++ logging.args);
        notes = bridge_notes bridge ++ logging.notes;
      }
