-- ===== src/Launch/Bridge.antt =====
-- launch/awt.rs: the caciocavallo bundle on the disk and the JVM arguments that switch AWT to it. The
-- listing of a directory is a parameter.
pub mod Bundle
use rc_launcher.Launch.Bridge.Bundle.{
  AwtBackend, backend_for_java, is_graphical, toolkit, graphics_env, CacioRole, role_eq,
  CacioArtifact, cacio8_artifacts, cacio17_artifacts, artifacts, CacioBundle, name_of_path,
  file_name, find_jar, file_artifact, scan_bundle, paths_with_role, headless, cacio8, cacio17,
  on_classpath, on_boot_classpath, agent,
}
use rc_launcher.Base.{Bool, true, false, Option, none, some, List, [], ◌∷◌, ◌++◌, if◌then◌else◌}
use rc_launcher.Base.Text.{Text, codes, starts_with, rsplit_once}
use rc_launcher.Launch.Options.{WindowSize, default_window, as_screen_size}
use rc_launcher.Launch.Path.{join_path}
use rc_launcher.Launch.Text.{join_with}
use rc_launcher.Runtime.{JavaVersion, java8}

-- `AwtTransport`
pub record AwtTransport : Type 0 where
  pub frames : Text
  pub events : Text

-- `AwtTransport::in_dir`
abbrev pub transport_in_dir : Text → AwtTransport
transport_in_dir dir = record {
  frames = join_path dir (codes "awt-frames.rcaf");
  events = join_path dir (codes "awt-events.rcae");
}

-- `AwtTransport::jvm_args`
unfoldable pub transport_args : AwtTransport → List Text
transport_args t =
    codes "-Drc.awt.bridge.protocol=rcaf1"
    ∷ (codes "-Drc.awt.bridge.frames=" ++ t.frames)
    ∷ (codes "-Drc.awt.bridge.events=" ++ t.events)
    ∷ []

-- `AwtBridge`, as `awt_bridge` of launch/command.rs makes it: without scanned natives
pub record AwtBridge : Type 0 where
  pub backend : AwtBackend
  pub screen : WindowSize
  pub bundle : Option CacioBundle
  pub transport : Option AwtTransport

-- `AwtBridge::headless`
abbrev pub headless_bridge : AwtBridge
headless_bridge = record {
  backend = headless;
  screen = default_window;
  bundle = none;
  transport = none;
}

-- `CACIO17_MODULE_FLAGS`
abbrev pub module_flags : List Text
module_flags =
    codes "--add-exports=java.base/sun.security.action=ALL-UNNAMED"
    ∷ codes "--add-exports=java.desktop/java.awt=ALL-UNNAMED"
    ∷ codes "--add-exports=java.desktop/java.awt.dnd.peer=ALL-UNNAMED"
    ∷ codes "--add-exports=java.desktop/java.awt.peer=ALL-UNNAMED"
    ∷ codes "--add-exports=java.desktop/sun.awt=ALL-UNNAMED"
    ∷ codes "--add-exports=java.desktop/sun.awt.dnd=ALL-UNNAMED"
    ∷ codes "--add-exports=java.desktop/sun.awt.image=ALL-UNNAMED"
    ∷ codes "--add-exports=java.desktop/sun.font=ALL-UNNAMED"
    ∷ codes "--add-exports=java.desktop/sun.java2d=ALL-UNNAMED"
    ∷ codes "--add-opens=java.base/java.lang.reflect=ALL-UNNAMED"
    ∷ codes "--add-opens=java.base/java.util=ALL-UNNAMED"
    ∷ codes "--add-opens=java.desktop/sun.font=ALL-UNNAMED"
    ∷ []

abbrev pub jars_with_role : CacioRole → Option CacioBundle → List Text
jars_with_role role none = []
jars_with_role role (some b) = paths_with_role role b.present

-- `boot_classpath_arg` and `agent_arg`, of a backend that is graphical
abbrev pub boot_arg : List Text → Option Text
boot_arg [] = none
boot_arg (jar ∷ jars) = some (codes "-Xbootclasspath/p:" ++ join_with (codes ":") (jar ∷ jars))

abbrev pub agent_arg : List Text → Option Text
agent_arg [] = none
agent_arg (jar ∷ jars) = some (codes "-javaagent:" ++ jar)

abbrev pub listed : Option Text → List Text
listed none = []
listed (some t) = t ∷ []

-- `-Dkey=` before a value, if there is one
abbrev pub property_arg : Text → Option Text → List Text
property_arg key none = []
property_arg key (some value) = (key ++ value) ∷ []

-- The arguments that only one backend has, and the notes on what is missing.
unfoldable pub backend_args : AwtBackend → Option CacioBundle → List Text
backend_args headless bundle = []
backend_args cacio8 bundle =
    codes "-Dcacio.font.fontmanager=sun.awt.X11FontManager"
    ∷ codes "-Dcacio.font.fontscaler=sun.font.FreetypeFontScaler"
    ∷ listed (boot_arg (jars_with_role on_boot_classpath bundle))
backend_args cacio17 bundle = module_flags ++ listed (agent_arg (jars_with_role agent bundle))

abbrev pub note_missing : Text → Option Text → List Text
note_missing note none = note ∷ []
note_missing note (some arg) = []

unfoldable pub backend_notes : AwtBackend → Option CacioBundle → List Text
backend_notes headless bundle = []
backend_notes cacio8 bundle =
    note_missing
      (codes
        "caciocavallo ResConfHack.jar not found: AWT resource bundles may be missing (dialog labels can render empty)")
      (boot_arg (jars_with_role on_boot_classpath bundle))
backend_notes cacio17 bundle =
    note_missing (codes "caciocavallo17 agent (cacio-agent.jar) not found: AWT may be unavailable")
      (agent_arg (jars_with_role agent bundle))

-- `AwtBridge::warnings`
unfoldable pub optional_missing : List CacioArtifact → List Text
optional_missing [] = []
optional_missing (a ∷ others) =
    let rest = optional_missing others in
    if a.required
    then rest
    else (codes "AWT bridge: optional "
        ++ (a.prefix ++ (codes "*.jar missing (" ++ (a.purpose ++ codes ")"))))
      ∷ rest

abbrev pub warnings : Option CacioBundle → List Text
warnings none = []
warnings (some b) = optional_missing b.missing

abbrev pub live_args : Option AwtTransport → List Text
live_args none = []
live_args (some t) = transport_args t

-- The arguments of a backend with a screen, a bundle and the channels of a session.
unfoldable pub desktop_args :
    AwtBackend → WindowSize → Option CacioBundle → Option AwtTransport → List Text
desktop_args backend screen bundle transport =
    if is_graphical backend
    then codes "-Djava.awt.headless=false"
      ∷ (codes "-Dcacio.managed.screensize=" ++ as_screen_size screen)
      ∷ codes "-Dswing.defaultlaf=javax.swing.plaf.metal.MetalLookAndFeel"
      ∷ (property_arg (codes "-Dawt.toolkit=") (toolkit backend)
          ++ (property_arg (codes "-Djava.awt.graphicsenv=") (graphics_env backend)
              ++ (codes "-Dsun.java2d.opengl=false"
                  ∷ (backend_args backend bundle ++ live_args transport))))
    else codes "-Djava.awt.headless=true" ∷ []

-- `AwtBridge::jvm_args`: the arguments, and the notes that it adds
abbrev pub bridge_args : AwtBridge → List Text
bridge_args b = desktop_args b.backend b.screen b.bundle b.transport

unfoldable pub bridge_notes : AwtBridge → List Text
bridge_notes b =
    if is_graphical b.backend then backend_notes b.backend b.bundle ++ warnings b.bundle else []
