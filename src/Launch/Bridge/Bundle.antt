-- ===== src/Launch/Bridge/Bundle.antt =====
-- launch/awt.rs: the backends of AWT, the jars that each needs and the bundle that is found on the disk.
use rc_launcher.Base.{Bool, true, false, Option, none, some, List, [], ◌∷◌, if◌then◌else◌}
use rc_launcher.Base.Text.{Text, codes, starts_with, rsplit_once}
use rc_launcher.Runtime.{JavaVersion, java8}

pub data AwtBackend : Type 0 where
  headless cacio8 cacio17 : AwtBackend

-- `AwtBackend::for_java`
unfoldable pub backend_for_java : JavaVersion → AwtBackend
backend_for_java java8 = cacio8
backend_for_java _ = cacio17

unfoldable pub is_graphical : AwtBackend → Bool
is_graphical headless = false
is_graphical _ = true

unfoldable pub toolkit : AwtBackend → Option Text
toolkit headless = none
toolkit cacio8 = some (codes "net.java.openjdk.cacio.ctc.CTCToolkit")
toolkit cacio17 = some (codes "com.github.caciocavallosilano.cacio.ctc.CTCToolkit")

unfoldable pub graphics_env : AwtBackend → Option Text
graphics_env headless = none
graphics_env cacio8 = some (codes "net.java.openjdk.cacio.ctc.CTCGraphicsEnvironment")
graphics_env cacio17 = some (codes "com.github.caciocavallosilano.cacio.ctc.CTCGraphicsEnvironment")

pub data CacioRole : Type 0 where
  on_classpath on_boot_classpath agent : CacioRole

-- `a.role == role`
abbrev pub role_eq : CacioRole → CacioRole → Bool
role_eq on_classpath on_classpath = true
role_eq on_boot_classpath on_boot_classpath = true
role_eq agent agent = true
role_eq _ _ = false

pub record CacioArtifact : Type 0 where
  pub prefix : Text
  pub role : CacioRole
  pub required : Bool
  pub purpose : Text

-- `CACIO8_ARTIFACTS`
abbrev pub cacio8_artifacts : List CacioArtifact
cacio8_artifacts =
    record {
      prefix = codes "cacio-shared";
      role = on_classpath;
      required = true;
      purpose = codes "AWT peer implementation (windows, graphics, focus, event pump)";
    }
    ∷ record {
      prefix = codes "cacio-androidnw";
      role = on_classpath;
      required = true;
      purpose = codes "Android native-window screen: renders the AWT desktop into an ARGB buffer";
    }
    ∷ record {
      prefix = codes "ResConfHack";
      role = on_boot_classpath;
      required = false;
      purpose = codes "patches the AWT resource bundles the Android JRE ships without";
    }
    ∷ []

-- `CACIO17_ARTIFACTS`
abbrev pub cacio17_artifacts : List CacioArtifact
cacio17_artifacts =
    record {
      prefix = codes "cacio-shared";
      role = on_classpath;
      required = true;
      purpose = codes "AWT peer implementation (windows, graphics, focus, event pump)";
    }
    ∷ record {
      prefix = codes "cacio-tta";
      role = on_classpath;
      required = true;
      purpose = codes "the CTC toolkit + off-screen graphics environment";
    }
    ∷ record {
      prefix = codes "cacio-agent";
      role = agent;
      required = false;
      purpose = codes "java agent that opens the sealed java.desktop internals";
    }
    ∷ []

-- `AwtBackend::artifacts`
unfoldable pub artifacts : AwtBackend → List CacioArtifact
artifacts headless = []
artifacts cacio8 = cacio8_artifacts
artifacts cacio17 = cacio17_artifacts

-- `CacioBundle`: what is on the disk, with its path, and what is missing.
pub record CacioBundle : Type 0 where
  pub present : List (CacioArtifact × Text)
  pub missing : List CacioArtifact

abbrev pub name_of_path : Option (Text × Text) → Text → Text
name_of_path none path = path
name_of_path (some (dir, name)) path = name

-- `Path::file_name` of a file in a directory
abbrev pub file_name : Text → Text
file_name path = name_of_path (rsplit_once b'/' path) path

-- The first jar whose name starts so.
unfoldable pub find_jar : Text → List Text → Option Text
find_jar prefix [] = none
find_jar prefix (jar ∷ jars) =
    let later = find_jar prefix jars in
    if starts_with prefix (file_name jar) then some jar else later

abbrev pub file_artifact : CacioArtifact → Option Text → CacioBundle → CacioBundle
file_artifact a none b = record b { missing = a ∷ b.missing }
file_artifact a (some jar) b = record b { present = (a, jar) ∷ b.present }

-- `CacioBundle::scan`, with the jars of the directory
unfoldable pub scan_bundle : List Text → List CacioArtifact → CacioBundle
scan_bundle jars [] = record { present = []; missing = [] }
scan_bundle jars (a ∷ others) = file_artifact a (find_jar a.prefix jars) (scan_bundle jars others)

unfoldable pub paths_with_role : CacioRole → List (CacioArtifact × Text) → List Text
paths_with_role role [] = []
paths_with_role role ((a, path) ∷ present) =
    let rest = paths_with_role role present in if role_eq a.role role then path ∷ rest else rest
