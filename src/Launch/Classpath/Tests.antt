-- ===== src/Launch/Classpath/Tests.antt =====
-- Runs of the builder of the class path on a version with two versions of a library.
use rc_launcher.Base.{◌≡◌, refl, true, false, none, List, [], ◌∷◌, ok}
use rc_launcher.Base.Text.{
  Text, codes, text_eq, starts_with, split_on, rsplit_once, lookup, replace_char,
}
use rc_launcher.Game.Library.{Library, is_allowed, native_classifier, parse_maven, maven_path}
use rc_launcher.Game.Platform.{android, os_rule_str}
use rc_launcher.Launch.Classpath.{
  Classpath, ClasspathBuilder, build_classpath, add_libraries, add_library, add_natives, add_main,
  is_substituted, has_prefix_of, place_jar, place_seen, collapse, set_entry, jar_of, runtime_jars,
  runtime_dirs, with_client, sort_paths, dedup_paths,
}
use rc_launcher.Launch.Classpath.Sound.{Assembled, build_classpath-Assembled}
use rc_launcher.Launch.Env.{push_dirs}
use rc_launcher.Launch.Path.{contains_path, join_path}
use rc_launcher.Launch.Text.{ends_with}
use rc_launcher.Game.Path.{path_eq, texts_eq, components}
use rc_launcher.Classpath.{
  compare_maven_versions, compare_all, compare_parsed, parse_u64, split_pieces, without_empty,
}
use rc_launcher.Runtime.{java17}

abbrev library : Text → Library
library name = record {
  name = name;
  url = none;
  downloads = record { artifact = none; classifiers = [] };
  natives = [];
  extract = none;
  rules = [];
  client_req = none;
  serverreq = none;
}

abbrev libraries : List Library
libraries = library (codes "g:a:9") ∷ library (codes "g:b:1") ∷ library (codes "g:a:10") ∷ []

abbrev builder : ClasspathBuilder
builder = record {
  libraries_dir = codes "/l";
  platform = android;
  features = [];
  policy = record {
    substitute_lwjgl = true;
    client_jar_last = true;
    collapse_duplicates = true;
    extra_excludes = [];
  };
  app_runtime = none;
  java_version = java17;
  use_cacio = false;
}

-- The tenth version takes the place of the ninth.
abbrev class_path : Classpath
class_path = record {
  entries = codes "/l/g/a/10/a-10.jar" ∷ codes "/l/g/b/1/b-1.jar" ∷ codes "/c.jar" ∷ [];
  native_jars = [];
  native_dirs = [];
  substituted = [];
  collapsed = codes "g:a:9 (superseded by 10)" ∷ [];
}

built : build_classpath builder libraries (codes "/c.jar") ≡ ok class_path
unfolding build_classpath add_libraries add_library add_natives add_main is_substituted
    has_prefix_of place_jar place_seen collapse set_entry jar_of runtime_jars runtime_dirs
    with_client sort_paths dedup_paths push_dirs contains_path join_path ends_with path_eq texts_eq
    components is_allowed native_classifier parse_maven maven_path text_eq starts_with split_on
    rsplit_once lookup replace_char compare_maven_versions compare_all compare_parsed parse_u64
    split_pieces without_empty os_rule_str
built = refl

build_classpath-Assembled_example : Assembled builder libraries (codes "/c.jar") class_path
build_classpath-Assembled_example =
    build_classpath-Assembled builder libraries (codes "/c.jar") class_path refl built
