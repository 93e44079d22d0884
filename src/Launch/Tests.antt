-- ===== src/Launch/Tests.antt =====
-- Runs of the modules of Launch on concrete inputs: templates, command lines, and the log of a crash.
use rc_launcher.Base.{
  All, length, ◌≡◌, refl, true, false, none, some, List, [], ◌∷◌, ◌++◌, map, ok, err, arith,
}
use rc_launcher.Base.Int.{pos}
use rc_launcher.Base.Text.{
  Text, codes, Lacks, lookup, text_eq, starts_with, contains, trim_end, split_on,
}
use rc_launcher.Error.{RcResult}
use rc_launcher.Game.Path.{path_eq, texts_eq, components}
use rc_launcher.Game.Version.{ResolvedVersion, no_downloads}
use rc_launcher.Launch.Args.{
  Substitutions, apply, apply_fuel, unresolved, unresolved_fuel, prune_unresolved, prune_from,
  prune_one, split_last, drop_behind, drop_note, after_open, fill_in, defines, is_flag, set,
  has_flag, flatten_arguments, flatten_entry,
}
use rc_launcher.Launch.Args.Prune.{survivors, count_unresolved, Sublist, prune_unresolved-survivors}
use rc_launcher.Launch.BaseArgs.{
  Outside, base_jvm_args, fixed_jvm_args, processor_args, encoding_args, jna_args, awt_bridge,
  logging_argument, log4j_file,
}
use rc_launcher.Launch.Bridge.{desktop_args}
use rc_launcher.Launch.Bridge.Bundle.{is_graphical}
use rc_launcher.Launch.GameArgs.{
  game_args, game_templates, mentions_quick_play, add_window, add_demo, add_server,
}
use rc_launcher.Launch.Merge.{
  merge_user, merge_manifest, take_manifest, replaced_prefix, is_overridden, defines_property,
}
use rc_launcher.Launch.Path.{join_path, contains_path}
use rc_launcher.Launch.Table.{substitutions, assets_index}
use rc_launcher.Mods.Constraint.{skip_start, skip_end, has_char}
use rc_launcher.Launch.Build.{build, main_class_of, jvm_args, manifest_jvm, assemble}
use rc_launcher.Launch.Classpath.{Classpath}
use rc_launcher.Launch.Command.{
  LaunchCommand, redact_with, to_shell_string, command_args, validate_command, any_placeholder,
  has_classpath_flag, is_classpath_flag, property_key, shell_quote, all_safe, escape_quotes,
}
use rc_launcher.Launch.Command.Redact.{Opaque, redact_with-has_text}
use rc_launcher.Launch.Command.Shell.{shell_words, shell_words-to_shell_string}
use rc_launcher.Launch.Crash.{
  diagnose, verdict, scan_lines, scan_line, scan_trimmed, note_rule, add_evidence, find_rule,
  exited_cleanly, signal_cause, native_cause,
}
use rc_launcher.Launch.Crash.Line.{
  has_any, truncate, extract_exception, any_exception, extract_hs_err_paths, hs_err_of, add_files,
}
use rc_launcher.Launch.Crash.Rules.{rules, out_of_memory}
use rc_launcher.Launch.Crash.Evidence.{Brief, diagnose-Brief}
use rc_launcher.Launch.Crash.Verdict.{first_cause, diagnose-verdict}
use rc_launcher.Launch.Env.{
  library_path, candidate_dirs, push_dirs, set_all, jre_lib_dirs, system_lib_dirs,
}
use rc_launcher.Launch.Options.{
  LaunchOptions, validate_memory, offline_account, default_window, gl4es, balanced, no_quick_play,
  validate_options, validate_account, memory_args, min_heap_args, natives_dir_for, gl_libname,
  user_type_str,
}
use rc_launcher.Launch.Text.{
  has_text, split_once, join_with, digits_fuel, ends_with, split_where, split_whitespace,
}
use rc_launcher.Runtime.{java17, arm64_v8a, as_android_abi}

abbrev table : Substitutions
table = (codes "who", codes "Steve") ∷ []

apply_run : apply table (codes "${who}!${x") ≡ codes "Steve!${x"
unfolding apply apply_fuel after_open split_once fill_in lookup text_eq
apply_run = refl

abbrev raws : List Text
raws =
    codes "--username"
    ∷ codes "${who}"
    ∷ codes "--xuid"
    ∷ codes "${auth_xuid}"
    ∷ codes "--demo"
    ∷ []

prune_unresolved-survivors_example :
    ((prune_unresolved raws table).args ≡ (survivors table raws).0)
    × (length (prune_unresolved raws table).dropped ≡ count_unresolved table raws)
    × All (λ a. unresolved table a ≡ []) (prune_unresolved raws table).args
    × Sublist (prune_unresolved raws table).args (map (apply table) raws)
prune_unresolved-survivors_example = prune_unresolved-survivors table raws

-- The flag of the value that is dropped goes with it.
prune_run :
    (prune_unresolved raws table).args ≡ codes "--username" ∷ codes "Steve" ∷ codes "--demo" ∷ []
unfolding prune_unresolved prune_from prune_one split_last drop_behind drop_note apply apply_fuel
    after_open split_once fill_in lookup text_eq unresolved unresolved_fuel defines is_flag
    starts_with join_with
prune_run = refl

-- Every JSON value is a string.
abbrev outside : Outside Text
outside = record {
  json = record {
    as_string = λ t. some t;
    is_object = λ t. false;
    get = λ t key. none;
    as_array = λ t. none;
    to_rules = λ t. none;
  };
  show_json = λ t. t;
  jars = λ backend. none;
  is_file = λ path. false;
}

abbrev options : LaunchOptions
options = record {
  game_dir = codes "/g";
  data_root = codes "/d";
  java_home = codes "/j";
  java_version = java17;
  abi = arm64_v8a;
  native_lib_dir = none;
  natives_dir = none;
  memory = record { min_mb = none; max_mb = 1024 };
  window = default_window;
  account = offline_account (codes "Steve") (codes "u");
  renderer = gl4es;
  perf_profile = balanced;
  demo = false;
  fullscreen = true;
  server = none;
  quick_play = no_quick_play;
  launcher_name = codes "RC";
  launcher_version = codes "1";
  extra_jvm_args = codes "-cp" ∷ codes "x.jar" ∷ codes "-Xss1M" ∷ [];
  extra_game_args = codes "--last" ∷ [];
  env_overrides = (codes "HOME", codes "/h") ∷ [];
  use_cacio = false;
  awt_transport_dir = none;
  processor_count = none;
}

abbrev version : ResolvedVersion Text
version = record {
  id = codes "1.20";
  kind = none;
  asset_index = none;
  assets = none;
  downloads = no_downloads;
  libraries = [];
  main_class = some (codes "M");
  minecraft_arguments = none;
  arguments = some (record {
    game =
        codes "--username"
        ∷ codes "${auth_player_name}"
        ∷ codes "--xuid"
        ∷ codes "${auth_xuid}"
        ∷ [];
    jvm = codes "-cp" ∷ codes "${classpath}" ∷ codes "-Duser.home=x" ∷ codes "-Da=1" ∷ [];
  });
  java_version = none;
  logging = none;
}

abbrev class_path : Classpath
class_path = record {
  entries = codes "/d/a.jar" ∷ codes "/d/c.jar" ∷ [];
  native_jars = [];
  native_dirs = [];
  substituted = [];
  collapsed = [];
}

abbrev command_of : RcResult LaunchCommand → LaunchCommand
command_of (ok c) = c
command_of (err e) = record {
  program = [];
  jvm_args = [];
  main_class = [];
  game_args = [];
  working_dir = [];
  env = [];
  version_id = [];
  notes = [];
  secrets = [];
}

-- The manifest's class path, its value for a key of the launcher, the unknown account and the user's
-- class path are gone.
built_jvm_run :
    (command_of (build outside options version class_path)).game_args
    ≡ codes "--username" ∷ codes "Steve" ∷ codes "--fullscreen" ∷ codes "--last" ∷ []
unfolding build validate_options validate_account validate_memory skip_start skip_end starts_with
    main_class_of jvm_args manifest_jvm flatten_arguments flatten_entry prune_unresolved prune_from
    prune_one split_last drop_behind drop_note apply apply_fuel after_open split_once fill_in lookup
    text_eq unresolved unresolved_fuel defines is_flag join_with substitutions set_all set game_args
    game_templates validate_command assemble command_args any_placeholder has_classpath_flag
    is_classpath_flag contains has_text merge_user merge_manifest take_manifest replaced_prefix
    is_overridden defines_property property_key base_jvm_args fixed_jvm_args memory_args
    min_heap_args digits_fuel processor_args encoding_args jna_args awt_bridge desktop_args
    is_graphical logging_argument log4j_file join_path ends_with library_path candidate_dirs
    push_dirs contains_path path_eq texts_eq components split_on natives_dir_for as_android_abi
    jre_lib_dirs system_lib_dirs mentions_quick_play add_window add_demo add_server has_flag
    gl_libname user_type_str assets_index
built_jvm_run = refl

abbrev token : Text
token = codes "abcdefghij"

token-Opaque : Opaque token
unfolding Lacks
token-Opaque = record {
  long = omega arith;
  no_open = (refl, (refl, (refl, (refl, (refl, (refl, (refl, (refl, (refl, (refl, tt))))))))));
  no_close = (refl, (refl, (refl, (refl, (refl, (refl, (refl, (refl, (refl, (refl, tt))))))))));
}

redact_with-has_text_example :
    has_text token (redact_with ([] ++ (token ∷ [])) (codes "--token abcdefghij")) ≡ false
redact_with-has_text_example =
    redact_with-has_text [] [] token (codes "--token abcdefghij") token-Opaque

shell_words-to_shell_string_example :
    let c = command_of (build outside options version class_path) in
    shell_words (to_shell_string c)
    ≡ some (c.program ∷ map (redact_with c.secrets) (command_args c))
shell_words-to_shell_string_example =
    shell_words-to_shell_string (command_of (build outside options version class_path))

shell_quote_run : shell_quote (codes "it's") ≡ codes "'it'\\''s'"
unfolding shell_quote all_safe escape_quotes has_char
shell_quote_run = refl

abbrev log : List Text
log =
    codes "[main] SIGSEGV in libgl"
    ∷ codes "java.lang.OutOfMemoryError: Java heap space"
    ∷ codes "[main] SIGSEGV in libgl"
    ∷ []

diagnose-verdict_example :
    (diagnose none (some (pos 6)) log false).category
    ≡ verdict none (some (pos 6)) false (first_cause rules log)
diagnose-verdict_example = diagnose-verdict none (some (pos 6)) log false

diagnose-Brief_example :
    let r = diagnose none (some (pos 6)) log false in Brief r.evidence r.exception
diagnose-Brief_example = diagnose-Brief none (some (pos 6)) log false

-- The memory that ran out explains the abort better than the signal.
diagnose_run : (diagnose none (some (pos 6)) log false).category ≡ out_of_memory
unfolding diagnose scan_lines scan_line scan_trimmed note_rule add_evidence find_rule has_any
    has_text starts_with skip_start skip_end truncate contains text_eq extract_exception
    any_exception split_whitespace trim_end ends_with has_char extract_hs_err_paths split_where
    hs_err_of add_files verdict exited_cleanly signal_cause native_cause
diagnose_run = refl
