-- ===== src/Launch/Crash/Rules.antt =====
-- launch/crash.rs: the categories of a crash and the patterns of a line of the log that point to each.
use rc_launcher.Base.{List, [], ◌∷◌, String}
use rc_launcher.Base.Text.{Text, codes}

pub data CrashCategory : Type 0 where
  clean_exit user_terminated killed_by_system out_of_memory unsupported_java_version
        missing_native_library graphics_failure native_crash :
      CrashCategory
  corrupted_file missing_main_class authentication_failure disk_full permission_denied
        mod_loader_failure game_error unknown :
      CrashCategory

-- `CrashCategory::id`
unfoldable pub category_id : CrashCategory → Text
category_id clean_exit = codes "clean_exit"
category_id user_terminated = codes "user_terminated"
category_id killed_by_system = codes "killed_by_system"
category_id out_of_memory = codes "out_of_memory"
category_id unsupported_java_version = codes "unsupported_java_version"
category_id missing_native_library = codes "missing_native_library"
category_id graphics_failure = codes "graphics_failure"
category_id native_crash = codes "native_crash"
category_id corrupted_file = codes "corrupted_file"
category_id missing_main_class = codes "missing_main_class"
category_id authentication_failure = codes "authentication_failure"
category_id disk_full = codes "disk_full"
category_id permission_denied = codes "permission_denied"
category_id mod_loader_failure = codes "mod_loader_failure"
category_id game_error = codes "game_error"
category_id unknown = codes "unknown"

pub record CrashRule : Type 0 where
  pub category : CrashCategory
  pub patterns : List Text

abbrev all_codes : List String → List Text
all_codes [] = []
all_codes (s ∷ ss) = codes s ∷ all_codes ss

abbrev rule : CrashCategory → List String → CrashRule
rule c ps = record { category = c; patterns = all_codes ps }

-- `RULES`
abbrev pub rules : List CrashRule
rules =
    rule out_of_memory (
      "java.lang.outofmemoryerror" ∷ "could not reserve enough space for object heap"
      ∷ "there is insufficient memory for the java runtime environment"
      ∷ "native memory allocation (mmap) failed" ∷ "out of memory: java heap space" ∷ [])
    ∷ rule unsupported_java_version (
        "unsupportedclassversionerror" ∷ "unsupported class file major version"
        ∷ "has been compiled by a more recent version of the java runtime" ∷ "unrecognized option:"
        ∷ "unrecognized vm option" ∷ "requires java" ∷ [])
    ∷ rule missing_native_library (
        "unsatisfiedlinkerror" ∷ "no lwjgl in java.library.path" ∷ "failed to locate library"
        ∷ "dlopen failed" ∷ "cannot load library" ∷ "library not found" ∷ [])
    ∷ rule graphics_failure (
        "glfw error" ∷ "failed to create window" ∷ "pixel format not accelerated"
        ∷ "no opengl context" ∷ "eglmakecurrent" ∷ "eglinitialize" ∷ "egl_bad" ∷ "libgl error"
        ∷ "opengl 1.2 or higher" ∷ "opengl 3.2 or higher" ∷ "failed to initialize graphics"
        ∷ "org.lwjgl.glfw.glfwexception" ∷ "renderer initialization failed" ∷ [])
    ∷ rule native_crash (
        "a fatal error has been detected by the java runtime environment" ∷ "sigsegv" ∷ "sigbus"
        ∷ "sigill" ∷ "sigabrt" ∷ "exception_access_violation" ∷ "problematic frame" ∷ [])
    ∷ rule corrupted_file (
        "zipexception" ∷ "invalid or corrupt jarfile" ∷ "error in opening zip file"
        ∷ "unexpected end of zlib input stream" ∷ "premature end of file" ∷ "invalid checksum" ∷ [])
    ∷ rule missing_main_class (
        "could not find or load main class" ∷ "classnotfoundexception: net.minecraft"
        ∷ "noclassdeffounderror: net/minecraft/client/main/main" ∷ [])
    ∷ rule authentication_failure (
        "invalid session" ∷ "failed to verify username" ∷ "authentication failed"
        ∷ "invalid access token" ∷ "the authentication is invalid"
        ∷ "insufficientprivilegesexception" ∷ [])
    ∷ rule disk_full ("no space left on device" ∷ "enospc" ∷ "disk quota exceeded" ∷ [])
    ∷ rule permission_denied ("permission denied" ∷ "eacces" ∷ "read-only file system" ∷ [])
    ∷ rule mod_loader_failure (
        "mixin apply failed" ∷ "mixinapplyerror" ∷ "mixintransformererror" ∷ "loaderexception"
        ∷ "modresolutionexception" ∷ "incompatible mods found" ∷ "duplicate mods"
        ∷ "missing or unsupported mandatory dependencies" ∷ "failed to load mods"
        ∷ "the game will now exit: incompatible" ∷ "nosuchmethoderror" ∷ "noclassdeffounderror"
        ∷ [])
    ∷ rule game_error (
        "exception in thread \"main\"" ∷ "minecraft crash report" ∷ "unexpected error"
        ∷ "reportedexception" ∷ [])
    ∷ []
