-- ===== src/Runtime.antt =====
-- runtime/java_version.rs and runtime/abi.rs: the Java runtimes that the launcher ships, the ABIs of a
-- device, and their names.
use rc_launcher.Base.{ℕ, ◌==◌, Option, none, some, List, [], ◌∷◌, if◌then◌else◌}
use rc_launcher.Base.Text.{Text, codes, text_eq}

pub data JavaVersion : Type 0 where
  java8 java17 java21 java25 : JavaVersion

-- `JavaVersion::all`
abbrev pub all_java_versions : List JavaVersion
all_java_versions = java8 ∷ java17 ∷ java21 ∷ java25 ∷ []

unfoldable pub as_jre_dir : JavaVersion → Text
as_jre_dir java8 = codes "jre8"
as_jre_dir java17 = codes "jre17"
as_jre_dir java21 = codes "jre21"
as_jre_dir java25 = codes "jre25"

unfoldable pub major : JavaVersion → ℕ
major java8 = 8
major java17 = 17
major java21 = 21
major java25 = 25

unfoldable pub from_jre_dir : Text → Option JavaVersion
from_jre_dir s =
    if text_eq s (codes "jre8")
    then some java8
    else if text_eq s (codes "jre17")
    then some java17
    else if text_eq s (codes "jre21")
    then some java21
    else if text_eq s (codes "jre25")
    then some java25
    else none

unfoldable pub from_major : ℕ → Option JavaVersion
from_major m =
    if m == 8
    then some java8
    else if m == 17
    then some java17
    else if m == 21
    then some java21
    else if m == 25
    then some java25
    else none

pub data Abi : Type 0 where
  arm64_v8a armeabi_v7a x86 x86_64 : Abi

-- `Abi::all`
abbrev pub all_abis : List Abi
all_abis = arm64_v8a ∷ armeabi_v7a ∷ x86 ∷ x86_64 ∷ []

unfoldable pub as_android_abi : Abi → Text
as_android_abi arm64_v8a = codes "arm64-v8a"
as_android_abi armeabi_v7a = codes "armeabi-v7a"
as_android_abi x86 = codes "x86"
as_android_abi x86_64 = codes "x86_64"

unfoldable pub as_fcl_suffix : Abi → Text
as_fcl_suffix arm64_v8a = codes "arm64"
as_fcl_suffix armeabi_v7a = codes "arm"
as_fcl_suffix x86 = codes "x86"
as_fcl_suffix x86_64 = codes "x86_64"

unfoldable pub from_android_abi : Text → Option Abi
from_android_abi s =
    if text_eq s (codes "arm64-v8a")
    then some arm64_v8a
    else if text_eq s (codes "armeabi-v7a")
    then some armeabi_v7a
    else if text_eq s (codes "x86")
    then some x86
    else if text_eq s (codes "x86_64")
    then some x86_64
    else none
