-- ===== src/Game/Platform.antt =====
-- game/platform.rs: the platform that downloads are chosen for, and the conditions of a rule on it.
use rc_launcher.Base.{Bool, true, false, ◌&&◌, ◌||◌, Option, none, some, [], if◌then◌else◌}
use rc_launcher.Base.Text.{Text, codes, text_eq}
use rc_launcher.Game.Pattern.{version_matches}

pub data OsName : Type 0 where
  linux windows osx : OsName

-- `as_rule_str` of an `OsName`
unfoldable pub os_rule_str : OsName → Text
os_rule_str linux = codes "linux"
os_rule_str windows = codes "windows"
os_rule_str osx = codes "osx"

-- `OsName::from_rule`
unfoldable pub os_from_rule : Text → Option OsName
os_from_rule s =
    if text_eq s (codes "linux")
    then some linux
    else if text_eq s (codes "windows")
    then some windows
    else if text_eq s (codes "osx") || text_eq s (codes "mac")
    then some osx
    else none

-- `PartialEq` of `OsName`
unfoldable pub os_eq : OsName → OsName → Bool
os_eq linux linux = true
os_eq windows windows = true
os_eq osx osx = true
os_eq _ _ = false

pub data Arch : Type 0 where
  x86 x86_64 arm arm64 unknown : Arch

-- `as_rule_str` of an `Arch`
unfoldable pub arch_rule_str : Arch → Text
arch_rule_str x86 = codes "x86"
arch_rule_str x86_64 = codes "x86_64"
arch_rule_str arm = codes "arm"
arch_rule_str arm64 = codes "aarch64"
arch_rule_str unknown = []

-- `Arch::from_rule`
unfoldable pub arch_from_rule : Text → Option Arch
arch_from_rule s =
    if text_eq s (codes "x86")
    then some x86
    else if text_eq s (codes "x86_64") || text_eq s (codes "amd64")
    then some x86_64
    else if text_eq s (codes "arm")
    then some arm
    else if text_eq s (codes "aarch64") || text_eq s (codes "arm64")
    then some arm64
    else none

-- `PartialEq` of `Arch`
unfoldable pub arch_eq : Arch → Arch → Bool
arch_eq x86 x86 = true
arch_eq x86_64 x86_64 = true
arch_eq arm arm = true
arch_eq arm64 arm64 = true
arch_eq unknown unknown = true
arch_eq _ _ = false

pub record Platform : Type 0 where
  pub os : OsName
  pub arch : Arch
  pub os_version : Text

-- `Platform::android`
abbrev pub android : Platform
android = record { os = linux; arch = arm64; os_version = [] }

pub record OsRule : Type 0 where
  pub name : Option Text
  pub arch : Option Text
  pub version : Option Text

-- `OsName::from_rule(n) == Some(platform.os)`
unfoldable pub is_os : Text → OsName → Bool
is_os n os = elim (os_from_rule n) [ none ↦ false | some o ↦ os_eq o os ]

-- `Arch::from_rule(a) == Some(platform.arch)`
unfoldable pub is_arch : Text → Arch → Bool
is_arch a arch = elim (arch_from_rule a) [ none ↦ false | some b ↦ arch_eq b arch ]

-- A condition that is absent holds.
abbrev pub holds_for {ℓ} : {A : Type ℓ} → Option A → (A → Bool) → Bool
holds_for none test = true
holds_for (some a) test = test a

-- `OsRule::matches`
unfoldable pub os_matches : OsRule → Platform → Bool
os_matches r p =
    holds_for r.name (λ n. is_os n p.os)
    && (holds_for r.arch (λ a. is_arch a p.arch)
        && holds_for r.version (λ v. version_matches v p.os_version))
