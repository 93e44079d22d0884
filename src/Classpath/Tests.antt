-- ===== src/Classpath/Tests.antt =====
-- Runs of the order of launch/classpath.rs on concrete inputs.
use Prim.Native.Nat.{lt}
use rc_launcher.Base.{◌≡◌, refl}
use rc_launcher.Base.Text.{codes, starts_with}
use rc_launcher.Classpath.{
  split_pieces, without_empty, parse_u64, compare_texts, is_prerelease, compare_parsed, compare_all,
  compare_maven_versions,
}

numbers_run : compare_maven_versions (codes "1.9") (codes "1.10") ≡ lt
unfolding compare_maven_versions split_pieces without_empty parse_u64 compare_texts is_prerelease
    compare_parsed compare_all starts_with
numbers_run = refl

-- Each of three versions is below the next one, in a circle.
circle_run :
    (compare_maven_versions (codes "1-a") (codes "1-beta") ≡ lt)
    × (compare_maven_versions (codes "1-beta") (codes "1") ≡ lt)
    × (compare_maven_versions (codes "1") (codes "1-a") ≡ lt)
unfolding compare_maven_versions split_pieces without_empty parse_u64 compare_texts is_prerelease
    compare_parsed compare_all starts_with
circle_run = (refl, refl, refl)
