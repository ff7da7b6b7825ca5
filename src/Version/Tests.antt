-- ===== src/Version/Tests.antt =====
-- The theorems on src/version.rs and on the check of src/file_loader.rs at concrete versions.
use marreta_lang.Base.{◌≡◌, ◌↔◌, refl, ◌∷◌, ◌++◌, some, arith, true}
use marreta_lang.Base.Results.{ok}
use marreta_lang.Text.{codes, is_whitespace, strip_prefix, split}
use marreta_lang.Text.Trim.{all_whitespace, trim_start, trim_end}
use marreta_lang.Text.Decimal.{parse_u64, checked_decimal}
use marreta_lang.Version.{parse_version, parse_requires_marreta, parse_parts}
use marreta_lang.Version.Laws.{version_text, parse_version-plus}
use marreta_lang.Version.Runtime.{
  marreta_version, check_runtime_compatibility, check_minimum, VersionLe,
  check_runtime_compatibility_iff,
}

parse_version-plus_example : parse_version (b'+' ∷ version_text 1 20 3) ≡ some (1, 20, 3)
parse_version-plus_example = parse_version-plus 1 20 3 (omega arith) (omega arith) (omega arith)

blank-whitespace : all_whitespace (codes " ") ≡ true
unfolding is_whitespace
blank-whitespace = refl

check_runtime_compatibility_iff_example :
    (check_runtime_compatibility marreta_version (codes ">=" ++ version_text 0 1 9) ≡ ok tt)
    ↔ VersionLe (0, 1, 9) marreta_version
check_runtime_compatibility_iff_example =
    check_runtime_compatibility_iff marreta_version 0 1 9 (omega arith) (omega arith) (omega arith)

old-loads : check_runtime_compatibility marreta_version (codes ">= 0.1.9") ≡ ok tt
unfolding check_runtime_compatibility check_minimum parse_requires_marreta parse_version parse_parts
    parse_u64 checked_decimal strip_prefix split trim_start trim_end is_whitespace
old-loads = refl
