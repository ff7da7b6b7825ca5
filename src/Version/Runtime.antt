-- ===== src/Version/Runtime.antt =====
-- src/file_loader.rs: `check_runtime_compatibility`, the use of src/version.rs at load time.
use marreta_lang.Base.{
  ℕ, ◌<◌, ◌≤◌, ◌≡◌, ◌↔◌, ◌⊎◌, inl, inr, refl, Bool, false, ◌&&◌, ◌||◌, [], ◌++◌, arith, Option,
  none, some, ltb, ◌==◌, if◌then◌else◌, Bool-cases, append-nil,
}
use marreta_lang.Base.Results.{Result, ok, err}
use marreta_lang.Text.{Text, codes}
use marreta_lang.Text.Trim.{trim}
use marreta_lang.Text.Decimal.{u64_bound}
use marreta_lang.Version.{Version, parse_requires_marreta}
use marreta_lang.Version.Laws.{version_text, parse_requires_marreta-text}

-- `CARGO_PKG_VERSION` of Cargo.toml.
abbrev pub marreta_version : Version
marreta_version = (0, 2, 0)

pub data CompatError : Type 0 where
  invalid_requirement : Text → CompatError
  incompatible_runtime : Text → CompatError

-- `<` of tuples.
abbrev pub version_ltb : Version → Version → Bool
version_ltb (a, b, c) (x, y, z) = ltb a x || (a == x && (ltb b y || (b == y && ltb c z)))

-- The comparison of the parsed minimum with the version of the runtime.
unfoldable pub check_minimum : Version → Text → Option Version → Result CompatError (Unit {0})
check_minimum actual requirement none = err (invalid_requirement requirement)
check_minimum actual requirement (some minimum) =
    if version_ltb actual minimum then err (incompatible_runtime (trim requirement)) else ok tt

unfoldable pub check_runtime_compatibility : Version → Text → Result CompatError (Unit {0})
check_runtime_compatibility actual requirement =
    check_minimum actual requirement (parse_requires_marreta requirement)

-- The order of versions: by major, then minor, then patch.
abbrev pub VersionLe : Version → Version → Type 0
VersionLe (a, b, c) (x, y, z) = (a < x) ⊎ ((a ≡ x) × ((b < y) ⊎ ((b ≡ y) × (c ≤ z))))

version_ltb_iff : (v w : Version) → (version_ltb v w ≡ false) ↔ VersionLe w v
version_ltb_iff (a, b, c) (x, y, z) = (λ h. ground arith, λ h. ground arith)

VersionLe-trans : (u v w : Version) → VersionLe u v → VersionLe v w → VersionLe u w
VersionLe-trans (a, b, c) (x, y, z) (p, q, r) h k = ground arith

check_minimum_iff :
    (actual minimum : Version) (requirement : Text)
    → (check_minimum actual requirement (some minimum) ≡ ok tt) ↔ VersionLe minimum actual
unfolding check_minimum
check_minimum_iff actual minimum requirement = elim (Bool-cases (version_ltb actual minimum)) [
  | inl older ↦ (λ h. cc (rw older at h), λ le. cc (older, (version_ltb_iff actual minimum).1 le))
  | inr enough ↦ (λ h. (version_ltb_iff actual minimum).0 enough, λ le. rw enough)
]

check_minimum_mono :
    (v w : Version) (requirement : Text) (m : Option Version)
    → VersionLe v w
    → check_minimum v requirement m ≡ ok tt
    → check_minimum w requirement m ≡ ok tt
check_minimum_mono v w requirement none le h = unfold check_minimum in cc h
check_minimum_mono v w requirement (some m) le h =
    (check_minimum_iff w m requirement).1
      (VersionLe-trans m v w ((check_minimum_iff v m requirement).0 h) le)

-- A project that asks for >=a.b.c, each part below 2 ^ 64, loads exactly on the runtimes of that
-- version or a later one.
pub check_runtime_compatibility_iff :
    (actual : Version) (a b c : ℕ)
    → a < u64_bound
    → b < u64_bound
    → c < u64_bound
    → (check_runtime_compatibility actual (codes ">=" ++ version_text a b c) ≡ ok tt)
      ↔ VersionLe (a, b, c) actual
unfolding check_runtime_compatibility
check_runtime_compatibility_iff actual a b c ha hb hc =
    let requirement = codes ">=" ++ version_text a b c in
    let read : parse_requires_marreta requirement ≡ some (a, b, c) =
      rw append-nil at (parse_requires_marreta-text [] [] a b c refl refl ha hb hc) in
    rw read (check_minimum_iff actual (a, b, c) requirement)

-- A later runtime loads every project that an earlier one loads.
pub check_runtime_compatibility_mono :
    (v w : Version) (requirement : Text)
    → VersionLe v w
    → check_runtime_compatibility v requirement ≡ ok tt
    → check_runtime_compatibility w requirement ≡ ok tt
unfolding check_runtime_compatibility
check_runtime_compatibility_mono v w requirement le h =
    check_minimum_mono v w requirement (parse_requires_marreta requirement) le h
