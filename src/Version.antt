-- ===== src/Version.antt =====
-- src/version.rs: versions and the `requires_marreta` setting.
pub mod Laws
pub mod Runtime
mod Tests
use marreta_lang.Base.{
  ℕ, Bool, true, false, List, [], ◌∷◌, bind, Option, none, some, any, if◌then◌else◌, ◌==◌,
}
use marreta_lang.Text.{Text, codes, strip_prefix, split, is_whitespace}
use marreta_lang.Text.Trim.{trim}
use marreta_lang.Text.Decimal.{parse_u64}

abbrev pub Version : Type 0
Version = ℕ × ℕ × ℕ

infixl 5 ◌>>=◌
abbrev ◌>>=◌ {ℓ κ} : {A : Type ℓ} {B : Type κ} → Option A → (A → Option B) → Option B
o >>= f = bind o f

-- The three calls of `parts.next()?.parse().ok()?`, and the test that nothing follows.
unfoldable pub parse_parts : List Text → Option Version
parse_parts (a ∷ b ∷ c ∷ rest) = do
  major ← parse_u64 a
  minor ← parse_u64 b
  patch ← parse_u64 c
  elim rest [ [] ↦ some (major, minor, patch) | _ ∷ _ ↦ none ]
parse_parts _ = none

unfoldable pub parse_version : Text → Option Version
parse_version value = parse_parts (split b'.' value)

-- `after_op.strip_prefix(' ').unwrap_or(after_op)`
abbrev pub skip_space : Text → Text
skip_space [] = []
skip_space (c ∷ cs) = if c == b' ' then cs else c ∷ cs

abbrev pub without_whitespace : Text → Option Version
without_whitespace version = if any is_whitespace version then none else parse_version version

unfoldable pub parse_requires_marreta : Text → Option Version
parse_requires_marreta value = do
  after_op ← strip_prefix (codes ">=") (trim value)
  without_whitespace (skip_space after_op)
