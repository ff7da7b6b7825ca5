-- ===== src/Text/Chars.antt =====
-- The character classes and case maps of `char` and `u8`.
use marreta_lang.Base.{
  ℕ, ◌+◌, ◌-◌, ◌<◌, ◌≡◌, refl, Bool, true, false, ◌||◌, [], ◌∷◌, map, arith, ltb, ◌==◌, within,
  if◌then◌else◌, all,
}
use marreta_lang.Text.Equal.{Text}

abbrev pub is_ascii_lowercase : ℕ → Bool
is_ascii_lowercase c = within b'a' b'z' c

abbrev pub is_ascii_uppercase : ℕ → Bool
is_ascii_uppercase c = within b'A' b'Z' c

abbrev pub is_ascii_digit : ℕ → Bool
is_ascii_digit c = within b'0' b'9' c

abbrev pub is_ascii_alphabetic : ℕ → Bool
is_ascii_alphabetic c = is_ascii_lowercase c || is_ascii_uppercase c

abbrev pub is_ascii_alphanumeric : ℕ → Bool
is_ascii_alphanumeric c = is_ascii_alphabetic c || is_ascii_digit c

abbrev pub is_ascii_control : ℕ → Bool
is_ascii_control c = ltb c 0x20 || c == 0x7f

-- `char::is_whitespace`: the Unicode property White_Space.
unfoldable pub is_whitespace : ℕ → Bool
is_whitespace c =
    within 9 13 c
    || c == 0x20
    || c == 0x85
    || c == 0xa0
    || c == 0x1680
    || within 0x2000 0x200a c
    || within 0x2028 0x2029 c
    || c == 0x202f
    || c == 0x205f
    || c == 0x3000

unfoldable pub to_ascii_lowercase : ℕ → ℕ
to_ascii_lowercase c = if is_ascii_uppercase c then c + 32 else c

unfoldable pub to_ascii_uppercase : ℕ → ℕ
to_ascii_uppercase c = if is_ascii_lowercase c then c - 32 else c

abbrev pub lowercase : Text → Text
lowercase = map to_ascii_lowercase

abbrev pub uppercase : Text → Text
uppercase = map to_ascii_uppercase

-- Lowering undoes raising on text with no upper-case letter.
pub lowercase-uppercase :
    (s : Text)
    → all (λ c. is_ascii_lowercase c || is_ascii_digit c || c == b'_') s ≡ true
    → lowercase (uppercase s) ≡ s
unfolding to_ascii_lowercase to_ascii_uppercase
lowercase-uppercase [] h = refl
lowercase-uppercase (c ∷ s) h = ground (arith, lowercase-uppercase s)

-- The length of the UTF-8 encoding of a code point, and `str::len`.
abbrev pub utf8_len : ℕ → ℕ
utf8_len c = if ltb c 0x80 then 1 else if ltb c 0x800 then 2 else if ltb c 0x1_0000 then 3 else 4

unfoldable pub byte_len : Text → ℕ
byte_len [] = 0
byte_len (c ∷ s) = utf8_len c + byte_len s

-- Printable ASCII is no whitespace.
pub is_whitespace-printable : (c : ℕ) → 0x20 < c → c < 0x7f → is_whitespace c ≡ false
unfolding is_whitespace
is_whitespace-printable c h k = ground arith
