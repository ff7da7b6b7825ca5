-- ===== src/Trace.antt =====
-- src/trace_context.rs: W3C trace contexts.
pub mod State
pub mod Context
pub mod Header
mod Tests
use marreta_lang.Base.{
  ℕ, zero, suc, ◌+◌, ◌/◌, ◌%◌, Bool, true, false, not, ◌&&◌, ◌||◌, List, [], ◌∷◌, ◌++◌, leb, ltb,
  ◌==◌, within, if◌then◌else◌, bind, Option, none, some, all, any, is_empty, length,
}
use marreta_lang.Text.{
  Text, codes, text_eq, split, split_once, join, byte_len, is_ascii_digit, is_ascii_lowercase,
  is_ascii_control,
}
use marreta_lang.Text.Trim.{trim}

pub record TraceContext : Type 0 where
  pub trace_id : Text
  pub span_id : Text
  pub trace_flags : Text
  pub tracestate : Option Text

pub record ParsedTraceparent : Type 0 where
  pub trace_id : Text
  pub trace_flags : Text

abbrev pub traceparent_version : Text
traceparent_version = codes "00"

abbrev pub is_hex_char : ℕ → Bool
is_hex_char c = is_ascii_digit c || within b'a' b'f' c

unfoldable pub is_lower_hex : Text → ℕ → Bool
is_lower_hex value expected_len = byte_len value == expected_len && all is_hex_char value

unfoldable pub is_all_zero : Text → Bool
is_all_zero value = all (λ c. c == b'0') value

-- The tests of `parse_traceparent` on its parts, of which there are exactly four.
unfoldable pub parse_four : List Text → Option ParsedTraceparent
parse_four (version ∷ trace_id ∷ parent_id ∷ trace_flags ∷ []) =
    if not (text_eq version traceparent_version)
    then none
    else if not (is_lower_hex trace_id 32) || is_all_zero trace_id
    then none
    else if not (is_lower_hex parent_id 16) || is_all_zero parent_id
    then none
    else if not (is_lower_hex trace_flags 2)
    then none
    else some (record { trace_id = trace_id; trace_flags = trace_flags })
parse_four _ = none

unfoldable pub parse_traceparent : Text → Option ParsedTraceparent
parse_traceparent value = parse_four (split b'-' value)

unfoldable pub traceparent : TraceContext → Text
traceparent c = join (codes "-") (traceparent_version ∷ c.trace_id ∷ c.span_id ∷ c.trace_flags ∷ [])

abbrev pub is_key_tail : ℕ → Bool
is_key_tail c =
    is_ascii_lowercase c || is_ascii_digit c || c == b'_' || c == b'-' || c == b'*' || c == b'/'

-- `is_valid_tracestate_key_part` on the bytes of a part that is not too long.
abbrev pub valid_key_chars : Bool → Text → Bool
valid_key_chars allow_digit_first [] = false
valid_key_chars allow_digit_first (c ∷ cs) =
    (is_ascii_lowercase c || (allow_digit_first && is_ascii_digit c)) && all is_key_tail cs

unfoldable pub is_valid_tracestate_key_part : Text → ℕ → Bool → Bool
is_valid_tracestate_key_part part max_len allow_digit_first =
    not (ltb max_len (byte_len part)) && valid_key_chars allow_digit_first part

abbrev pub contains_char : ℕ → Text → Bool
contains_char c = any (λ d. d == c)

-- The branches of `is_valid_tracestate_key`, by `key.split_once('@')`.
unfoldable pub valid_key_split : Text → Option (Text × Text) → Bool
valid_key_split key (some (tenant_id, system_id)) =
    not (contains_char b'@' system_id)
    && is_valid_tracestate_key_part tenant_id 241 true
    && is_valid_tracestate_key_part system_id 14 false
valid_key_split key none = is_valid_tracestate_key_part key 256 true

unfoldable pub is_valid_tracestate_key : Text → Bool
is_valid_tracestate_key key =
    if is_empty key then false else valid_key_split key (split_once b'@' key)

abbrev pub is_value_char : ℕ → Bool
is_value_char c = within 0x20 0x2b c || within 0x2d 0x3c c || within 0x3e 0x7e c

abbrev pub is_value_end : ℕ → Bool
is_value_end c = within 0x21 0x2b c || within 0x2d 0x3c c || within 0x3e 0x7e c

-- `value.bytes().last().is_some_and(..)`
abbrev pub last_satisfies : (ℕ → Bool) → Text → Bool
last_satisfies p [] = false
last_satisfies p (c ∷ []) = p c
last_satisfies p (c ∷ d ∷ cs) = last_satisfies p (d ∷ cs)

unfoldable pub is_valid_tracestate_value : Text → Bool
is_valid_tracestate_value value =
    not (is_empty value)
    && leb (byte_len value) 256
    && all is_value_char value
    && last_satisfies is_value_end value

abbrev pub valid_entry_split : Option (Text × Text) → Bool
valid_entry_split none = false
valid_entry_split (some (key, value)) =
    is_valid_tracestate_key key && is_valid_tracestate_value value

unfoldable pub is_valid_tracestate_entry : Text → Bool
is_valid_tracestate_entry entry = valid_entry_split (split_once b'=' entry)

-- The `for` loop of `sanitize_tracestate`.
unfoldable pub keep_entries : List Text → List Text
keep_entries [] = []
keep_entries (raw ∷ parts) =
    let entry = trim raw in
    let rest = keep_entries parts in
    if is_empty entry
    then rest
    else if not (is_valid_tracestate_entry entry)
    then rest
    else entry ∷ rest

-- `entries.pop()`
abbrev pub pop : List Text → List Text
pop [] = []
pop (e ∷ []) = []
pop (e ∷ f ∷ es) = e ∷ pop (f ∷ es)

abbrev pub max_tracestate_entries : ℕ
max_tracestate_entries = 32

abbrev pub max_tracestate_len : ℕ
max_tracestate_len = 512

abbrev pub too_large : List Text → Bool
too_large entries =
    ltb max_tracestate_entries (length entries)
    || ltb max_tracestate_len (byte_len (join (codes ",") entries))

-- The `while` loop, with fuel.
unfoldable pub shrink : ℕ → List Text → List Text
shrink zero entries = entries
shrink (suc fuel) entries =
    let fewer = shrink fuel (pop entries) in if too_large entries then fewer else entries

abbrev pub joined : List Text → Option Text
joined [] = none
joined (e ∷ es) = some (join (codes ",") (e ∷ es))

unfoldable pub sanitize_text : Text → Option Text
sanitize_text value =
    if is_empty value || any is_ascii_control value
    then none
    else (let entries = keep_entries (split b',' value) in joined (shrink (length entries) entries))

unfoldable pub sanitize_tracestate : Option Text → Option Text
sanitize_tracestate none = none
sanitize_tracestate (some value) = sanitize_text value

abbrev pub hex_digit : ℕ → ℕ
hex_digit d = if ltb d 10 then d + b'0' else d + 87

-- `write!(&mut out, "{byte:02x}")` for each byte.
unfoldable pub hex_lower : List ℕ → Text
hex_lower [] = []
hex_lower (b ∷ bs) = hex_digit (b / 16) ∷ hex_digit (b % 16) ∷ hex_lower bs

-- The random source of the operating system: the bytes of its i-th answer of a given length.
pub record Entropy : Type 0 where
  pub fill : ℕ → ℕ → List ℕ

abbrev pub has_nonzero : List ℕ → Bool
has_nonzero = any (λ b. not (b == 0))

-- The `loop` of `random_hex_nonzero::<N>`, with fuel: the answers from the i-th on, and the number
-- of the next one.
unfoldable pub random_hex_nonzero : Entropy → ℕ → ℕ → ℕ → Option (Text × ℕ)
random_hex_nonzero source n zero i = none
random_hex_nonzero source n (suc fuel) i =
    let again = random_hex_nonzero source n fuel (suc i) in
    if has_nonzero (source.fill i n) then some (hex_lower (source.fill i n), suc i) else again

infixl 5 ◌>>=◌
abbrev ◌>>=◌ {ℓ κ} : {A : Type ℓ} {B : Type κ} → Option A → (A → Option B) → Option B
o >>= f = bind o f

module _ (source : Entropy) (fuel : ℕ) where
  unfoldable pub root : ℕ → Option (TraceContext × ℕ)
  root i = do
    (trace_id, j) ← random_hex_nonzero source 16 fuel i
    (span_id, k) ← random_hex_nonzero source 8 fuel j
    some (
      record {
        trace_id = trace_id;
        span_id = span_id;
        trace_flags = codes "00";
        tracestate = none;
      },
      k,
    )

  unfoldable pub from_parent :
      Option ParsedTraceparent → Option Text → ℕ → Option (TraceContext × ℕ)
  from_parent none tracestate i = root i
  from_parent (some parsed) tracestate i = do
    (span_id, j) ← random_hex_nonzero source 8 fuel i
    some (
      record {
        trace_id = parsed.trace_id;
        span_id = span_id;
        trace_flags = parsed.trace_flags;
        tracestate = sanitize_tracestate tracestate;
      },
      j,
    )

  unfoldable pub from_headers : Option Text → Option Text → ℕ → Option (TraceContext × ℕ)
  from_headers none tracestate i = root i
  from_headers (some parent) tracestate i = from_parent (parse_traceparent parent) tracestate i

  unfoldable pub outbound_child : TraceContext → ℕ → Option (TraceContext × ℕ)
  outbound_child c i = do
    (span_id, j) ← random_hex_nonzero source 8 fuel i
    some (record c { span_id = span_id }, j)
