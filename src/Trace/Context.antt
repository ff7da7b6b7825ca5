-- ===== src/Trace/Context.antt =====
-- src/trace_context.rs: the identifiers of contexts.
use native.Mathlib.Nat.{add-zero}
use marreta_lang.Base.{
  ℕ, zero, suc, ◌+◌, ◌*◌, ◌/◌, ◌%◌, ◌<◌, ◌≡◌, refl, ap, ◌∙◌, true, false, List, [], ◌∷◌, arith, ltb,
  ◌==◌, Option, none, some, all, length, Bool-cases, OnSome, OnSome-bind, OnSome-some, OnSome-map,
  OnSome-both, inl, inr, and-eq_true, and_true, ==_iff,
}
use marreta_lang.Text.{Text, split, byte_len}
use marreta_lang.Trace.{
  TraceContext, ParsedTraceparent, is_hex_char, is_lower_hex, is_all_zero, parse_four,
  parse_traceparent, hex_digit, hex_lower, Entropy, has_nonzero, random_hex_nonzero, root,
  from_parent, from_headers, outbound_child,
}

-- A text of `n` lower-case hexadecimal digits.
abbrev pub IsHex : Text → ℕ → Type 0
IsHex t n = is_lower_hex t n ≡ true

-- The identifiers have the lengths that the header asks for, and are not zero.
pub record IsTraceContext (c : TraceContext) : Type 0 where
  pub trace_id_hex : IsHex c.trace_id 32
  pub trace_id_nonzero : is_all_zero c.trace_id ≡ false
  pub span_id_hex : IsHex c.span_id 16
  pub span_id_nonzero : is_all_zero c.span_id ≡ false
  pub trace_flags_hex : IsHex c.trace_flags 2

-- What is relied on of the random source: it fills the array with bytes.
pub record IsEntropy (source : Entropy) : Type 0 where
  pub fills : (i n : ℕ) → length (source.fill i n) ≡ n
  pub bytes : (i n : ℕ) → all (λ b. ltb b 256) (source.fill i n) ≡ true

hex_digit-is_hex : (d : ℕ) → d < 16 → is_hex_char (hex_digit d) ≡ true
hex_digit-is_hex d h = ground arith

hex_digit-nonzero : (d : ℕ) → (hex_digit d == b'0') ≡ (d == 0)
hex_digit-nonzero d = ground arith

hex_chars : (bs : List ℕ) → all (λ b. ltb b 256) bs ≡ true → all is_hex_char (hex_lower bs) ≡ true
unfolding hex_lower
hex_chars [] h = refl
hex_chars (b ∷ bs) h =
    let (first, rest) = and-eq_true (ltb b 256) (all (λ (c : ℕ). ltb c 256) bs) h in
    and_true (hex_digit-is_hex (b / 16) (ground arith))
      (and_true (hex_digit-is_hex (b % 16) (omega arith)) (hex_chars bs rest))

is_hex-utf8 : (t : Text) → all is_hex_char t ≡ true → byte_len t ≡ length t
unfolding byte_len
is_hex-utf8 [] h = refl
is_hex-utf8 (c ∷ t) h = ground (arith, is_hex-utf8 t)

length-hex_lower : (bs : List ℕ) → length (hex_lower bs) ≡ 2 * length bs
unfolding hex_lower
length-hex_lower [] = refl
length-hex_lower (b ∷ bs) = omega (arith, length-hex_lower bs)

hex_lower-nonzero : (bs : List ℕ) → has_nonzero bs ≡ true → is_all_zero (hex_lower bs) ≡ false
unfolding hex_lower is_all_zero
hex_lower-nonzero [] h = cc
hex_lower-nonzero (b ∷ bs) h =
    ground (arith, hex_lower-nonzero bs, hex_digit-nonzero (b / 16), hex_digit-nonzero (b % 16))

hex_lower-IsHex :
    (n : ℕ) (bs : List ℕ)
    → length bs ≡ n
    → all (λ b. ltb b 256) bs ≡ true
    → IsHex (hex_lower bs) (2 * n)
unfolding is_lower_hex
hex_lower-IsHex n bs e h =
    let chars = hex_chars bs h in
    let len : byte_len (hex_lower bs) ≡ 2 * n =
      is_hex-utf8 (hex_lower bs) chars ∙ length-hex_lower bs ∙ ap (λ (m : ℕ). 2 * m) e in
    and_true ((==_iff _ _).1 len) chars

-- A text and the number of the next answer, of which the text is an identifier of n bytes.
abbrev IsId : ℕ → Text × ℕ → Type 0
IsId n (t, j) = IsHex t (2 * n) × (is_all_zero t ≡ false)

-- What `random_hex_nonzero` returns is an identifier of that many bytes.
random_hex_nonzero-IsId :
    (source : Entropy) (n fuel i : ℕ)
    → IsEntropy source
    → OnSome (IsId n) (random_hex_nonzero source n fuel i)
unfolding random_hex_nonzero
random_hex_nonzero-IsId source n zero i law = tt
random_hex_nonzero-IsId source n (suc fuel) i law =
    elim (Bool-cases (has_nonzero (source.fill i n))) [
      | inl nonzero ↦ rw nonzero (
        hex_lower-IsHex n (source.fill i n) (law.fills i n) (law.bytes i n),
        hex_lower-nonzero (source.fill i n) nonzero,
      )
      | inr zeros ↦ rw zeros (random_hex_nonzero-IsId source n fuel (suc i) law)
    ]

-- The loop of random_hex_nonzero ends if one of the next answers of the random source, no later
-- than the fuel allows, has a byte that is not zero.
pub random_hex_nonzero_total :
    (source : Entropy) (n fuel i k : ℕ)
    → k < fuel
    → has_nonzero (source.fill (i + k) n) ≡ true
    → (t : Text) × (j : ℕ) × (random_hex_nonzero source n fuel i ≡ some (t, j))
unfolding random_hex_nonzero
random_hex_nonzero_total source n zero i k h nonzero = absurd (omega arith)
random_hex_nonzero_total source n (suc fuel) i zero h nonzero =
    let found : has_nonzero (source.fill i n) ≡ true = rw add-zero at nonzero in
    (hex_lower (source.fill i n), suc i, rw found)
random_hex_nonzero_total source n (suc fuel) i (suc k) h nonzero =
    elim (Bool-cases (has_nonzero (source.fill i n))) [
      | inl found ↦ (hex_lower (source.fill i n), suc i, rw found)
      | inr zeros ↦
          let moved : i + suc k ≡ suc i + k = omega arith in
          rw zeros
            (random_hex_nonzero_total source n fuel (suc i) k (omega arith) (rw moved at nonzero))
    ]

-- From the `i`-th answer of the random source on, the first that is not all zeros, in hexadecimal,
-- and the number of the answer behind it.
pub data IsFresh (source : Entropy) (n : ℕ) : ℕ → Text → ℕ → Type 0 where
  answered :
      (i : ℕ)
      → has_nonzero (source.fill i n) ≡ true
      → IsFresh source n i (hex_lower (source.fill i n)) (suc i)
  skipped :
      {i j : ℕ} {t : Text}
      → has_nonzero (source.fill i n) ≡ false
      → IsFresh source n (suc i) t j
      → IsFresh source n i t j

random_hex_nonzero-IsFresh :
    (source : Entropy) (n fuel i : ℕ)
    → OnSome (λ (r : Text × ℕ). IsFresh source n i r.0 r.1) (random_hex_nonzero source n fuel i)
unfolding random_hex_nonzero
random_hex_nonzero-IsFresh source n zero i = tt
random_hex_nonzero-IsFresh source n (suc fuel) i =
    elim (Bool-cases (has_nonzero (source.fill i n))) [
      | inl nonzero ↦ rw nonzero (IsFresh.answered i nonzero)
      | inr zeros ↦ rw zeros (
          OnSome-map _ _ (random_hex_nonzero source n fuel (suc i)) (λ r. IsFresh.skipped zeros)
            (random_hex_nonzero-IsFresh source n fuel (suc i)))
    ]

module _ (source : Entropy) (law : IsEntropy source) (fuel : ℕ) where
  Good : TraceContext × ℕ → Type 0
  Good (c, j) = IsTraceContext c

  root-Good : (i : ℕ) → OnSome Good (root source fuel i)
  unfolding root Good
  root-Good i =
      OnSome-bind (IsId 16) Good (random_hex_nonzero source 16 fuel i) _
        (random_hex_nonzero-IsId source 16 fuel i law)
        λ (t, j) trace.
          OnSome-bind (IsId 8) Good (random_hex_nonzero source 8 fuel j) _
            (random_hex_nonzero-IsId source 8 fuel j law)
            λ (u, k) span. record {
              trace_id_hex = trace.0;
              trace_id_nonzero = trace.1;
              span_id_hex = span.0;
              span_id_nonzero = span.1;
              trace_flags_hex = unfold is_lower_hex byte_len in refl;
            }

abbrev IsParsed : ParsedTraceparent → Type 0
IsParsed p = IsHex p.trace_id 32 × (is_all_zero p.trace_id ≡ false) × IsHex p.trace_flags 2

parse_four-IsParsed : (parts : List Text) → OnSome IsParsed (parse_four parts)
unfolding parse_four
parse_four-IsParsed (v ∷ t ∷ p ∷ f ∷ []) = ground arith
parse_four-IsParsed _ = tt

module _ (source : Entropy) (law : IsEntropy source) (fuel : ℕ) where
  from_parent-Good :
      (p : Option ParsedTraceparent) (tracestate : Option Text) (i : ℕ)
      → OnSome IsParsed p
      → OnSome (Good source law fuel) (from_parent source fuel p tracestate i)
  unfolding from_parent Good
  from_parent-Good none tracestate i h = root-Good source law fuel i
  from_parent-Good (some p) tracestate i h =
      OnSome-bind (IsId 8) (Good source law fuel) (random_hex_nonzero source 8 fuel i) _
        (random_hex_nonzero-IsId source 8 fuel i law)
        λ (u, k) span. record {
          trace_id_hex = h.0;
          trace_id_nonzero = h.1;
          span_id_hex = span.0;
          span_id_nonzero = span.1;
          trace_flags_hex = h.2;
        }

  -- Whatever the headers hold, the context that from_headers returns has identifiers of the lengths
  -- and digits that the header asks for, and not all zero, if the random source fills its arrays
  -- with bytes.
  pub from_headers-IsTraceContext :
      (parent tracestate : Option Text) (i : ℕ) {c : TraceContext} {j : ℕ}
      → from_headers source fuel parent tracestate i ≡ some (c, j)
      → IsTraceContext c
  unfolding from_headers Good
  from_headers-IsTraceContext none tracestate i h =
      OnSome-some (Good source law fuel) _ (root-Good source law fuel i) h
  from_headers-IsTraceContext (some parent) tracestate i h =
      OnSome-some (Good source law fuel) _
        (from_parent-Good (parse_traceparent parent) tracestate i
          (unfold parse_traceparent in parse_four-IsParsed (split b'-' parent)))
        h

  -- If the random source fills its arrays with bytes, a request that is sent on from a well-formed
  -- context carries the same trace, flags and state under a new well-formed span: the first of the
  -- next answers of the random source that is not all zeros, in hexadecimal, and the answer behind
  -- it is the next one to be used.
  pub outbound_child-IsTraceContext :
      (c : TraceContext) (i : ℕ) {d : TraceContext} {j : ℕ}
      → IsTraceContext c
      → outbound_child source fuel c i ≡ some (d, j)
      → IsTraceContext d
        × (d.trace_id ≡ c.trace_id)
        × (d.trace_flags ≡ c.trace_flags)
        × (d.tracestate ≡ c.tracestate)
        × IsFresh source 8 i d.span_id j
  unfolding outbound_child
  outbound_child-IsTraceContext c i {d} {j} law_c h =
      OnSome-some
        (λ (p : TraceContext × ℕ).
          IsTraceContext p.0
          × (p.0.trace_id ≡ c.trace_id)
          × (p.0.trace_flags ≡ c.trace_flags)
          × (p.0.tracestate ≡ c.tracestate)
          × IsFresh source 8 i p.0.span_id p.1)
        _
        (OnSome-bind (λ (r : Text × ℕ). IsId 8 r × IsFresh source 8 i r.0 r.1) _
          (random_hex_nonzero source 8 fuel i) _
          (OnSome-both (IsId 8) _ (random_hex_nonzero source 8 fuel i)
            (random_hex_nonzero-IsId source 8 fuel i law)
            (random_hex_nonzero-IsFresh source 8 fuel i))
          λ (u, k) (span, fresh). (
            record {
              trace_id_hex = law_c.trace_id_hex;
              trace_id_nonzero = law_c.trace_id_nonzero;
              span_id_hex = span.0;
              span_id_nonzero = span.1;
              trace_flags_hex = law_c.trace_flags_hex;
            },
            refl,
            refl,
            refl,
            fresh,
          ))
        h
