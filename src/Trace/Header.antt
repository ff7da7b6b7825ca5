-- ===== src/Trace/Header.antt =====
-- src/trace_context.rs: the header that a context is sent in.
use marreta_lang.Base.{
  ℕ, ◌≡◌, refl, ap, ◌∙◌, true, [], ◌∷◌, arith, ◌==◌, Option, some, all, OnSome, OnSome-bind,
  OnSome-some, OnSome-any, and-eq_true,
}
use marreta_lang.Text.{Text, text_eq_refl, split, split-append, split-lacks, lacks, join, byte_len}
use marreta_lang.Trace.{
  TraceContext, ParsedTraceparent, traceparent_version, is_hex_char, is_lower_hex, parse_four,
  parse_traceparent, traceparent, Entropy, random_hex_nonzero, from_parent, from_headers,
}
use marreta_lang.Trace.Context.{IsHex, IsTraceContext}

hex-lacks_dash : (t : Text) → all is_hex_char t ≡ true → lacks b'-' t ≡ true
hex-lacks_dash [] h = refl
hex-lacks_dash (c ∷ t) h = ground (arith, hex-lacks_dash t)

IsHex-chars : (t : Text) (n : ℕ) → IsHex t n → all is_hex_char t ≡ true
unfolding is_lower_hex
IsHex-chars t n h = (and-eq_true (byte_len t == n) (all is_hex_char t) h).1

split-traceparent :
    (c : TraceContext)
    → IsTraceContext c
    → split b'-' (traceparent c) ≡ traceparent_version ∷ c.trace_id ∷ c.span_id ∷ c.trace_flags ∷ []
unfolding traceparent join
split-traceparent c h =
    let lack = λ (t : Text) (n : ℕ) (k : IsHex t n). hex-lacks_dash t (IsHex-chars t n k) in
    split-append b'-' traceparent_version _ refl
    ∙ ap (◌∷◌ traceparent_version) (
        split-append b'-' c.trace_id _ (lack c.trace_id 32 h.trace_id_hex)
        ∙ ap (◌∷◌ c.trace_id) (
            split-append b'-' c.span_id c.trace_flags (lack c.span_id 16 h.span_id_hex)
            ∙ ap (◌∷◌ c.span_id)
                (split-lacks b'-' c.trace_flags (lack c.trace_flags 2 h.trace_flags_hex))))

-- The traceparent header of a well-formed context is read back as its trace and flags.
pub parse_traceparent-traceparent :
    (c : TraceContext)
    → IsTraceContext c
    → parse_traceparent (traceparent c)
      ≡ some (record { trace_id = c.trace_id; trace_flags = c.trace_flags })
unfolding parse_traceparent parse_four
parse_traceparent-traceparent c h = rw (
  split-traceparent c h,
  text_eq_refl traceparent_version,
  h.trace_id_hex,
  h.trace_id_nonzero,
  h.span_id_hex,
  h.span_id_nonzero,
  h.trace_flags_hex,
)

abbrev Follows : ParsedTraceparent → TraceContext × ℕ → Type 0
Follows p (d, j) = (d.trace_id ≡ p.trace_id) × (d.trace_flags ≡ p.trace_flags)

module _ (source : Entropy) (fuel : ℕ) where
  from_parent-Follows :
      (p : ParsedTraceparent) (tracestate : Option Text) (i : ℕ)
      → OnSome (Follows p) (from_parent source fuel (some p) tracestate i)
  unfolding from_parent
  from_parent-Follows p tracestate i =
      OnSome-bind (λ _. Unit) (Follows p) (random_hex_nonzero source 8 fuel i) _ (OnSome-any _)
        (λ (u, k) _. (refl, refl))

  -- The next service, given the traceparent header of a well-formed context, goes on with the same
  -- trace and flags.
  pub from_headers-traceparent :
      (c : TraceContext) (tracestate : Option Text) (i : ℕ) {d : TraceContext} {j : ℕ}
      → IsTraceContext c
      → from_headers source fuel (some (traceparent c)) tracestate i ≡ some (d, j)
      → (d.trace_id ≡ c.trace_id) × (d.trace_flags ≡ c.trace_flags)
  unfolding from_headers
  from_headers-traceparent c tracestate i h e =
      let parsed : ParsedTraceparent = record {
        trace_id = c.trace_id;
        trace_flags = c.trace_flags;
      } in
      OnSome-some (Follows parsed) _ (from_parent-Follows parsed tracestate i)
        (rw (parse_traceparent-traceparent c h) at e)
