-- ===== src/Trace/Tests.antt =====
-- The theorems on src/trace_context.rs at concrete headers and a random source that starts with
-- an answer of zeros.
use marreta_lang.Base.{
  ℕ, zero, suc, ◌≡◌, refl, true, [], Option, none, some, arith, replicate, length, all, ltb,
}
use marreta_lang.Text.{Text, codes, split, join, text_eq, byte_len, split_once, is_whitespace}
use marreta_lang.Text.Trim.{trim_start, trim_end}
use marreta_lang.Trace.{
  TraceContext, parse_traceparent, parse_four, traceparent, is_lower_hex, is_all_zero,
  sanitize_tracestate, sanitize_text, keep_entries, shrink, is_valid_tracestate_entry,
  is_valid_tracestate_key, valid_key_split, is_valid_tracestate_key_part, is_valid_tracestate_value,
  Entropy, hex_lower, random_hex_nonzero, root, from_parent, from_headers, outbound_child,
}
use marreta_lang.Trace.Context.{
  IsTraceContext, IsEntropy, IsFresh, random_hex_nonzero_total, from_headers-IsTraceContext,
  outbound_child-IsTraceContext,
}
use marreta_lang.Trace.Header.{parse_traceparent-traceparent, from_headers-traceparent}
use marreta_lang.Trace.State.{IsTracestate, sanitize_tracestate-IsTracestate}

-- The byte that the i-th answer repeats.
abbrev byte_of : ℕ → ℕ
byte_of zero = 0
byte_of (suc zero) = 171
byte_of (suc (suc i)) = 205

abbrev source : Entropy
source = record { fill = λ i n. replicate n (byte_of i) }

byte_of-bytes : (i n : ℕ) → all (λ b. ltb b 256) (replicate n (byte_of i)) ≡ true
byte_of-bytes i zero = refl
byte_of-bytes zero (suc n) = byte_of-bytes zero n
byte_of-bytes (suc zero) (suc n) = byte_of-bytes (suc zero) n
byte_of-bytes (suc (suc i)) (suc n) = byte_of-bytes (suc (suc i)) n

length-replicate : (n b : ℕ) → length (replicate n b) ≡ n
length-replicate zero b = refl
length-replicate (suc n) b = omega (arith, length-replicate n b)

source-IsEntropy : IsEntropy source
source-IsEntropy = record { fills = λ i n. length-replicate n (byte_of i); bytes = byte_of-bytes }

abbrev header : Text
header = codes "00-4bf92f3577b34da6a3ce929d0e0e4736-00f067aa0ba902b7-01"

abbrev state : Text
state = codes "vendor@tenant=1, Bad=2,x= y"

abbrev context_of : Option (TraceContext × ℕ) → TraceContext
context_of (some (c, j)) = c
context_of none = record { trace_id = []; span_id = []; trace_flags = []; tracestate = none }

abbrev received : TraceContext
received = record {
  trace_id = codes "4bf92f3577b34da6a3ce929d0e0e4736";
  span_id = codes "abababababababab";
  trace_flags = codes "01";
  tracestate = some (codes "vendor@tenant=1,x= y");
}

received-from : from_headers source 2 (some header) (some state) 0 ≡ some (received, 2)
unfolding from_headers from_parent root parse_traceparent parse_four random_hex_nonzero hex_lower
    is_lower_hex is_all_zero byte_len text_eq split sanitize_tracestate sanitize_text keep_entries
    shrink is_valid_tracestate_entry is_valid_tracestate_key valid_key_split
    is_valid_tracestate_key_part is_valid_tracestate_value split_once join trim_start trim_end
    is_whitespace
received-from = refl

received-IsTraceContext : IsTraceContext received
unfolding is_lower_hex is_all_zero byte_len
received-IsTraceContext = record {
  trace_id_hex = refl;
  trace_id_nonzero = refl;
  span_id_hex = refl;
  span_id_nonzero = refl;
  trace_flags_hex = refl;
}

abbrev sent : TraceContext
sent = record received { span_id = codes "cdcdcdcdcdcdcdcd" }

received-child : outbound_child source 2 received 2 ≡ some (sent, 3)
unfolding outbound_child random_hex_nonzero hex_lower
received-child = refl

next-from :
    from_headers source 2 (some (traceparent received)) none 1
    ≡ some (record received { tracestate = none }, 2)
unfolding traceparent from_headers from_parent root parse_traceparent parse_four random_hex_nonzero
    hex_lower is_lower_hex is_all_zero byte_len text_eq split sanitize_tracestate sanitize_text
    keep_entries shrink is_valid_tracestate_entry is_valid_tracestate_key valid_key_split
    is_valid_tracestate_key_part is_valid_tracestate_value split_once join trim_start trim_end
    is_whitespace
next-from = refl

random_hex_nonzero_total_example :
    (t : Text) × (j : ℕ) × (random_hex_nonzero source 8 3 0 ≡ some (t, j))
random_hex_nonzero_total_example = random_hex_nonzero_total source 8 3 0 1 (omega arith) refl

from_headers-IsTraceContext_example : IsTraceContext received
from_headers-IsTraceContext_example =
    from_headers-IsTraceContext source source-IsEntropy 2 (some header) (some state) 0 received-from

outbound_child-IsTraceContext_example :
    IsTraceContext sent
    × (sent.trace_id ≡ received.trace_id)
    × (sent.trace_flags ≡ received.trace_flags)
    × (sent.tracestate ≡ received.tracestate)
    × IsFresh source 8 2 sent.span_id 3
outbound_child-IsTraceContext_example =
    outbound_child-IsTraceContext source source-IsEntropy 2 received 2 received-IsTraceContext
      received-child

parse_traceparent-traceparent_example :
    parse_traceparent (traceparent received)
    ≡ some (record { trace_id = received.trace_id; trace_flags = received.trace_flags })
parse_traceparent-traceparent_example =
    parse_traceparent-traceparent received received-IsTraceContext

from_headers-traceparent_example :
    (received.trace_id ≡ received.trace_id) × (received.trace_flags ≡ received.trace_flags)
from_headers-traceparent_example =
    from_headers-traceparent source 2 received none 1 received-IsTraceContext next-from

state-sanitized : sanitize_tracestate (some state) ≡ some (codes "vendor@tenant=1,x= y")
unfolding from_headers from_parent root parse_traceparent parse_four random_hex_nonzero hex_lower
    is_lower_hex is_all_zero byte_len text_eq split sanitize_tracestate sanitize_text keep_entries
    shrink is_valid_tracestate_entry is_valid_tracestate_key valid_key_split
    is_valid_tracestate_key_part is_valid_tracestate_value split_once join trim_start trim_end
    is_whitespace
state-sanitized = refl

sanitize_tracestate-IsTracestate_example : IsTracestate (codes "vendor@tenant=1,x= y")
sanitize_tracestate-IsTracestate_example =
    sanitize_tracestate-IsTracestate (some state) state-sanitized
