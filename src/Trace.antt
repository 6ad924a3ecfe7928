-- ===== src/Trace.antt =====
-- pkg/trace/trace.go: what tracing writes into a frame's metadata. The tracer itself is the
-- OpenTelemetry library's, a function from the metadata to a span.
use yomo.Common.{String, Option, none, some, nat_key, string_key}
use yomo.GoMap.{GoMap}
use yomo.Metadata.{set_entry, trace_id_key, span_id_key}

-- The identifiers of a span, `none` where one is not valid.
pub record Span : Type 0 where
  pub trace_id : Option String
  pub span_id : Option String

abbrev pub set_valid : GoMap String String → String → Option String → GoMap String String
set_valid md key none = md
set_valid md key (some id) = set_entry md key id

-- propagateTrace(md, span)
unfoldable pub propagate_trace : GoMap String String → Span → GoMap String String
propagate_trace md span =
    set_valid (set_valid md trace_id_key span.trace_id) span_id_key span.span_id
