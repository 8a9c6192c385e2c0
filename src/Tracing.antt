-- ===== src/Tracing.antt =====
-- fastsqs/middleware/tracing.py: the middleware that puts the trace context of a record into the
-- scratch state.
pub mod Parse
pub mod Carried
pub mod Traced
use fastsqs.Base.{
  String, Bool, true, false, Option, none, some, ◌==◌, ◌&&◌, string_eq, if◌then◌else◌,
}
use fastsqs.Value.{Value, str, obj, Fields, end, field, find, get, is_obj}
use fastsqs.Exceptions.{Res, ok, raise, attribute_error}
use fastsqs.Types.{Host, Context}
use fastsqs.Types.Scratch
use fastsqs.Types.Scratch.{TraceContext, trace}
use fastsqs.Run.{Job, M, modify_ctx}
use fastsqs.Middleware.{Middleware}
use fastsqs.Events.Names.{lower}
use Parse.{parse_traceparent}

abbrev pub text_of : Value → Option String
text_of (str s) = some s
text_of _ = none

abbrev pub string_value : Value → Option String
string_value (obj attribute) = text_of (get "stringValue" attribute)
string_value _ = none

-- The loop over the attributes: the first with the name, in any case, that holds a text.
unfoldable pub search_attributes : String → Fields → Option String
unfolding lower
search_attributes name end = none
search_attributes name (field key attribute rest) =
    let later = search_attributes name rest in
    if lower key == name
    then elim (string_value attribute) [ none ↦ later | some value ↦ some value ]
    else later

abbrev pub in_attributes : String → Value → Option String
in_attributes name (obj attributes) = search_attributes name attributes
in_attributes name _ = none

-- `_attribute_value`
unfoldable pub attribute_value : Fields → String → Option String
unfolding search_attributes
attribute_value sqs_record name = in_attributes name (get "messageAttributes" sqs_record)

-- `_payload_value`
unfoldable pub payload_value : Fields → String → Option String
payload_value payload name = text_of (get name payload)

-- `v or w`
abbrev pub or_text : Option String → Option String → Option String
or_text none w = w
or_text (some v) w = if v == "" then w else some v

-- The value that a name has for a record.
unfoldable pub propagated : Fields → Fields → String → Option String
unfolding attribute_value payload_value
propagated sqs_record payload name =
    or_text (attribute_value sqs_record name) (payload_value payload name)

-- The trace context that a record and its payload carry.
unfoldable pub found_in : Fields → Fields → Option TraceContext
unfolding propagated
found_in sqs_record payload =
    parse_traceparent (propagated sqs_record payload "traceparent")
      (propagated sqs_record payload "tracestate")

module _ {H : Host} where
  store_trace : String → Option TraceContext → M H (Unit {0})
  store_trace state_key none j = (ok tt, j)
  store_trace state_key (some t) j =
      modify_ctx (λ c. record c { state = Scratch.set_item state_key (trace t) c.state }) j

  trace_record : String → Value → M H (Unit {0})
  unfolding store_trace
  trace_record state_key (obj d) j = store_trace state_key (found_in d j.payload) j
  trace_record state_key _ j = (raise attribute_error, j)

  -- `before`
  unfoldable pub before : String → M H (Unit {0})
  unfolding trace_record
  before state_key j = trace_record state_key j.ctx.sqs_record j

  -- `TracingMiddleware(state_key)`
  abbrev pub tracing_middleware : String → Middleware H
  tracing_middleware state_key = record { before = some (before state_key); after = none }
