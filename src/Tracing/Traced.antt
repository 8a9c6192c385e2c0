-- ===== src/Tracing/Traced.antt =====
-- What the tracing middleware does to a record.
use mathlib.Core.Path.{subst}
use fastsqs.Base.{String, ap, ◌∙◌, Option, none, some, ◌≡◌, ◌≢◌, refl, arith, ==_refl, string_eq}
use fastsqs.Value.{Value, Fields, obj}
use fastsqs.Exceptions.{Res, ok}
use fastsqs.Types.{Host}
use fastsqs.Types.Scratch
use fastsqs.Types.Scratch.{TraceContext, trace}
use fastsqs.Types.Scratch.Laws.{get_item-set_item}
use fastsqs.Run.{Job}
use fastsqs.Tracing.Parse.{parse_traceparent}
use fastsqs.Tracing.Carried.{Carries, propagated-Carries}
use fastsqs.Tracing.{propagated, found_in, store_trace, trace_record, before}

found_in-Carries :
    (d payload : Fields) (traceparent tracestate : Option String)
    → Carries "traceparent" d payload traceparent
    → Carries "tracestate" d payload tracestate
    → found_in d payload ≡ parse_traceparent traceparent tracestate
unfolding found_in
found_in-Carries d payload traceparent tracestate parent state =
    ap (λ x. parse_traceparent x (propagated d payload "tracestate")) (propagated-Carries parent)
    ∙ ap (λ x. parse_traceparent traceparent x) (propagated-Carries state)

module _ {H : Host} where
  -- The slot holds the trace context, or nothing is changed if there is none.
  abbrev pub Holds : String → Option TraceContext → Job H → Res (Unit {0}) × Job H → Type 0
  Holds state_key none j out = out ≡ (ok tt, j)
  Holds state_key (some t) j out = Scratch.get_item state_key out.1.ctx.state ≡ ok (trace t)

  -- A hook that succeeds, puts a trace context into one slot of the scratch state if there is one,
  -- and changes nothing else.
  pub record IsTraced (state_key : String) (found : Option TraceContext) (j : Job H)
      (out : Res (Unit {0}) × Job H) : Type 0 where
    pub succeeds : out.0 ≡ ok tt
    pub holds : Holds state_key found j out
    pub frame : out.1 ≡ record j { ctx = record j.ctx { state = out.1.ctx.state } }
    pub others :
        (name : String)
        → name ≢ state_key
        → Scratch.get_item name out.1.ctx.state ≡ Scratch.get_item name j.ctx.state

  store_trace-IsTraced :
      (state_key : String) (found : Option TraceContext) (j : Job H)
      → IsTraced state_key found j (store_trace state_key found j)
  unfolding store_trace
  store_trace-IsTraced state_key none j = record {
    succeeds = refl;
    holds = refl;
    frame = refl;
    others = λ name differ. refl;
  }
  store_trace-IsTraced state_key (some t) j = record {
    succeeds = refl;
    holds = rw (get_item-set_item, ==_refl);
    frame = refl;
    others = λ name differ. ground (arith, get_item-set_item name state_key (trace t) j.ctx.state);
  }

  trace_record-IsTraced :
      (state_key : String) (v : Value) (d : Fields) (j : Job H)
      → v ≡ obj d
      → IsTraced state_key (found_in d j.payload) j (trace_record state_key v j)
  unfolding trace_record
  trace_record-IsTraced state_key v d j e =
      rw (e, trace_record) (store_trace-IsTraced state_key (found_in d j.payload) j)

  -- For a record that is a dict: under each of the two names it carries the text of the first message
  -- attribute with the name, in any case, that has one, or, if there is none or it is empty, the
  -- text of the payload under the name, if that is a text. If what it carries parses, then its trace
  -- context stands in the slot of the middleware, and nothing else is changed; if not, then the hook
  -- leaves the job as it was. In neither case does the hook fail the record.
  pub before-IsTraced :
      (state_key : String) (d : Fields) (j : Job H) (traceparent tracestate : Option String)
      → j.ctx.sqs_record ≡ obj d
      → Carries "traceparent" d j.payload traceparent
      → Carries "tracestate" d j.payload tracestate
      → IsTraced state_key (parse_traceparent traceparent tracestate) j (before state_key j)
  unfolding before
  before-IsTraced state_key d j traceparent tracestate e parent state =
      subst (λ found. IsTraced state_key found j (before state_key j))
        (found_in-Carries d j.payload traceparent tracestate parent state)
        (trace_record-IsTraced state_key j.ctx.sqs_record d j e)
