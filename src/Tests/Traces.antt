-- ===== src/Tests/Traces.antt =====
-- Trace contexts.
use Prim.Native.String.{[], ◌∷◌}
use mathlib.Core.Path.{subst}
use fastsqs.Base.{
  ℕ, zero, suc, if◌then◌else◌, Bool-cases, inl, inr, String, Bool, true, false, none, some, ◌≡◌,
  refl, ==_differ, string_eq, nat_eq,
}
use fastsqs.Value.{str, obj, Fields, end, field, find}
use fastsqs.Run.{Job}
use fastsqs.Tracing.{
  found_in, before, propagated, attribute_value, search_attributes, payload_value,
}
use fastsqs.Tracing.Carried.{Carries, by_attribute, by_nothing, at_first, HasText, NoText}
use fastsqs.Tracing.Traced.{IsTraced, before-IsTraced}
use fastsqs.Tracing.Parse.{
  is_hex, Match, hex_group, dash, at_end, match_flags, match_dash, match_group, match_traceparent,
  all_zero, int16, trace_of, parse_traceparent,
}
use fastsqs.Tracing.Parse.Groups.{IsHex}
use fastsqs.Tracing.Parse.Laws.{
  IsSpelled, IsAllowed, context_of, parse_traceparent-spelling, parse_traceparent-IsSpelled,
}
use fastsqs.Tests.Fixture.{toy, idle, order, job_of}

abbrev traceparent : String
traceparent = "00-0af7651916cd43dd8448eb211c80319c-b7ad6b7169203331-01"

abbrev parts : Match
parts = record {
  version = "00";
  trace_id = "0af7651916cd43dd8448eb211c80319c";
  parent_id = "b7ad6b7169203331";
  flags = "01";
}

-- A test for groups of digits.
all_hex : ℕ → String → Bool
all_hex zero [] = true
all_hex zero (c ∷ s) = false
all_hex (suc n) [] = false
all_hex (suc n) (c ∷ s) = let rest = all_hex n s in if is_hex c then rest else false

all_hex-IsHex : (n : ℕ) (s : String) → all_hex n s ≡ true → IsHex n s
unfolding all_hex IsHex
all_hex-IsHex zero [] h = tt
all_hex-IsHex zero (c ∷ s) h = absurd (cc h)
all_hex-IsHex (suc n) [] h = absurd (cc h)
all_hex-IsHex (suc n) (c ∷ s) h = elim (Bool-cases (is_hex c)) [
  | inl here ↦ (here, all_hex-IsHex n s (rw (here, all_hex) at h))
  | inr other ↦ absurd (cc (rw (other, all_hex) at h))
]

parts-IsSpelled : IsSpelled traceparent parts
unfolding all_hex at_end string_eq
parts-IsSpelled = record {
  version_hex = all_hex-IsHex 2 "00" refl;
  trace_hex = all_hex-IsHex 32 parts.trace_id refl;
  parent_hex = all_hex-IsHex 16 parts.parent_id refl;
  flags_hex = all_hex-IsHex 2 "01" refl;
  tail = "";
  tail_ends = refl;
  spelled = refl;
}

parts-IsAllowed : IsAllowed parts
unfolding all_zero nat_eq string_eq
parts-IsAllowed = record { version = ==_differ "00" "ff" refl; trace_id = refl; parent_id = refl }

parse_traceparent-spelling_example :
    parse_traceparent (some traceparent) none ≡ some (context_of traceparent none parts)
parse_traceparent-spelling_example =
    parse_traceparent-spelling traceparent none parts parts-IsSpelled parts-IsAllowed

-- The last digit of the flags says whether the trace is sampled.
sampled_trace : (context_of traceparent none parts).sampled ≡ true
unfolding int16 nat_eq
sampled_trace = refl

parse_traceparent-IsSpelled_example :
    (m : Match) × IsSpelled traceparent m
    × IsAllowed m
    × (context_of traceparent none parts ≡ context_of traceparent none m)
parse_traceparent-IsSpelled_example =
    parse_traceparent-IsSpelled traceparent none (context_of traceparent none parts)
      (parse_traceparent-spelling traceparent none parts parts-IsSpelled parts-IsAllowed)

-- An attribute with the name in another case.
abbrev traced_record : Fields
traced_record =
    field "messageAttributes"
      (obj (field "TraceParent" (obj (field "stringValue" (str traceparent) end)) end)) end

abbrev traced_job : Job toy
traced_job =
    let j = job_of order idle in record j { ctx = record j.ctx { sqs_record = obj traced_record } }

carried_parent : Carries "traceparent" traced_record order (some traceparent)
unfolding fastsqs.Events.Names.lower find string_eq nat_eq
carried_parent =
    by_attribute (field "TraceParent" (obj (field "stringValue" (str traceparent) end)) end)
      traceparent refl (at_first "TraceParent" _ end traceparent (refl, refl))
      (==_differ traceparent "" refl)

no_state :
    (value : String)
    → ¬ HasText "tracestate" "TraceParent" (obj (field "stringValue" (str traceparent) end)) value
unfolding fastsqs.Events.Names.lower string_eq nat_eq
no_state value h = ==_differ "traceparent" "tracestate" refl h.0

obj_injective : (d e : Fields) → obj d ≡ obj e → d ≡ e
obj_injective d e h = cc h

carried_state : Carries "tracestate" traced_record order none
unfolding find string_eq
carried_state =
    by_nothing
      (λ attributes e.
        inl (subst (NoText "tracestate") (obj_injective _ attributes e) (no_state, tt)))
      (λ value h. absurd (cc h))

before-IsTraced_example :
    IsTraced "trace"
      (parse_traceparent (some traceparent) none)
      traced_job
      (before "trace" traced_job)
before-IsTraced_example =
    before-IsTraced "trace" traced_record traced_job (some traceparent) none refl carried_parent
      carried_state

traced_found : found_in traced_record order ≡ some (context_of traceparent none parts)
unfolding found_in propagated attribute_value search_attributes payload_value parse_traceparent
    match_traceparent match_flags match_dash match_group hex_group dash at_end trace_of all_zero
    find string_eq nat_eq fastsqs.Events.Names.lower
traced_found = refl
