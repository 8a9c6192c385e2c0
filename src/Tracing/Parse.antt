-- ===== src/Tracing/Parse.antt =====
-- `parse_traceparent` of fastsqs/middleware/tracing.py.
pub mod Groups
pub mod Laws
use Prim.Native.Char.{Char, code}
use Prim.Native.String.{[], ◌∷◌}
use fastsqs.Base.{
  ℕ, zero, suc, ◌+◌, ◌-◌, ◌*◌, ◌%◌, String, Bool, true, ◌&&◌, ◌||◌, Option, none, some,
}
use fastsqs.Base.{◌==◌, nat_eq, string_eq, leb, if◌then◌else◌}
use fastsqs.Value.{Value, str}
use fastsqs.Types.Scratch.{TraceContext}

-- `[0-9a-f]`
abbrev pub is_hex : Char → Bool
is_hex c = (leb b'0' (code c) && leb (code c) b'9') || (leb b'a' (code c) && leb (code c) b'f')

-- A group `([0-9a-f]{n})`, with what follows it.
unfoldable pub hex_group : ℕ → String → Option (String × String)
hex_group zero s = some ("", s)
hex_group (suc n) [] = none
hex_group (suc n) (c ∷ s) =
    let rest = hex_group n s in
    if is_hex c then (elim rest [ none ↦ none | some (g, s') ↦ some (c ∷ g, s') ]) else none

-- The character `-`.
unfoldable pub dash : String → Option String
dash [] = none
dash (c ∷ s) = if code c == b'-' then some s else none

-- `$`, which matches at the end and before a last line feed.
unfoldable pub at_end : String → Bool
at_end s = s == "" || s == "\n"

-- The groups of the expression.
pub record Match : Type 0 where
  pub version : String
  pub trace_id : String
  pub parent_id : String
  pub flags : String

-- The expression behind the group of the version, and so on to its end.
unfoldable pub match_flags : String → String → String → String → Option Match
unfolding hex_group at_end
match_flags version trace_id parent_id s = elim (hex_group 2 s) [
  | none ↦ none
  | some (flags, s') ↦
      if at_end s'
      then some
          (record { version = version; trace_id = trace_id; parent_id = parent_id; flags = flags })
      else none
]

unfoldable pub match_dash : String → (String → Option Match) → Option Match
unfolding dash
match_dash s k = elim (dash s) [ none ↦ none | some s' ↦ k s' ]

unfoldable pub match_group : ℕ → String → (String → String → Option Match) → Option Match
unfolding hex_group
match_group n s k = elim (hex_group n s) [ none ↦ none | some (g, s') ↦ k g s' ]

-- `_TRACEPARENT_RE.match(value)`
unfoldable pub match_traceparent : String → Option Match
unfolding match_flags match_dash match_group
match_traceparent value = match_group 2 value (λ version s. match_dash s (λ s'.
    match_group 32 s' (λ trace_id t. match_dash t (λ t'.
      match_group 16 t'
        (λ parent_id u. match_dash u (λ u'. match_flags version trace_id parent_id u'))))))

-- `set(s) == {"0"}`, for a text that is not empty.
unfoldable pub all_zero : String → Bool
all_zero [] = true
all_zero (c ∷ s) = code c == b'0' && all_zero s

digit : Char → ℕ
digit c = if leb (code c) b'9' then code c - b'0' else code c - b'a' + 10

-- `int(s, 16)`, behind the digits read before.
unfoldable pub int16 : ℕ → String → ℕ
unfolding digit
int16 acc [] = acc
int16 acc (c ∷ s) = int16 (16 * acc + digit c) s

-- What becomes of a match.
unfoldable pub trace_of : String → Option String → Match → Option TraceContext
unfolding all_zero int16
trace_of value tracestate m =
    if m.version == "ff" || (all_zero m.trace_id || all_zero m.parent_id)
    then none
    else some (record {
      traceparent = value;
      trace_id = m.trace_id;
      parent_id = m.parent_id;
      sampled = int16 0 m.flags % 2 == 1;
      tracestate = tracestate;
    })

-- `parse_traceparent`
unfoldable pub parse_traceparent : Option String → Option String → Option TraceContext
unfolding match_traceparent trace_of
parse_traceparent none tracestate = none
parse_traceparent (some value) tracestate = elim (match_traceparent value) [
  | none ↦ none
  | some m ↦ trace_of value tracestate m
]
