-- ===== src/Tracing/Parse/Laws.antt =====
-- What `parse_traceparent` accepts, against the format of a traceparent.
use fastsqs.Base.{ℕ, ◌%◌, String, ◌<>◌, true, false, ◌||◌, Option, some, ◌≡◌, ◌≢◌}
use fastsqs.Base.{refl, ap, sym, ◌∙◌, arith, ◌==◌, ==_differ, ==_of_ne, nat_eq, string_eq}
use mathlib.Core.Path.{subst}
use fastsqs.Base.{Bool-cases, Option-cases, inl, inr}
use fastsqs.Types.Scratch.{TraceContext}
use fastsqs.Tracing.Parse.{
  hex_group, dash, at_end, Match, match_flags, match_dash, match_group, match_traceparent, all_zero,
  int16, trace_of, parse_traceparent,
}
use fastsqs.Tracing.Parse.Groups.{IsHex, hex_group-append, hex_group_sound, dash-append, dash_sound}

match_group_sound :
    (n : ℕ) (s : String) (k : String → String → Option Match) (m : Match)
    → match_group n s k ≡ some m
    → (g : String) × (rest : String) × IsHex n g × (s ≡ g <> rest) × (k g rest ≡ some m)
unfolding match_group
match_group_sound n s k m h = elim (Option-cases (hex_group n s)) [
  | inl absent ↦ absurd (cc (rw (absent, match_group) at h))
  | inr ((g, rest), found) ↦
      let (hex, spelled) = hex_group_sound n s g rest found in
      (g, rest, hex, spelled, rw (found, match_group) at h)
]

match_dash_sound :
    (s : String) (k : String → Option Match) (m : Match)
    → match_dash s k ≡ some m
    → (t : String) × (s ≡ "-" <> t) × (k t ≡ some m)
unfolding match_dash
match_dash_sound s k m h = elim (Option-cases (dash s)) [
  | inl absent ↦ absurd (cc (rw (absent, match_dash) at h))
  | inr (t, found) ↦ (t, dash_sound s t found, rw (found, match_dash) at h)
]

-- A line feed may follow.
abbrev pub IsTail : String → Type 0
IsTail s = at_end s ≡ true

match_flags_sound :
    (v t p s : String) (m : Match)
    → match_flags v t p s ≡ some m
    → (f : String) × (rest : String) × IsHex 2 f
      × IsTail rest
      × (s ≡ f <> rest)
      × (m ≡ record { version = v; trace_id = t; parent_id = p; flags = f })
unfolding match_flags
match_flags_sound v t p s m h = elim (Option-cases (hex_group 2 s)) [
  | inl absent ↦ absurd (cc (rw (absent, match_flags) at h))
  | inr ((f, rest), found) ↦
      let (hex, spelled) = hex_group_sound 2 s f rest found in
      elim (Bool-cases (at_end rest)) [
        | inr other ↦ absurd (cc (rw (found, other, match_flags) at h))
        | inl ends ↦ (f, rest, hex, ends, spelled, cc (rw (found, ends, match_flags) at h))
      ]
]

-- `version-trace_id-parent_id-flags`, in lower case.
abbrev pub spelling : Match → String → String
spelling m tail =
    m.version <> ("-" <> (m.trace_id <> ("-" <> (m.parent_id <> ("-" <> (m.flags <> tail))))))

pub record IsSpelled (value : String) (m : Match) : Type 0 where
  pub version_hex : IsHex 2 m.version
  pub trace_hex : IsHex 32 m.trace_id
  pub parent_hex : IsHex 16 m.parent_id
  pub flags_hex : IsHex 2 m.flags
  pub tail : String
  pub tail_ends : IsTail tail
  pub spelled : value ≡ spelling m tail

abbrev behind : {s t : String} (u : String) → s ≡ t → u <> s ≡ u <> t
behind u e = ap (λ x. u <> x) e

match_traceparent_sound :
    (value : String) (m : Match) → match_traceparent value ≡ some m → IsSpelled value m
unfolding match_traceparent
match_traceparent_sound value m h =
    let (v, s, hv, sv, h₁) = match_group_sound 2 value _ m h in
    let (s', d, h₂) = match_dash_sound s _ m h₁ in
    let (t, u, ht, st, h₃) = match_group_sound 32 s' _ m h₂ in
    let (u', d', h₄) = match_dash_sound u _ m h₃ in
    let (p, w, hp, sp, h₅) = match_group_sound 16 u' _ m h₄ in
    let (w', d'', h₆) = match_dash_sound w _ m h₅ in
    let (f, rest, hf, ends, sf, same) = match_flags_sound v t p w' m h₆ in
    subst (IsSpelled value) (sym same) (record {
      version_hex = hv;
      trace_hex = ht;
      parent_hex = hp;
      flags_hex = hf;
      tail = rest;
      tail_ends = ends;
      spelled =
          sv
          ∙ behind v (
              d
              ∙ behind "-" (st ∙ behind t (d' ∙ behind "-" (sp ∙ behind p (d'' ∙ behind "-" sf)))));
    })

match_traceparent_complete :
    (value : String) (m : Match) → IsSpelled value m → match_traceparent value ≡ some m
unfolding match_traceparent match_group match_dash match_flags
match_traceparent_complete value m s =
    rw
      (
        s.spelled,
        match_group,
        hex_group-append 2 m.version _ s.version_hex,
        match_dash,
        dash-append,
        match_group,
        hex_group-append 32 m.trace_id _ s.trace_hex,
        match_dash,
        dash-append,
        match_group,
        hex_group-append 16 m.parent_id _ s.parent_hex,
        match_dash,
        dash-append,
        match_flags,
        hex_group-append 2 m.flags s.tail s.flags_hex,
        s.tail_ends,
      )
      refl

-- The version and the identifiers that the specification allows.
pub record IsAllowed (m : Match) : Type 0 where
  pub version : m.version ≢ "ff"
  pub trace_id : all_zero m.trace_id ≡ false
  pub parent_id : all_zero m.parent_id ≡ false

-- The trace context of a match.
abbrev pub context_of : String → Option String → Match → TraceContext
context_of value tracestate m = record {
  traceparent = value;
  trace_id = m.trace_id;
  parent_id = m.parent_id;
  sampled = int16 0 m.flags % 2 == 1;
  tracestate = tracestate;
}

-- A text that spells a traceparent, with or without a line feed behind it, whose version and
-- identifiers are allowed is parsed, into its own parts.
pub parse_traceparent-spelling :
    (value : String) (tracestate : Option String) (m : Match)
    → IsSpelled value m
    → IsAllowed m
    → parse_traceparent (some value) tracestate ≡ some (context_of value tracestate m)
unfolding parse_traceparent trace_of
parse_traceparent-spelling value tracestate m s a =
    rw
      (
        match_traceparent_complete value m s,
        parse_traceparent,
        trace_of,
        ==_of_ne _ _ a.version,
        a.trace_id,
        a.parent_id,
      )
      refl

-- What is parsed is a traceparent: the value spells the parts of the trace context, perhaps with a
-- line feed behind them, and its version and identifiers are allowed. So no malformed value makes a
-- trace context.
pub parse_traceparent-IsSpelled :
    (value : String) (tracestate : Option String) (t : TraceContext)
    → parse_traceparent (some value) tracestate ≡ some t
    → (m : Match) × IsSpelled value m × IsAllowed m × (t ≡ context_of value tracestate m)
unfolding parse_traceparent trace_of
parse_traceparent-IsSpelled value tracestate t h = elim (Option-cases (match_traceparent value)) [
  | inl absent ↦ absurd (cc (rw (absent, parse_traceparent) at h))
  | inr (m, found) ↦
      let made = rw (found, parse_traceparent) at h in
      elim (Bool-cases (m.version == "ff" || (all_zero m.trace_id || all_zero m.parent_id))) [
        | inl refused ↦ absurd (cc (rw (refused, trace_of) at made))
        | inr fine ↦ (
          m,
          match_traceparent_sound value m found,
          record {
            version = ==_differ _ _ (ground (arith, fine));
            trace_id = ground (arith, fine);
            parent_id = ground (arith, fine);
          },
          cc (rw (fine, trace_of) at made),
        )
      ]
]
