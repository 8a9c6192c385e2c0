-- ===== src/Value/Path/Laws.antt =====
-- A dotted path is the nested traversal of its segments.
use Prim.Native.Char.{code}
use Prim.Native.String.{[], ◌∷◌}
use text.Mathlib.TextLemmas.{nil-append, cons-append, append-nil, append_assoc}
use fastsqs.Base.{
  String, ◌<>◌, true, false, Option, none, some, List, ◌≡◌, ◌∙◌, ap, refl, arith, All,
}
use fastsqs.Base.{◌==◌, nat_eq, Bool-cases, inl, inr}
use fastsqs.Value.{Value, null, bool, int, float, str, arr, obj, Fields, find, get, get_or}
use fastsqs.Value.Path.{push, has_dot, split_from, enter, walk, resolve_payload_path}

-- A segment holds no dot.
abbrev pub IsSegment : String → Type 0
IsSegment s = has_dot s ≡ false

-- `".".join(segments)`
pub join : String → List String → String
join s (List.[]) = s
join s (List.◌∷◌ t ts) = s <> ("." <> join t ts)

split_from-segment :
    (cur s rest : String) → IsSegment s → split_from cur (s <> rest) ≡ split_from (cur <> s) rest
unfolding split_from has_dot
split_from-segment cur [] rest h = simp (nil-append, append-nil)
split_from-segment cur (c ∷ s) rest h = elim (Bool-cases (code c == b'.')) [
  | inl dot ↦ absurd (cc (h, dot))
  | inr plain ↦
      rw (cons-append, plain)
        (split_from-segment (push cur c) s rest (rw plain at h)
          ∙ simp (append_assoc, cons-append, nil-append))
]

split_from-dot : (cur t : String) → split_from cur ("." <> t) ≡ List.◌∷◌ cur (split_from "" t)
unfolding split_from nat_eq
split_from-dot cur t = rw (cons-append, nil-append)

split_from-join :
    (cur s : String) (ss : List String)
    → IsSegment s
    → All IsSegment ss
    → split_from cur (join s ss) ≡ List.◌∷◌ (cur <> s) ss
unfolding join split_from
split_from-join cur s (List.[]) h hs = rw append-nil at (split_from-segment cur s "" h)
split_from-join cur s (List.◌∷◌ t ts) h hs =
    split_from-segment cur s ("." <> join t ts) h
    ∙ split_from-dot (cur <> s) (join t ts)
    ∙ ap (List.◌∷◌ (cur <> s)) (split_from-join "" t ts hs.0 hs.1 ∙ rw nil-append)

has_dot-append_dot : (s t : String) → has_dot (s <> ("." <> t)) ≡ true
unfolding has_dot nat_eq
has_dot-append_dot [] t = rw (nil-append, cons-append, has_dot) refl
has_dot-append_dot (c ∷ s) t = rw (cons-append) (ground (arith, has_dot-append_dot s t))

split-walk :
    (payload : Fields) (s : String) (ss : List String)
    → IsSegment s
    → All IsSegment ss
    → resolve_payload_path payload (join s ss) ≡ walk (obj payload) (List.◌∷◌ s ss)
unfolding resolve_payload_path join walk enter
split-walk payload s (List.[]) h hs = rw h
split-walk payload s (List.◌∷◌ t ts) h hs =
    rw (has_dot-append_dot, split_from-join "" s (List.◌∷◌ t ts) h hs, nil-append)

-- The value that stands under these names, each a key of the dict under the name before it.
pub data StandsUnder : List String → Value → Value → Type 0 where
  itself : {v : Value} → StandsUnder (List.[]) v v
  inside :
      {segments : List String} {v w : Value} (segment : String) (d : Fields)
      → find segment d ≡ some v
      → StandsUnder segments v w
      → StandsUnder (List.◌∷◌ segment segments) (obj d) w

get-found :
    (segment : String) (d : Fields) (v : Value) → find segment d ≡ some v → get segment d ≡ v
get-found segment d v e = rw (e, get_or) refl

get-missing : (segment : String) (d : Fields) → find segment d ≡ none → get segment d ≡ null
get-missing segment d e = rw (e, get_or) refl

walk-StandsUnder :
    {segments : List String} {v w : Value} → StandsUnder segments v w → walk v segments ≡ w
unfolding walk enter
walk-StandsUnder itself = refl
walk-StandsUnder (inside {segments} {v} segment d found deeper) =
    ap (λ x. walk x segments) (get-found segment d v found) ∙ walk-StandsUnder deeper

walk-null : (segments : List String) → walk null segments ≡ null
unfolding walk enter
walk-null (List.[]) = refl
walk-null (List.◌∷◌ segment segments) = walk-null segments

no_key :
    (segment : String) (segments : List String) (d : Fields) (q : Option Value)
    → find segment d ≡ q
    → ((w : Value) → ¬ StandsUnder (List.◌∷◌ segment segments) (obj d) w)
    → ((v : Value) → ((w : Value) → ¬ StandsUnder segments v w) → walk v segments ≡ null)
    → walk (obj d) (List.◌∷◌ segment segments) ≡ null
unfolding walk enter
no_key segment segments d none e h deeper =
    ap (λ x. walk x segments) (get-missing segment d e) ∙ walk-null segments
no_key segment segments d (some v) e h deeper =
    ap (λ x. walk x segments) (get-found segment d v e)
    ∙ deeper v (λ w k. h w (inside segment d e k))

walk-nothing :
    (segments : List String) (v : Value)
    → ((w : Value) → ¬ StandsUnder segments v w)
    → walk v segments ≡ null
unfolding walk enter
walk-nothing (List.[]) v h = absurd (h v itself)
walk-nothing (List.◌∷◌ segment segments) (obj d) h =
    no_key segment segments d (find segment d) refl h (walk-nothing segments)
walk-nothing (List.◌∷◌ segment segments) null h = walk-null segments
walk-nothing (List.◌∷◌ segment segments) (bool _) h = walk-null segments
walk-nothing (List.◌∷◌ segment segments) (int _) h = walk-null segments
walk-nothing (List.◌∷◌ segment segments) (float _) h = walk-null segments
walk-nothing (List.◌∷◌ segment segments) (str _) h = walk-null segments
walk-nothing (List.◌∷◌ segment segments) (arr _) h = walk-null segments

-- For segments that hold no dot, at least one of them: resolving their dotted path gives the value
-- that stands under them, each segment a key of the dict under the one before, and `None` where no
-- value does, be it that a key is missing or that a value in mid-path is no dict.
pub resolve_payload_path-join :
    (payload : Fields) (s : String) (ss : List String)
    → IsSegment s
    → All IsSegment ss
    → ((v : Value)
        → StandsUnder (List.◌∷◌ s ss) (obj payload) v
        → resolve_payload_path payload (join s ss) ≡ v)
      × (((v : Value) → ¬ StandsUnder (List.◌∷◌ s ss) (obj payload) v)
          → resolve_payload_path payload (join s ss) ≡ null)
resolve_payload_path-join payload s ss h hs = (
  λ v there. split-walk payload s ss h hs ∙ walk-StandsUnder there,
  λ nowhere. split-walk payload s ss h hs ∙ walk-nothing (List.◌∷◌ s ss) (obj payload) nowhere,
)
