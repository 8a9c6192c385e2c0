-- ===== src/Value/Path.antt =====
-- `resolve_payload_path` of fastsqs/utils.py.
pub mod Laws
use Prim.Native.Char.{Char, code}
use Prim.Native.String.{[], ◌∷◌}
use mathlib.Core.List
use fastsqs.Base.{String, ◌<>◌, Bool, true, false, List, ◌==◌, nat_eq, if◌then◌else◌}
use fastsqs.Value.{Value, null, obj, Fields, get}

-- The text of one character behind `s`.
abbrev pub push : String → Char → String
push s c = s <> (c ∷ [])

-- `"." in path`
unfoldable pub has_dot : String → Bool
has_dot [] = false
has_dot (c ∷ s) = if code c == b'.' then true else has_dot s

-- `path.split(".")`, with the segment that is being read.
pub split_from : String → String → List String
split_from cur [] = List.◌∷◌ cur List.[]
split_from cur (c ∷ s) =
    let closed = List.◌∷◌ cur (split_from "" s) in
    let longer = split_from (push cur c) s in if code c == b'.' then closed else longer

-- One round of the loop: a segment of a value that is no dict gives `None`.
pub enter : Value → String → Value
enter (obj d) segment = get segment d
enter _ segment = null

pub walk : Value → List String → Value
walk current (List.[]) = current
walk current (List.◌∷◌ segment segments) = walk (enter current segment) segments

unfoldable pub resolve_payload_path : Fields → String → Value
unfolding has_dot split_from walk enter nat_eq
resolve_payload_path payload path =
    if has_dot path then walk (obj payload) (split_from "" path) else get path payload
