-- ===== src/Types/Scratch.antt =====
-- `State` of fastsqs/types.py, the scratch namespace `ctx.state`, and the trace context that the
-- tracing middleware keeps there.
pub mod Laws
use fastsqs.Base.{ℕ, String, ◌<>◌, ◌∷◌, Bool, Option, none, some, List, [], length, is_some}
use fastsqs.Base.{◌==◌, string_eq, if◌then◌else◌}
use fastsqs.Base.Dict
use fastsqs.Base.Dict.{Dict}
use fastsqs.Value.{Value, bool}
use fastsqs.Value.Print.{repr, show_quoted}
use fastsqs.Exceptions.{Res, ok, raise, key_error, attribute_error}

pub record TraceContext : Type 0 where
  pub traceparent : String
  pub trace_id : String
  pub parent_id : String
  pub sampled : Bool
  pub tracestate : Option String

-- What a slot of the state holds.
pub data Slot : Type 0 where
  plain : Value → Slot
  trace : TraceContext → Slot

pub record State : Type 0 where
  pub entries : Dict String Slot

abbrev pub empty : State
empty = record { entries = [] }

-- `state[key]`
unfoldable pub get_item : String → State → Res Slot
get_item key s = elim (Dict.lookup key s.entries) [ none ↦ raise key_error | some v ↦ ok v ]

-- `state[key] = value` and `state.key = value`
unfoldable pub set_item : String → Slot → State → State
set_item key v s = record s { entries = Dict.insert key v s.entries }

-- `state.key` where the class has no attribute of that name.
unfoldable pub get_attr : String → State → Res Slot
unfolding string_eq
get_attr key s =
    if key == "_data"
    then raise attribute_error
    else elim (Dict.lookup key s.entries) [ none ↦ raise attribute_error | some v ↦ ok v ]

-- `del state.key`, with the state left behind.
unfoldable pub del_attr : String → State → Res State
del_attr key s = elim (Dict.lookup key s.entries) [
  | none ↦ raise attribute_error
  | some _ ↦ ok (record s { entries = Dict.erase key s.entries })
]

-- `key in state`
unfoldable pub has_item : String → State → Bool
has_item key s = is_some (Dict.lookup key s.entries)

-- `state.get(key, default)`
unfoldable pub get : String → Slot → State → Slot
get key default s = elim (Dict.lookup key s.entries) [ none ↦ default | some v ↦ v ]

-- `state.setdefault(key, default)`
unfoldable pub set_default : String → Slot → State → Slot × State
set_default key default s = elim (Dict.lookup key s.entries) [
  | none ↦ (default, record s { entries = Dict.insert key default s.entries })
  | some v ↦ (v, s)
]

-- `list(state)` and `len(state)`
unfoldable pub names : State → List String
names s = Dict.keys s.entries

unfoldable pub size : State → ℕ
size s = length s.entries

-- `__getstate__`
unfoldable pub getstate : State → Dict String Slot
getstate s = s.entries

-- An instance that pickling or copying has made, before and after `__setstate__`: `none` has no
-- `_data`.
abbrev pub Instance : Type 0
Instance = Option State

-- `__setstate__`
unfoldable pub setstate : Dict String Slot → Instance → Instance
setstate entries _ = some (record { entries = entries })

-- `__getattr__` of any instance: without `_data`, the read of it is refused.
unfoldable pub instance_attr : String → Instance → Res Slot
unfolding get_attr
instance_attr key none = raise attribute_error
instance_attr key (some s) = get_attr key s

abbrev repr_option : Option String → String
repr_option none = "None"
repr_option (some s) = show_quoted s

-- `repr` of what a slot holds.
unfoldable pub repr_slot : Slot → String
repr_slot (plain v) = repr v
repr_slot (trace t) =
    "TraceContext(traceparent="
    <> (show_quoted t.traceparent
        <> (", trace_id="
            <> (show_quoted t.trace_id
                <> (", parent_id="
                    <> (show_quoted t.parent_id
                        <> (", sampled="
                            <> (repr (bool t.sampled)
                                <> (", tracestate=" <> (repr_option t.tracestate <> ")")))))))))

abbrev repr_entry : String × Slot → String
repr_entry (k, v) = show_quoted k <> (": " <> repr_slot v)

-- The entries, each behind `sep`.
repr_rest : String → Dict String Slot → String
unfolding repr_slot
repr_rest sep [] = ""
repr_rest sep (e ∷ d) = sep <> (repr_entry e <> repr_rest ", " d)

-- `__repr__`
unfoldable pub repr_state : State → String
unfolding repr_rest
repr_state s = "State({" <> (repr_rest "" s.entries <> "})")
