-- ===== src/Processing/Groups.antt =====
-- `group_records_by_message_group` of fastsqs/utils.py.
pub mod Laws
use native.Mathlib.Decide.{ℕ_discrete}
use fastsqs.Base.{String, Bool, true, false, ℕ, Option, none, some, List, [], ◌∷◌, ◌++◌}
use fastsqs.Base.{Eq, ◌==◌, string_eq, if◌then◌else◌}
use fastsqs.Base.Dict
use fastsqs.Base.Dict.{Dict}
use fastsqs.Value.{ℤ, pos, Value, null, bool, int, float, str, arr, obj, end, get_or}
use fastsqs.Exceptions.{Res, ok, raise, attribute_error, type_error}

-- A value that can be a key of a dict. `True` and `False` are the keys 1 and 0; a float is taken as
-- a key of its own.
pub data Key : Type 0 where
  none_key : Key
  number : ℤ → Key
  decimal text : String → Key

Key_discrete : Discrete Key
unfolding ℕ_discrete
Key_discrete = hlevel (ℕ_discrete, string_eq.dec)

instance unfoldable pub key_eq : Eq Key
unfolding Key_discrete string_eq
key_eq = record { dec = Key_discrete }

-- `hash` refuses lists and dicts.
unfoldable pub hashed : Value → Res Key
hashed null = ok none_key
hashed (bool b) = ok (number (pos (if b then 1 else 0)))
hashed (int n) = ok (number n)
hashed (float r) = ok (decimal r)
hashed (str s) = ok (text s)
hashed _ = raise type_error

abbrev attribute_key : Value → Res Key
attribute_key (obj attributes) = hashed (get_or "MessageGroupId" (str "default") attributes)
attribute_key _ = raise attribute_error

-- The group of a record.
unfoldable pub group_key : Value → Res Key
unfolding hashed
group_key (obj d) = attribute_key (get_or "attributes" (obj end) d)
group_key _ = raise attribute_error

-- `groups[k].append(record)`, behind the creation of the group.
unfoldable pub append_to : Key → Value → Dict Key (List Value) → Dict Key (List Value)
append_to k r groups = Dict.insert k (Dict.get_or k [] groups ++ (r ∷ [])) groups

unfoldable pub group_from : Dict Key (List Value) → List Value → Res (Dict Key (List Value))
unfolding group_key append_to
group_from groups [] = ok groups
group_from groups (r ∷ rs) = elim (group_key r) [
  | raise e ↦ raise e
  | ok k ↦ group_from (append_to k r groups) rs
]

unfoldable pub group_records : List Value → Res (Dict Key (List Value))
unfolding group_from
group_records records = group_from [] records
