-- ===== src/Types/Scratch/Laws.antt =====
-- Reads of the scratch state after writes.
use fastsqs.Base.{String, ◌≡◌, refl, arith, none}
use fastsqs.Base.{◌==◌, string_eq, if◌then◌else◌}
use fastsqs.Base.Dict
use fastsqs.Exceptions.{ok, raise, key_error, attribute_error}
use fastsqs.Types.Scratch.{Slot, State, get_item, set_item, del_attr, get, get_attr, instance_attr}
use fastsqs.Types.Scratch.{getstate, setstate}

pub get-set_item :
    (j k : String) (v default : Slot) (s : State)
    → get j default (set_item k v s) ≡ (if j == k then v else get j default s)
unfolding get set_item
get-set_item j k v default s = ground (arith, Dict.lookup-insert j k v s.entries)

pub get_item-set_item :
    (j k : String) (v : Slot) (s : State)
    → get_item j (set_item k v s) ≡ (if j == k then ok v else get_item j s)
unfolding get_item set_item
get_item-set_item j k v s = ground (arith, Dict.lookup-insert j k v s.entries)

-- Deleting a name, by either kind of access.
pub get_item-del_attr :
    (j k : String) (s s' : State)
    → del_attr k s ≡ ok s'
    → get_item j s' ≡ (if j == k then raise key_error else get_item j s)
unfolding get_item del_attr
get_item-del_attr j k s s' h = ground (arith, Dict.lookup-erase j k s.entries)

-- The state that a copy ends with reads as the one that was copied, by every name, and a copy without
-- its data yet refuses every name, `_data` and those that the machinery probes included.
pub instance_attr-setstate :
    (key : String) (s : State)
    → (instance_attr key none ≡ raise attribute_error)
      × (instance_attr key (setstate (getstate s) none) ≡ get_attr key s)
unfolding instance_attr setstate getstate
instance_attr-setstate key s = (refl, refl)
