-- ===== src/Idempotency/Memory/History.antt =====
-- The store in memory over time: what may be done with it, and what it keeps.
use fastsqs.Base.{ℕ, ◌+◌, String, Option, none, some, List, [], ◌∷◌, ◌≡◌, ◌≢◌}
use fastsqs.Base.{arith, ltb, if◌then◌else◌, string_eq, inl, inr, Option-cases}
use fastsqs.Base.Dict
use fastsqs.Idempotency.Protocol.{AcquireResult, acquired, in_progress, completed}
use fastsqs.Idempotency.Memory.{Memory, try_acquire, mark_complete, forget, tick}

-- The live state of a key, if it has one.
unfoldable pub live : String → Memory → Option AcquireResult
live key m = elim (Dict.lookup key m.entries) [
  | none ↦ none
  | some (state, expires_at) ↦ if ltb m.now expires_at then some state else none
]

-- What is done with the store: its three methods, and the passing of time.
pub data Op : Type 0 where
  acquire complete : String → ℕ → Op
  release : String → Op
  wait : ℕ → Op

unfoldable pub apply : Op → Memory → Memory
apply (acquire key ttl) m = (try_acquire key ttl m).1
apply (complete key ttl) m = mark_complete key ttl m
apply (release key) m = forget key m
apply (wait d) m = tick d m

unfoldable pub run : List Op → Memory → Memory
run [] m = m
run (op ∷ ops) m = run ops (apply op m)

-- The time that passes.
unfoldable pub elapsed : List Op → ℕ
elapsed [] = 0
elapsed (wait d ∷ ops) = d + elapsed ops
elapsed (_ ∷ ops) = elapsed ops

pub elapsed-cons : (op : Op) (ops : List Op) → elapsed (op ∷ ops) ≡ elapsed (op ∷ []) + elapsed ops
unfolding elapsed
elapsed-cons (wait d) ops = omega arith
elapsed-cons (release key) ops = omega arith
elapsed-cons _ ops = omega arith

-- No entry is marked as just acquired.
abbrev pub IsStore : Memory → Type 0
IsStore m = (key : String) (x : ℕ) → Dict.lookup key m.entries ≢ some (acquired, x)

apply-IsStore : (op : Op) (m : Memory) → IsStore m → IsStore (apply op m)
unfolding apply try_acquire mark_complete forget
apply-IsStore (acquire key ttl) m h j x =
    ground (arith, h j x, Dict.lookup-insert j key (in_progress, m.now + ttl) m.entries)
apply-IsStore (complete key ttl) m h j x =
    ground (arith, h j x, Dict.lookup-insert j key (completed, m.now + ttl) m.entries)
apply-IsStore (release key) m h j x = ground (arith, h j x, Dict.lookup-erase j key m.entries)
apply-IsStore (wait d) m h j x = h j x

pub run-IsStore : (ops : List Op) (m : Memory) → IsStore m → IsStore (run ops m)
unfolding run
run-IsStore [] m h = h
run-IsStore (op ∷ ops) m h = run-IsStore ops (apply op m) (apply-IsStore op m h)

abbrev pub empty : Memory
empty = record { now = 0; entries = [] }

-- The store after any history.
abbrev pub after_history : List Op → Memory
after_history history = run history empty

pub live-ne-acquired : (key : String) (m : Memory) → IsStore m → live key m ≢ some acquired
unfolding live
live-ne-acquired key m h = λ e. elim (Option-cases (Dict.lookup key m.entries)) [
  | inl absent ↦ ground arith
  | inr ((s, x), found) ↦ ground (arith, h key x)
]

pub history-IsStore : (history : List Op) → IsStore (after_history history)
unfolding Dict.lookup
history-IsStore history = run-IsStore history empty (λ key x e. cc e)
