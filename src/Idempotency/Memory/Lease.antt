-- ===== src/Idempotency/Memory/Lease.antt =====
-- A claim of the store in memory is a lease, and a completion a window.
use fastsqs.Base.{ℕ, ◌+◌, ◌<◌, String, some, List, [], ◌∷◌, ◌≡◌, ◌≢◌}
use fastsqs.Base.{arith, string_eq, All}
use fastsqs.Base.Dict
use fastsqs.Idempotency.Protocol.{AcquireResult, acquired, in_progress, completed}
use fastsqs.Idempotency.Memory.{Memory, try_acquire, mark_complete, forget}
use fastsqs.Idempotency.Memory.History.{
  live, Op, acquire, complete, release, wait, apply, run, elapsed, elapsed-cons, after_history,
  live-ne-acquired, history-IsStore,
}

-- An operation that neither completes nor releases the key.
abbrev pub Spares : String → Op → Type 0
Spares key (complete other _) = other ≢ key
Spares key (release other) = other ≢ key
Spares key _ = Unit

-- The key has an entry that lasts for more than `t` ticks.
abbrev pub Lasts : String → AcquireResult → ℕ → Memory → Type 0
Lasts key state t m =
    (expires_at : ℕ) × (Dict.lookup key m.entries ≡ some (state, expires_at))
    × (m.now + t < expires_at)

acquire-Lasts :
    (key other : String) (ttl : ℕ) (state : AcquireResult) (t : ℕ) (m : Memory)
    → Lasts key state t m
    → Lasts key state t (try_acquire other ttl m).1
unfolding try_acquire
acquire-Lasts key other ttl state t m (x, e, h) = (
  x,
  ground (arith, Dict.lookup-insert key other (in_progress, m.now + ttl) m.entries),
  ground arith,
)

apply-Lasts :
    (key : String) (op : Op) (state : AcquireResult) (t : ℕ) (m : Memory)
    → Spares key op
    → Lasts key state (elapsed (op ∷ []) + t) m
    → Lasts key state t (apply op m)
unfolding apply elapsed mark_complete forget
apply-Lasts key (acquire other ttl) state t m spared l =
    acquire-Lasts key other ttl state t m (l.0, l.1, omega arith)
apply-Lasts key (complete other ttl) state t m spared (x, e, h) = (
  x,
  ground (arith, Dict.lookup-insert key other (completed, m.now + ttl) m.entries),
  omega arith,
)
apply-Lasts key (release other) state t m spared (x, e, h) =
    (x, ground (arith, Dict.lookup-erase key other m.entries), omega arith)
apply-Lasts key (wait d) state t m spared (x, e, h) = (x, e, omega arith)

run-Lasts :
    (key : String) (ops : List Op) (state : AcquireResult) (t : ℕ) (m : Memory)
    → All (Spares key) ops
    → Lasts key state (elapsed ops + t) m
    → Lasts key state t (run ops m)
unfolding run elapsed
run-Lasts key [] state t m spared (x, e, h) = (x, e, omega arith)
run-Lasts key (op ∷ ops) state t m (spared, later) (x, e, h) =
    run-Lasts key ops state t (apply op m) later (
      apply-Lasts key op state (elapsed ops + t) m spared
        (x, e, omega (arith, elapsed-cons op ops)))

acquire-of-Lasts :
    (key : String) (ttl : ℕ) (state : AcquireResult) (m : Memory)
    → Lasts key state 0 m
    → (try_acquire key ttl m).0 ≡ state
unfolding try_acquire
acquire-of-Lasts key ttl state m (x, e, h) = ground arith

claimed-Lasts :
    (key : String) (ttl t : ℕ) (m : Memory)
    → (try_acquire key ttl m).0 ≡ acquired
    → live key m ≢ some acquired
    → t < ttl
    → Lasts key in_progress t (try_acquire key ttl m).1
unfolding try_acquire live
claimed-Lasts key ttl t m won fresh h = (
  m.now + ttl,
  ground (arith, Dict.lookup-insert key key (in_progress, m.now + ttl) m.entries),
  ground arith,
)

-- Mutual exclusion. After any history: if `try_acquire` gives `ACQUIRED` for a key, then for as long
-- as the lease lasts and the key is neither completed nor released, every further claim of that
-- key gives `IN_PROGRESS`, whatever else is done with the store meanwhile.
pub try_acquire_exclusive :
    (history ops : List Op) (key : String) (ttl ttl' : ℕ)
    → (try_acquire key ttl (after_history history)).0 ≡ acquired
    → All (Spares key) ops
    → elapsed ops < ttl
    → (try_acquire key ttl' (run ops (try_acquire key ttl (after_history history)).1)).0
      ≡ in_progress
try_acquire_exclusive history ops key ttl ttl' won spared h =
    let m = after_history history in
    acquire-of-Lasts key ttl' in_progress _ (
      run-Lasts key ops in_progress 0 (try_acquire key ttl m).1 spared (
        claimed-Lasts key ttl (elapsed ops + 0) m won
          (live-ne-acquired key m (history-IsStore history)) (omega arith)))

complete-Lasts :
    (key : String) (ttl t : ℕ) (m : Memory)
    → t < ttl
    → Lasts key completed t (mark_complete key ttl m)
unfolding mark_complete
complete-Lasts key ttl t m h = (
  m.now + ttl,
  ground (arith, Dict.lookup-insert key key (completed, m.now + ttl) m.entries),
  omega arith,
)

-- The dedup window. Once a key is marked complete, every claim of it within `ttl` ticks gives
-- `COMPLETED`, whatever else is done with the store meanwhile, if the key is not released and not
-- completed anew.
pub try_acquire-mark_complete :
    (m : Memory) (ops : List Op) (key : String) (ttl ttl' : ℕ)
    → All (Spares key) ops
    → elapsed ops < ttl
    → (try_acquire key ttl' (run ops (mark_complete key ttl m))).0 ≡ completed
try_acquire-mark_complete m ops key ttl ttl' spared h = acquire-of-Lasts key ttl' completed _ (
    run-Lasts key ops completed 0 _ spared
      (complete-Lasts key ttl (elapsed ops + 0) m (omega arith)))
