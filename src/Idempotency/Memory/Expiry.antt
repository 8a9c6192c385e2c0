-- ===== src/Idempotency/Memory/Expiry.antt =====
-- A claim of the store in memory comes to an end.
use fastsqs.Base.{ℕ, ◌+◌, ◌≤◌, String, some, List, [], ◌∷◌, ◌≡◌, ◌≢◌}
use fastsqs.Base.{arith, string_eq, All, inl, inr, Option-cases}
use fastsqs.Base.Dict
use fastsqs.Idempotency.Protocol.{AcquireResult, acquired, in_progress, completed}
use fastsqs.Idempotency.Memory.{Memory, try_acquire, mark_complete, forget}
use fastsqs.Idempotency.Memory.History.{
  live, Op, acquire, complete, release, wait, apply, run, elapsed, elapsed-cons, after_history,
  live-ne-acquired, history-IsStore,
}

-- An operation that has nothing to do with the key.
abbrev pub Ignores : String → Op → Type 0
Ignores key (acquire other _) = other ≢ key
Ignores key (complete other _) = other ≢ key
Ignores key (release other) = other ≢ key
Ignores key (wait _) = Unit

-- The key's entry, if it has one, is over by `t`.
abbrev Expires : String → ℕ → Memory → Type 0
Expires key t m =
    (state : AcquireResult) (x : ℕ) → Dict.lookup key m.entries ≡ some (state, x) → x ≤ t

apply-Expires :
    (key : String) (op : Op) (t : ℕ) (m : Memory)
    → Ignores key op
    → Expires key t m
    → Expires key t (apply op m) × ((apply op m).now ≡ m.now + elapsed (op ∷ []))
unfolding apply elapsed try_acquire mark_complete forget
apply-Expires key (acquire other ttl) t m ignored h = (
  λ s x. ground (arith, h s x, Dict.lookup-insert key other (in_progress, m.now + ttl) m.entries),
  ground arith,
)
apply-Expires key (complete other ttl) t m ignored h = (
  λ s x. ground (arith, h s x, Dict.lookup-insert key other (completed, m.now + ttl) m.entries),
  ground arith,
)
apply-Expires key (release other) t m ignored h =
    (λ s x. ground (arith, h s x, Dict.lookup-erase key other m.entries), ground arith)
apply-Expires key (wait d) t m ignored h = (h, ground arith)

run-Expires :
    (key : String) (ops : List Op) (t : ℕ) (m : Memory)
    → All (Ignores key) ops
    → Expires key t m
    → Expires key t (run ops m) × ((run ops m).now ≡ m.now + elapsed ops)
unfolding run elapsed
run-Expires key [] t m ignored h = (h, omega arith)
run-Expires key (op ∷ ops) t m (ignored, later) h =
    let (h', now) = apply-Expires key op t m ignored h in
    let (h'', now') = run-Expires key ops t (apply op m) later h' in
    (h'', omega (arith, elapsed-cons op ops))

acquire-of-Expires :
    (key : String) (ttl t : ℕ) (m : Memory)
    → Expires key t m
    → t ≤ m.now
    → (try_acquire key ttl m).0 ≡ acquired
unfolding try_acquire
acquire-of-Expires key ttl t m h le = elim (Option-cases (Dict.lookup key m.entries)) [
  | inl absent ↦ ground arith
  | inr ((s, x), found) ↦ ground (arith, h s x)
]

forget-Expires : (key : String) (m : Memory) → Expires key 0 (forget key m)
unfolding forget
forget-Expires key m s x = ground (arith, Dict.lookup-erase key key m.entries)

-- A released key can be claimed at once, and later if nothing touches it meanwhile.
pub try_acquire-forget :
    (m : Memory) (ops : List Op) (key : String) (ttl : ℕ)
    → All (Ignores key) ops
    → (try_acquire key ttl (run ops (forget key m))).0 ≡ acquired
try_acquire-forget m ops key ttl ignored =
    let (over, now) = run-Expires key ops 0 (forget key m) ignored (forget-Expires key m) in
    acquire-of-Expires key ttl 0 (run ops (forget key m)) over (omega arith)

claimed-Expires :
    (key : String) (ttl : ℕ) (m : Memory)
    → (try_acquire key ttl m).0 ≡ acquired
    → live key m ≢ some acquired
    → Expires key (m.now + ttl) (try_acquire key ttl m).1 × ((try_acquire key ttl m).1.now ≡ m.now)
unfolding try_acquire live
claimed-Expires key ttl m won fresh = (
  λ s x. ground (arith, Dict.lookup-insert key key (in_progress, m.now + ttl) m.entries),
  ground arith,
)

-- No lock for ever. After any history: a claim whose holder does nothing more is over once the lease
-- has passed, and the next claim of the key gives `ACQUIRED`, whatever else is done with the store
-- meanwhile.
pub try_acquire_expires :
    (history ops : List Op) (key : String) (ttl ttl' : ℕ)
    → (try_acquire key ttl (after_history history)).0 ≡ acquired
    → All (Ignores key) ops
    → ttl ≤ elapsed ops
    → (try_acquire key ttl' (run ops (try_acquire key ttl (after_history history)).1)).0 ≡ acquired
try_acquire_expires history ops key ttl ttl' won ignored h =
    let m = after_history history in
    let (over, now) =
      claimed-Expires key ttl m won (live-ne-acquired key m (history-IsStore history)) in
    let (over', now') = run-Expires key ops (m.now + ttl) (try_acquire key ttl m).1 ignored over in
    acquire-of-Expires key ttl' (m.now + ttl) (run ops (try_acquire key ttl m).1) over'
      (omega arith)
