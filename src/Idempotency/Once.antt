-- ===== src/Idempotency/Once.antt =====
-- The middleware over the store in memory: a message is processed once.
use fastsqs.Base.{ℕ, ◌<◌, String, Bool, true, false, Option, some, List, [], ◌∷◌, ◌≡◌, ◌≢◌, refl}
use fastsqs.Base.{ap, All, ◌==◌, string_eq, ==_refl}
use fastsqs.Value.{null, bool, str, truthy}
use fastsqs.Value.Print.{show}
use fastsqs.Value.Path.{resolve_payload_path}
use fastsqs.Exceptions.{
  Exn, Res, ok, raise, error_of, skip_message, fastsqs_error, route_not_found, invalid_message,
  idempotency_in_progress, batch_failed, validation_error, type_error, attribute_error, key_error,
  value_error, runtime_error, recursion_error, other,
}
use fastsqs.Types.{Host}
use fastsqs.Types.Scratch
use fastsqs.Types.Scratch.{Slot, State, plain}
use fastsqs.Types.Scratch.Laws.{get-set_item, get_item-set_item}
use fastsqs.Run.{Job, M}
use fastsqs.Middleware.{Middleware, call_before, call_after, run_middleware_stack}
use fastsqs.Middleware.Stack.{bracket_entered, bracket_refused, nest, run_middleware_stack-nest}
use fastsqs.Idempotency.Protocol.{acquired, completed}
use fastsqs.Idempotency.{
  IdempotencyMiddleware, acquired_key, claim, claim_value, before, release, after, as_middleware,
  is_success,
}
use fastsqs.Idempotency.Memory.{Memory, Place, memory_store, try_acquire, mark_complete, forget}
use fastsqs.Idempotency.Memory.History.{Op, run, elapsed}
use fastsqs.Idempotency.Memory.Lease.{Spares, try_acquire-mark_complete}
use fastsqs.Idempotency.Memory.Expiry.{Ignores, try_acquire-forget}

keys_differ : ◌==◌ {A = String} "idempotency_key" acquired_key ≡ false
unfolding string_eq
keys_differ = refl

-- The state of a job whose claim has been taken.
abbrev pub claimed_state : String → State → State
claimed_state key s =
    Scratch.set_item acquired_key (plain (bool true))
      (Scratch.set_item "idempotency_key" (plain (str key)) s)

-- The entries that the middleware reads back.
abbrev pub HasClaim : String → State → Type 0
HasClaim key s =
    (Scratch.get acquired_key (plain null) s ≡ plain (bool true))
    × (Scratch.get_item "idempotency_key" s ≡ ok (plain (str key)))

pub claimed_state-HasClaim : (key : String) (s : State) → HasClaim key (claimed_state key s)
claimed_state-HasClaim key s =
    (rw (get-set_item, ==_refl), rw (get_item-set_item, keys_differ, get_item-set_item, ==_refl))

-- A record that SQS is to delete: it was processed, or skipped.
abbrev pub IsAcked {ℓ} : {A : Type ℓ} → Res A → Type 0
IsAcked (ok a) = Unit
IsAcked (raise e) = e ≡ skip_message

is_success-IsAcked : {A : Type 0} (q : Res A) → IsAcked q → is_success (error_of q) ≡ true
is_success-IsAcked (ok a) h = refl
is_success-IsAcked (raise e) h = rw h

-- What is raised but to skip is a failure.
is_success-failed : (e : Exn) → e ≢ skip_message → is_success (some e) ≡ false
is_success-failed skip_message h = absurd (h refl)
is_success-failed fastsqs_error h = refl
is_success-failed route_not_found h = refl
is_success-failed invalid_message h = refl
is_success-failed idempotency_in_progress h = refl
is_success-failed (batch_failed failures) h = refl
is_success-failed validation_error h = refl
is_success-failed type_error h = refl
is_success-failed attribute_error h = refl
is_success-failed key_error h = refl
is_success-failed value_error h = refl
is_success-failed runtime_error h = refl
is_success-failed recursion_error h = refl
is_success-failed (other n) h = refl

module _ {H : Host} (p : Place H)
    (read-write : (m : Memory) (w : H.World) → p.read (p.write m w) ≡ m) (key_path : String)
    (lease window : ℕ) (require_key : Bool) where
  -- `IdempotencyMiddleware(InMemoryIdempotencyStore(), …)`
  abbrev pub dedup : IdempotencyMiddleware H
  dedup = record {
    store = memory_store p;
    key_path = key_path;
    in_progress_ttl_seconds = lease;
    completed_ttl_seconds = window;
    require_key = require_key;
  }

  abbrev pub mw : Middleware H
  mw = as_middleware dedup

  -- What `before` does to a job whose key it asks for.
  abbrev pub asked : String → Job H → Job H
  asked key j = record j {
    ctx = record j.ctx { state = Scratch.set_item "idempotency_key" (plain (str key)) j.ctx.state };
    world = p.write (try_acquire key lease (p.read j.world)).1 j.world;
  }

  abbrev pub claimed : String → Job H → Job H
  claimed key j = record (asked key j) {
    ctx = record j.ctx { state = claimed_state key j.ctx.state };
  }

  module _ (key : String) (j : Job H)
      (keyed : resolve_payload_path j.payload key_path ≡ str key) where
    before_acquired :
        (try_acquire key lease (p.read j.world)).0 ≡ acquired
        → before dedup j ≡ (ok tt, claimed key j)
    unfolding before claim_value claim show
    before_acquired won = rw (keyed, before) (rw won)

    before_completed :
        (try_acquire key lease (p.read j.world)).0 ≡ completed
        → before dedup j ≡ (raise skip_message, asked key j)
    unfolding before claim_value claim show
    before_completed done = rw (keyed, before) (rw done)

  after_success :
      (key : String) (error : Option Exn) (j : Job H)
      → HasClaim key j.ctx.state
      → is_success error ≡ true
      → p.read (after dedup error j).1.world ≡ mark_complete key window (p.read j.world)
  unfolding after release truthy
  after_success key error j (set, found) success =
      rw (set, found, success, after) (read-write _ j.world)

  after_failure :
      (key : String) (error : Option Exn) (j : Job H)
      → HasClaim key j.ctx.state
      → is_success error ≡ false
      → p.read (after dedup error j).1.world ≡ forget key (p.read j.world)
  unfolding after release truthy
  after_failure key error j (set, found) failure =
      rw (set, found, failure, after) (read-write _ j.world)

  module _ (key : String) (j : Job H)
      (keyed : resolve_payload_path j.payload key_path ≡ str key) where
    stack_acquired :
        {A : Type 0} (inner : M H A)
        → (try_acquire key lease (p.read j.world)).0 ≡ acquired
        → run_middleware_stack (mw ∷ []) inner j ≡ (
          (inner (claimed key j)).0,
          (after dedup (error_of (inner (claimed key j)).0) (inner (claimed key j)).1).1,
        )
    unfolding nest call_before call_after
    stack_acquired inner won =
        rw run_middleware_stack-nest
          (bracket_entered mw inner j (claimed key j) (before_acquired key j keyed won))

    -- Behind a message whose claim is taken and that is acked, its key is marked as completed, if the
    -- inner call has left the entries of the claim in the scratch state.
    stack_success :
        {A : Type 0} (inner : M H A)
        → (try_acquire key lease (p.read j.world)).0 ≡ acquired
        → HasClaim key (inner (claimed key j)).1.ctx.state
        → IsAcked (inner (claimed key j)).0
        → p.read (run_middleware_stack (mw ∷ []) inner j).1.world
          ≡ mark_complete key window (p.read (inner (claimed key j)).1.world)
    stack_success inner won keeps success = rw (stack_acquired inner won) (
        after_success key _ (inner (claimed key j)).1 keeps
          (is_success-IsAcked (inner (claimed key j)).0 success))

    -- Behind one that fails, the claim is released.
    stack_failure :
        {A : Type 0} (inner : M H A) (e : Exn)
        → (try_acquire key lease (p.read j.world)).0 ≡ acquired
        → HasClaim key (inner (claimed key j)).1.ctx.state
        → (inner (claimed key j)).0 ≡ raise e
        → e ≢ skip_message
        → p.read (run_middleware_stack (mw ∷ []) inner j).1.world
          ≡ forget key (p.read (inner (claimed key j)).1.world)
    stack_failure inner e won keeps failure differ = rw (stack_acquired inner won) (
        after_failure key _ (inner (claimed key j)).1 keeps
          (rw failure (is_success-failed e differ)))

    pub stack_completed :
        {A : Type 0} (mws : List (Middleware H)) (inner : M H A)
        → (try_acquire key lease (p.read j.world)).0 ≡ completed
        → run_middleware_stack (mw ∷ mws) inner j ≡ (raise skip_message, asked key j)
    unfolding nest call_before
    stack_completed mws inner done = rw run_middleware_stack-nest (
        bracket_refused mw (nest mws inner) j (asked key j) skip_message
          (before_completed key j keyed done))

  -- A duplicate within the dedup window is acked and not processed. If a message with a key is
  -- claimed under the middleware, and what runs inside, which may do anything to the store and take
  -- any time, leaves the claim's two entries of the scratch state as they are and succeeds or raises
  -- `SkipMessage`, then a later message with the same key, at a time when less than the window has
  -- passed since and no operation in between has completed or released that key, raises
  -- `SkipMessage` before any further middleware or the handler runs, and changes nothing but the
  -- name of its key and what the store notes.
  pub stack_duplicate :
      {A B : Type 0} (key : String) (j j' : Job H) (inner : M H A) (mws : List (Middleware H))
      (inner' : M H B) (ops : List Op)
      → resolve_payload_path j.payload key_path ≡ str key
      → resolve_payload_path j'.payload key_path ≡ str key
      → (try_acquire key lease (p.read j.world)).0 ≡ acquired
      → HasClaim key (inner (claimed key j)).1.ctx.state
      → IsAcked (inner (claimed key j)).0
      → All (Spares key) ops
      → elapsed ops < window
      → p.read j'.world ≡ run ops (p.read (run_middleware_stack (mw ∷ []) inner j).1.world)
      → run_middleware_stack (mw ∷ mws) inner' j' ≡ (raise skip_message, asked key j')
  stack_duplicate key j j' inner mws inner' ops keyed keyed' won keeps success spared inside later =
      stack_completed key j' keyed' mws inner' (
        rw (later, stack_success key j keyed inner won keeps success)
          (try_acquire-mark_complete (p.read (inner (claimed key j)).1.world) ops key window lease
            spared inside))

  -- A failed message is processed anew. If a message with a key is claimed under the middleware, and
  -- what runs inside, which may do anything to the store and take any time, leaves the claim's two
  -- entries of the scratch state as they are and raises anything but `SkipMessage`, then the next
  -- message with that key, if no operation in between touches the key, is admitted: it runs the
  -- inner call on the claimed job.
  pub stack_retry :
      {A B : Type 0} (key : String) (j j' : Job H) (inner : M H A) (inner' : M H B) (ops : List Op)
      (e : Exn)
      → resolve_payload_path j.payload key_path ≡ str key
      → resolve_payload_path j'.payload key_path ≡ str key
      → (try_acquire key lease (p.read j.world)).0 ≡ acquired
      → HasClaim key (inner (claimed key j)).1.ctx.state
      → (inner (claimed key j)).0 ≡ raise e
      → e ≢ skip_message
      → All (Ignores key) ops
      → p.read j'.world ≡ run ops (p.read (run_middleware_stack (mw ∷ []) inner j).1.world)
      → (run_middleware_stack (mw ∷ []) inner' j').0 ≡ (inner' (claimed key j')).0
  stack_retry key j j' inner inner' ops e keyed keyed' won keeps failure differ ignored later =
      ap (λ out. out.0)
        (stack_acquired key j' keyed' inner' (
          rw (later, stack_failure key j keyed inner e won keeps failure differ)
            (try_acquire-forget (p.read (inner (claimed key j)).1.world) ops key lease ignored)))
