-- ===== src/Idempotency.antt =====
-- fastsqs/middleware/idempotency.py: the middleware, over any store.
pub mod Protocol
pub mod Memory
pub mod Once
use fastsqs.Base.{ℕ, String, Bool, true, false, Option, none, some, if◌then◌else◌, string_eq}
use fastsqs.Base.Dict
use fastsqs.Value.{Value, null, bool, str, truthy}
use fastsqs.Value.Print.{show}
use fastsqs.Value.Path.{resolve_payload_path}
use fastsqs.Exceptions.{
  Exn, Res, ok, raise, invalid_message, skip_message, idempotency_in_progress, key_error,
  type_error,
}
use fastsqs.Types.{Host, Context}
use fastsqs.Types.Scratch
use fastsqs.Types.Scratch.{Slot, plain, trace}
use fastsqs.Run.{Job, M, pure, throw, modify_ctx, ◌>>=◌, ◌>>◌}
use fastsqs.Middleware.{Middleware}
use Protocol.{AcquireResult, acquired, in_progress, completed, IdempotencyStore}

pub record IdempotencyMiddleware (H : Host) : Type 0 where
  pub store : IdempotencyStore H
  pub key_path : String
  pub in_progress_ttl_seconds : ℕ
  pub completed_ttl_seconds : ℕ
  pub require_key : Bool

abbrev pub acquired_key : String
acquired_key = "_idempotency_acquired"

abbrev pub is_set : Slot → Bool
is_set (plain v) = truthy v
is_set (trace _) = true

abbrev pub is_success : Option Exn → Bool
is_success none = true
is_success (some skip_message) = true
is_success (some _) = false

module _ {H : Host} where
  -- `IdempotencyMiddleware(store, …)`. What does not satisfy the protocol is no store.
  unfoldable pub new_idempotency_middleware :
      Option (IdempotencyStore H) → String → ℕ → ℕ → Bool → Res (IdempotencyMiddleware H)
  new_idempotency_middleware none key_path lease window require_key = raise type_error
  new_idempotency_middleware (some store) key_path lease window require_key = ok (record {
    store = store;
    key_path = key_path;
    in_progress_ttl_seconds = lease;
    completed_ttl_seconds = window;
    require_key = require_key;
  })

  -- A call of the store.
  abbrev pub call : {A : Type 0} → (H.World → Res A × H.World) → M H A
  call f j = let (r, w) = f j.world in (r, record j { world = w })

  abbrev pub set_state : String → Slot → M H (Unit {0})
  set_state key v = modify_ctx (λ c. record c { state = Scratch.set_item key v c.state })

  -- What `before` does with the store's answer.
  abbrev pub admit : AcquireResult → M H (Unit {0})
  admit completed = throw skip_message
  admit in_progress = throw idempotency_in_progress
  admit acquired = set_state acquired_key (plain (bool true))

  unfoldable pub claim : IdempotencyMiddleware H → String → M H (Unit {0})
  claim mw key = do
    set_state "idempotency_key" (plain (str key))
    result ← call (mw.store.try_acquire key mw.in_progress_ttl_seconds)
    admit result

  unfoldable pub claim_value : IdempotencyMiddleware H → Value → M H (Unit {0})
  unfolding claim
  claim_value mw null = if mw.require_key then throw invalid_message else pure tt
  claim_value mw v = claim mw (show v)

  -- `before`
  unfoldable pub before : IdempotencyMiddleware H → M H (Unit {0})
  unfolding claim_value
  before mw j = claim_value mw (resolve_payload_path j.payload mw.key_path) j

  -- A store takes a text. Where a handler has put another value under the name of the key, the call
  -- is taken to fail.
  unfoldable pub release : IdempotencyMiddleware H → Option Exn → Res Slot → M H (Unit {0})
  release mw error (ok (plain (str key))) =
      if is_success error
      then call (mw.store.mark_complete key mw.completed_ttl_seconds)
      else call (mw.store.forget key)
  release mw error (raise e) = throw e
  release mw error _ = throw type_error

  -- `after`
  unfoldable pub after : IdempotencyMiddleware H → Option Exn → M H (Unit {0})
  unfolding release
  after mw error j =
      if is_set (Scratch.get acquired_key (plain null) j.ctx.state)
      then release mw error (Scratch.get_item "idempotency_key" j.ctx.state) j
      else (ok tt, j)

  abbrev pub as_middleware : IdempotencyMiddleware H → Middleware H
  as_middleware mw = record { before = some (before mw); after = some (after mw) }
