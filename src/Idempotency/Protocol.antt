-- ===== src/Idempotency/Protocol.antt =====
-- `AcquireResult` and `IdempotencyStore` of fastsqs/middleware/idempotency.py.
use fastsqs.Base.{ℕ, String}
use fastsqs.Exceptions.{Res}
use fastsqs.Types.{Host}

pub data AcquireResult : Type 0 where
  acquired in_progress completed : AcquireResult

-- The protocol `IdempotencyStore`. A call acts on the world, atomically.
pub record IdempotencyStore (H : Host) : Type 0 where
  pub try_acquire : String → ℕ → H.World → Res AcquireResult × H.World
  pub mark_complete : String → ℕ → H.World → Res (Unit {0}) × H.World
  pub forget : String → H.World → Res (Unit {0}) × H.World
