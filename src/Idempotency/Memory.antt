-- ===== src/Idempotency/Memory.antt =====
-- `InMemoryIdempotencyStore`. Its clock counts in ticks of whole seconds.
pub mod History
pub mod Lease
pub mod Expiry
use fastsqs.Base.{ℕ, ◌+◌, String, Option, none, some, List, [], ◌∷◌, ltb, if◌then◌else◌, string_eq}
use fastsqs.Base.Dict
use fastsqs.Base.Dict.{Dict}
use fastsqs.Exceptions.{Res, ok}
use fastsqs.Types.{Host}
use fastsqs.Idempotency.Protocol.{AcquireResult, acquired, in_progress, completed, IdempotencyStore}

pub record Memory : Type 0 where
  pub now : ℕ
  pub entries : Dict String (AcquireResult × ℕ)

abbrev claim : String → ℕ → Memory → AcquireResult × Memory
claim key ttl m =
    (acquired, record m { entries = Dict.insert key (in_progress, m.now + ttl) m.entries })

unfoldable pub try_acquire : String → ℕ → Memory → AcquireResult × Memory
try_acquire key ttl m = elim (Dict.lookup key m.entries) [
  | none ↦ claim key ttl m
  | some (state, expires_at) ↦ if ltb m.now expires_at then (state, m) else claim key ttl m
]

unfoldable pub mark_complete : String → ℕ → Memory → Memory
mark_complete key ttl m = record m { entries = Dict.insert key (completed, m.now + ttl) m.entries }

unfoldable pub forget : String → Memory → Memory
forget key m = record m { entries = Dict.erase key m.entries }

-- The clock goes on.
abbrev pub tick : ℕ → Memory → Memory
tick d m = record m { now = m.now + d }

-- The store as a part of the world.
pub record Place (H : Host) : Type 0 where
  pub read : H.World → Memory
  pub write : Memory → H.World → H.World

abbrev pub memory_store : {H : Host} → Place H → IdempotencyStore H
memory_store p = record {
  try_acquire = λ key ttl w. let (r, m) = try_acquire key ttl (p.read w) in (ok r, p.write m w);
  mark_complete = λ key ttl w. (ok tt, p.write (mark_complete key ttl (p.read w)) w);
  forget = λ key w. (ok tt, p.write (forget key (p.read w)) w);
}
