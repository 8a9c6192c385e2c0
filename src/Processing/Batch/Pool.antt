-- ===== src/Processing/Batch/Pool.antt =====
-- The tasks of `_handle_standard_event` of fastsqs/processing.py under their semaphore, in any order
-- that the event loop and the semaphore may choose. A task that has a permit handles its record in
-- one piece.
pub mod Orders
pub mod Ends
use fastsqs.Base.{ℕ, zero, suc, ◌+◌, List, [], ◌∷◌, map, ◌≡◌}
use fastsqs.Value.{Value}
use fastsqs.Exceptions.{Res}
use fastsqs.Types.{Host}
use fastsqs.App.{App}
use fastsqs.Processing.{handle_record}

-- The task of a record: it waits for a permit, holds one, or has a result.
pub data Task : Type 0 where
  waiting running : Value → Task
  finished : Value → Res Value → Task

abbrev pub record_of : Task → Value
record_of (waiting r) = r
record_of (running r) = r
record_of (finished r q) = r

-- The tasks, the permits that are free, and the world.
pub data Pool (H : Host) : Type 0 where
  pool : List Task → ℕ → H.World → Pool H

module _ {H : Host} (app : App H) (context : H.LambdaContext) where
  -- A task gets a permit, or handles its record and gives the permit back.
  pub data Step : Pool H → Pool H → Type 0 where
    start :
        (r : Value) (ts : List Task) (permits : ℕ) (w : H.World)
        → Step (pool (waiting r ∷ ts) (suc permits) w) (pool (running r ∷ ts) permits w)
    finish :
        (r : Value) (ts : List Task) (permits : ℕ) (w w' : H.World) (q : Res Value)
        → handle_record app r context w ≡ (q, w')
        → Step (pool (running r ∷ ts) permits w) (pool (finished r q ∷ ts) (suc permits) w')
    there :
        (t : Task) {ts ts' : List Task} {permits permits' : ℕ} {w w' : H.World}
        → Step (pool ts permits w) (pool ts' permits' w')
        → Step (pool (t ∷ ts) permits w) (pool (t ∷ ts') permits' w')

  pub data Runs : Pool H → Pool H → Type 0 where
    stay : {s : Pool H} → Runs s s
    next : {s s' s'' : Pool H} → Step s s' → Runs s' s'' → Runs s s''

  -- The tasks as they are created, with `max_concurrent_messages` permits.
  abbrev pub created : List Value → H.World → Pool H
  created records w = pool (map (λ r. waiting r) records) app.max_concurrent_messages w
