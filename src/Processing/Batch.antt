-- ===== src/Processing/Batch.antt =====
-- fastsqs/processing.py: a batch. Tasks are run one after the other here, in the order in which
-- they are created, as asyncio does when no task suspends.
pub mod Fifo
pub mod Reports
pub mod Whole
pub mod Event
pub mod Pool
pub mod Switch
pub mod Accounts
pub mod Settled
use fastsqs.Base.{ℕ, zero, suc, String, Bool, true, false, not, ◌&&◌, Option, none, some}
use fastsqs.Base.{List, [], ◌∷◌, ◌++◌, map, ◌==◌, string_eq, if◌then◌else◌}
use fastsqs.Base.Dict
use fastsqs.Base.Dict.{Dict}
use fastsqs.Value.{Value, null, arr, obj, nil, Items, elements, get, or_value}
use fastsqs.Exceptions.{Exn, Res, ok, raise, attribute_error, batch_failed}
use fastsqs.Types.{Host, QueueType, standard, fifo}
use fastsqs.App.{App, resolve_queue_type}
use fastsqs.Processing.{message_id, handle_record}
use fastsqs.Processing.Groups.{Key, group_records}

-- `batchItemFailures`: the item identifiers.
abbrev pub Failures : Type 0
Failures = List Value

-- An invocation ends, or its tasks wait for ever.
pub data Outcome (H : Host) : Type 0 where
  ended : Res Failures → H.World → Outcome H
  blocked : Outcome H

-- The loop over the results of `gather`, where what a task has raised is an `Exception`.
unfoldable pub collect_failures : List Value → List (Res Value) → Failures
collect_failures (r ∷ rs) (ok _ ∷ results) = collect_failures rs results
collect_failures (r ∷ rs) (raise e ∷ results) = message_id r ∷ collect_failures rs results
collect_failures _ _ = []

module _ {H : Host} (app : App H) (context : H.LambdaContext) where
  -- The tasks of `_handle_standard_event`.
  unfoldable pub run_all : List Value → H.World → List (Res Value) × H.World
  run_all [] w = ([], w)
  run_all (r ∷ rs) w =
      let (q, w') = handle_record app r context w in let (qs, w'') = run_all rs w' in (q ∷ qs, w'')

  -- `_handle_standard_event`. No task gets a semaphore that has no permit.
  unfoldable pub handle_standard_event : List Value → H.World → Outcome H
  unfolding run_all
  handle_standard_event records w =
      let (results, w') = run_all records w in
      elim app.max_concurrent_messages [
        | zero ↦ blocked
        | suc _ ↦ ended (ok (collect_failures records results)) w'
      ]

  -- `process_group`
  unfoldable pub process_group : List Value → H.World → Failures × H.World
  process_group [] w = ([], w)
  process_group (r ∷ rs) w =
      let (q, w') = handle_record app r context w in
      elim q [ ok _ ↦ process_group rs w' | raise e ↦ (map message_id (r ∷ rs), w') ]

  unfoldable pub process_groups : Dict Key (List Value) → H.World → Failures × H.World
  process_groups [] w = ([], w)
  process_groups ((k, rs) ∷ groups) w =
      let (failures, w') = process_group rs w in
      let (later, w'') = process_groups groups w' in (failures ++ later, w'')

  -- The loop of `_handle_fifo_halt_batch`, with its flag.
  unfoldable pub halt_loop : Bool → List Value → H.World → Failures × H.World
  halt_loop halted [] w = ([], w)
  halt_loop true (r ∷ rs) w = let (later, w') = halt_loop true rs w in (message_id r ∷ later, w')
  halt_loop false (r ∷ rs) w =
      let (q, w') = handle_record app r context w in
      elim q [
        | ok _ ↦ halt_loop false rs w'
        | raise e ↦ let (later, w'') = halt_loop true rs w' in (message_id r ∷ later, w'')
      ]

  -- `_handle_fifo_event`
  unfoldable pub handle_fifo_event : List Value → H.World → Outcome H
  unfolding process_groups process_group halt_loop
  handle_fifo_event records w =
      if app.fifo_failure_mode == "halt_batch"
      then (let (failures, w') = halt_loop false records w in ended (ok failures) w')
      else elim (group_records records) [
        | raise e ↦ ended (raise e) w
        | ok groups ↦ let (failures, w') = process_groups groups w in ended (ok failures) w'
      ]

  -- The end of `_handle_event`.
  abbrev pub report : Outcome H → Outcome H
  report (ended (ok (f ∷ fs)) w) =
      if app.partial_batch_failure
      then ended (ok (f ∷ fs)) w
      else ended (raise (batch_failed (f ∷ fs))) w
  report outcome = outcome

  -- A batch that is not empty.
  unfoldable pub handle_records : List Value → H.World → Outcome H
  unfolding handle_standard_event handle_fifo_event resolve_queue_type
  handle_records records w = elim (resolve_queue_type app records) [
    | raise e ↦ ended (raise e) w
    | ok fifo ↦ report (handle_fifo_event records w)
    | ok _ ↦ report (handle_standard_event records w)
  ]

  abbrev pub handle_list : List Value → H.World → Outcome H
  handle_list [] w = ended (ok []) w
  handle_list (r ∷ rs) w = handle_records (r ∷ rs) w

  abbrev pub handle_batch : Value → H.World → Outcome H
  handle_batch (arr vs) w = handle_list (elements vs) w
  handle_batch _ w = ended (ok []) w

  -- `_handle_event`
  unfoldable pub handle_event : Value → H.World → Outcome H
  unfolding handle_records
  handle_event (arr vs) w = handle_list (elements vs) w
  handle_event (obj d) w = handle_batch (or_value (get "Records" d) (arr nil)) w
  handle_event _ w = ended (raise attribute_error) w
