-- ===== src/Processing/Logged/Batch.antt =====
-- A batch of fastsqs/processing.py with its log lines. A group key that is a bool is logged as its
-- number.
pub mod Loops
pub mod Silent
pub mod Kept
pub mod Standard
pub mod Settled
pub mod Lost
use fastsqs.Base.{ℕ, zero, suc, ◌-◌, String, ◌<>◌, Bool, true, false, List, [], ◌∷◌, ◌++◌, map}
use fastsqs.Base.{length, ◌==◌, string_eq, if◌then◌else◌}
use fastsqs.Base.Dict.{Dict}
use fastsqs.Value.{Value, ℤ, pos, null, int, float, arr, obj, nil, elements, get, or_value}
use fastsqs.Value.Print.{decimal}
use fastsqs.Exceptions.{Exn, Res, ok, raise, attribute_error}
use fastsqs.Types.{Host, QueueType, standard, fifo}
use fastsqs.App.{App, resolve_queue_type}
use fastsqs.Logging.{Item, json, Entry, done, with_item, text, Console, Logger, queue_type_value}
use fastsqs.Processing.{message_id}
use fastsqs.Processing.Groups
use fastsqs.Processing.Groups.{Key, none_key, number, group_records}
use fastsqs.Processing.Batch.{Failures, Outcome, ended, blocked, report}
use fastsqs.Processing.Logged.{and_then, handle_record}

abbrev count_item : ℕ → Item
count_item n = json (int (pos n))

abbrev group_item : Key → Item
group_item none_key = json null
group_item (number n) = json (int n)
group_item (Groups.decimal r) = json (float r)
group_item (Groups.text s) = text s

-- A whole batch, or the end of the invocation by a log line that raises.
abbrev pub outcome_of : {H : Host} → Res Failures × H.World → Outcome H
outcome_of (q, w) = ended q w

module _ {H : Host} (c : Console H) (log : String → String → Logger H) (debug : Bool) where
  -- A line that is logged under `if self.debug`.
  unfoldable pub debug_log : String → String → Logger H
  debug_log level message extra w = if debug then log level message extra w else (ok tt, w)

  abbrev pub failed_items : Value → Exn → Entry
  failed_items r e = with_item "msg_id" (json (message_id r)) (
      with_item "error_type" (text (c.type_name e))
        (with_item "error" (text (c.error_message e)) done))

  abbrev pub error_items : Value → Exn → Entry
  error_items r e =
      with_item "msg_id" (json (message_id r)) (with_item "error" (text (c.error_message e)) done)

  abbrev pub halted_items : Key → Value → Exn → Entry
  halted_items k r e =
      with_item "msg_id" (json (message_id r))
        (with_item "group_id" (group_item k) (with_item "error" (text (c.error_message e)) done))

  -- The loop over the results of `gather`.
  unfoldable pub collect_failures : List Value → List (Res Value) → H.World → Res Failures × H.World
  unfolding debug_log
  collect_failures (r ∷ rs) (ok _ ∷ results) w =
      and_then (log "debug" "Record succeeded" (with_item "msg_id" (json (message_id r)) done) w)
        (λ _ w'. collect_failures rs results w')
  collect_failures (r ∷ rs) (raise e ∷ results) w =
      and_then (log "error" "Record failed" (failed_items r e) w) (λ _ w1.
        and_then (debug_log "debug" "Record failed" (error_items r e) w1) (λ _ w2.
          and_then (collect_failures rs results w2) (λ later w3. (ok (message_id r ∷ later), w3))))
  collect_failures _ _ w = (ok [], w)

  module _ (app : App H) (context : H.LambdaContext) where
    -- `_handle_record_safe`
    unfoldable pub handle_record_safe : Value → H.World → Res Value × H.World
    handle_record_safe r w =
        let (q, w') = handle_record c log app r context w in
        elim q [
          | ok _ ↦ (ok null, w')
          | raise e ↦
              and_then (log "error" "Record processing failed" (failed_items r e) w')
                (λ _ w''. (raise e, w''))
        ]

    unfoldable pub run_all : List Value → H.World → List (Res Value) × H.World
    unfolding handle_record_safe
    run_all [] w = ([], w)
    run_all (r ∷ rs) w =
        let (q, w') = handle_record_safe r w in let (qs, w'') = run_all rs w' in (q ∷ qs, w'')

    abbrev pub completed_items : List Value → Failures → Entry
    completed_items records failures =
        with_item "succeeded" (count_item (length records - length failures))
          (with_item "failed" (count_item (length failures)) done)

    -- What follows `gather`.
    abbrev pub completed : List Value → List (Res Value) → H.World → Res Failures × H.World
    completed records results w = and_then (collect_failures records results w) (λ failures w'.
        and_then (log "info" "Batch processing completed" (completed_items records failures) w')
          (λ _ w''. (ok failures, w'')))

    -- The tasks, behind the first line.
    abbrev pub run_standard : List Value → Res (Unit {0}) × H.World → Outcome H
    run_standard records (raise e, w) = ended (raise e) w
    run_standard records (ok _, w) =
        let (results, w') = run_all records w in
        elim app.max_concurrent_messages [
          | zero ↦ blocked
          | suc _ ↦ outcome_of (completed records results w')
        ]

    -- `_handle_standard_event`
    unfoldable pub handle_standard_event : List Value → H.World → Outcome H
    unfolding run_all collect_failures
    handle_standard_event records w = run_standard records (
        log "info" "Processing records in standard queue mode"
          (with_item "record_count" (count_item (length records)) done) w)

    -- The records of a group.
    unfoldable pub process_records : Key → List Value → H.World → Res Failures × H.World
    unfolding debug_log
    process_records k [] w = (ok [], w)
    process_records k (r ∷ rs) w =
        let (q, w') = handle_record c log app r context w in
        elim q [
          | ok _ ↦ process_records k rs w'
          | raise e ↦
              and_then
                (debug_log "error" "FIFO record failed; halting group to preserve ordering"
                  (halted_items k r e) w')
                (λ _ w''. (ok (map message_id (r ∷ rs)), w''))
        ]

    -- `process_group`
    unfoldable pub process_group : Key → List Value → H.World → Res Failures × H.World
    unfolding process_records debug_log
    process_group k rs w =
        and_then
          (debug_log "debug" "Processing group"
            (with_item "group_id" (group_item k)
              (with_item "record_count" (count_item (length rs)) done))
            w)
          (λ _ w'. process_records k rs w')

    -- `gather` of the tasks of the groups.
    unfoldable pub run_groups : Dict Key (List Value) → H.World → List (Res Failures) × H.World
    unfolding process_group
    run_groups [] w = ([], w)
    run_groups ((k, rs) ∷ groups) w =
        let (q, w') = process_group k rs w in let (qs, w'') = run_groups groups w' in (q ∷ qs, w'')

    -- The loop over the results of the groups.
    unfoldable pub join_groups : List (Res Failures) → H.World → Res Failures × H.World
    unfolding debug_log
    join_groups [] w = (ok [], w)
    join_groups (ok failures ∷ results) w =
        and_then (join_groups results w) (λ later w'. (ok (failures ++ later), w'))
    join_groups (raise e ∷ results) w =
        and_then
          (debug_log "error" "Message group processing failed"
            (with_item "error" (text (c.error_message e)) done) w)
          (λ _ w'. join_groups results w')

    -- The loop of `_handle_fifo_halt_batch`, with its flag.
    unfoldable pub halt_loop : Bool → List Value → H.World → Res Failures × H.World
    unfolding debug_log
    halt_loop halted [] w = (ok [], w)
    halt_loop true (r ∷ rs) w =
        and_then (halt_loop true rs w) (λ later w'. (ok (message_id r ∷ later), w'))
    halt_loop false (r ∷ rs) w =
        let (q, w') = handle_record c log app r context w in
        elim q [
          | ok _ ↦ halt_loop false rs w'
          | raise e ↦
              and_then (debug_log "error" "FIFO batch halted on failure" (error_items r e) w')
                (λ _ w1.
                  and_then (halt_loop true rs w1) (λ later w2. (ok (message_id r ∷ later), w2)))
        ]

    abbrev pub handle_groups : List Value → Dict Key (List Value) → H.World → Res Failures × H.World
    handle_groups records groups w =
        and_then
          (debug_log "info" "FIFO processing"
            (with_item "record_count" (count_item (length records))
              (with_item "group_count" (count_item (length groups)) done))
            w)
          (λ _ w'. let (results, w'') = run_groups groups w' in join_groups results w'')

    -- `_handle_fifo_event`
    unfoldable pub handle_fifo_event : List Value → H.World → Outcome H
    unfolding run_groups join_groups halt_loop debug_log
    handle_fifo_event records w =
        if app.fifo_failure_mode == "halt_batch"
        then outcome_of (halt_loop false records w)
        else elim (group_records records) [
          | raise e ↦ ended (raise e) w
          | ok groups ↦ outcome_of (handle_groups records groups w)
        ]

    -- `queue_info`
    abbrev queue_info : QueueType → List Value → String
    queue_info queue_type records =
        "queue_type=" <> (queue_type_value queue_type <> (", records=" <> decimal (length records)))

    abbrev pub queue_items : QueueType → List Value → Entry
    queue_items queue_type records =
        with_item "queue_info" (text (queue_info queue_type records)) done

    -- The handler that the queue type chooses.
    abbrev pub handle_by_type : QueueType → List Value → Res (Unit {0}) × H.World → Outcome H
    handle_by_type queue_type records (raise e, w) = ended (raise e) w
    handle_by_type fifo records (ok _, w) = report app context (handle_fifo_event records w)
    handle_by_type _ records (ok _, w) = report app context (handle_standard_event records w)

    -- `_handle_event` of a batch that is not empty.
    unfoldable pub handle_records : List Value → H.World → Outcome H
    unfolding handle_standard_event handle_fifo_event resolve_queue_type debug_log
    handle_records records w = elim (resolve_queue_type app records) [
      | raise e ↦ ended (raise e) w
      | ok queue_type ↦
          handle_by_type queue_type records
            (debug_log "info" "Processing event" (queue_items queue_type records) w)
    ]

    abbrev pub handle_list : List Value → H.World → Outcome H
    handle_list [] w = ended (ok []) w
    handle_list (r ∷ rs) w = handle_records (r ∷ rs) w

    abbrev pub handle_batch : Value → H.World → Outcome H
    handle_batch (arr vs) w = handle_list (elements vs) w
    handle_batch _ w = ended (ok []) w

    -- `_handle_event`
    unfoldable pub handle_event : Value → H.World → Outcome H
    unfolding handle_records
    handle_event (arr vs) w = handle_list (elements vs) w
    handle_event (obj d) w = handle_batch (or_value (get "Records" d) (arr nil)) w
    handle_event _ w = ended (raise attribute_error) w
