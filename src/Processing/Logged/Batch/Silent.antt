-- ===== src/Processing/Logged/Batch/Silent.antt =====
-- The log lines of a batch where the logger does nothing.
use fastsqs.Base.{ℕ, zero, suc, String, Bool, true, false, List, [], ◌∷◌, ◌≡◌, refl, ap, ◌∙◌}
use fastsqs.Base.{string_eq, ◌==◌, if◌then◌else◌, fun_ext}
use fastsqs.Base.Dict.{Dict}
use fastsqs.Value.{Value, null, bool, int, float, str, arr, obj, nil, elements, get, or_value}
use fastsqs.Exceptions.{Res, ok, raise}
use fastsqs.Types.{Host, QueueType, auto, standard, fifo}
use fastsqs.App.{App, resolve_queue_type}
use fastsqs.Logging.{Console, Logger}
use fastsqs.Processing.Groups.{Key, group_records}
use fastsqs.Processing.Batch
use fastsqs.Processing.Batch.{Failures, Outcome, ended, blocked, report}
use fastsqs.Processing.Logged.Silent.{silent}
use fastsqs.Processing.Logged.Batch.{
  debug_log, run_all, handle_standard_event, join_groups, handle_fifo_event, handle_records,
  handle_list, handle_batch, handle_event, outcome_of, handle_groups, completed, queue_items,
  handle_by_type,
}
use fastsqs.Processing.Logged.Batch.Loops.{
  ended_ok, gathered, debug_log-silent, collect_failures-silent, run_all-silent, halt_loop-silent,
  groups_silent,
}

if_same :
    {A : Type 0} (b : Bool) {x x' y y' : A}
    → x ≡ x'
    → y ≡ y'
    → (if b then x else y) ≡ (if b then x' else y')
if_same true h k = h
if_same false h k = k

module _ {H : Host} (c : Console H) (debug : Bool) (app : App H) (context : H.LambdaContext) where
  -- The groups, once the batch is grouped.
  grouped_silent :
      (rs : List Value) (q : Res (Dict Key (List Value))) (w : H.World)
      → (elim q [
        | raise e ↦ ended (raise e) w
        | ok groups ↦ outcome_of {H = H} (handle_groups c (silent c) debug app context rs groups w)
      ])
        ≡ (elim q [
          | raise e ↦ ended (raise e) w
          | ok groups ↦ outcome_of {H = H} (ended_ok (Batch.process_groups app context groups w))
        ])
  unfolding join_groups
  grouped_silent rs (raise e) w = refl
  grouped_silent rs (ok groups) w =
      rw (debug_log-silent c debug "info" "FIFO processing" _ w)
        (ap (λ out. outcome_of {H = H} out) (groups_silent c debug app context groups w))

  handle_fifo_event-silent :
      (rs : List Value) (w : H.World)
      → handle_fifo_event c (silent c) debug app context rs w
        ≡ Batch.handle_fifo_event app context rs w
  unfolding handle_fifo_event Batch.handle_fifo_event
  handle_fifo_event-silent rs w =
      if_same (app.fifo_failure_mode == "halt_batch")
        (ap (λ out. outcome_of {H = H} out) (halt_loop-silent c debug app context false rs w))
        (grouped_silent rs (group_records rs) w)

  -- The end of a standard batch, with so many permits.
  abbrev permitted : ℕ → Failures × H.World → Outcome H
  permitted zero out = blocked
  permitted (suc _) (failures, w) = ended (ok failures) w

  permitted-silent :
      (rs : List Value) (out : List (Res Value) × H.World) (n : ℕ)
      → (let (results, w) = out in
          elim n [
            | zero ↦ blocked
            | suc _ ↦ outcome_of (completed c (silent c) debug app context rs results w)
          ])
        ≡ permitted n (gathered rs out)
  permitted-silent rs (results, w) zero = refl
  permitted-silent rs (results, w) (suc n) = rw (collect_failures-silent c debug rs results w) refl

  permitted_all :
      (rs : List Value) (w : H.World) (n : ℕ)
      → permitted n (gathered rs (Batch.run_all app context rs w)) ≡ (
          let (results, w') = Batch.run_all app context rs w in
          elim n [ zero ↦ blocked | suc _ ↦ ended (ok (Batch.collect_failures rs results)) w' ])
  permitted_all rs w zero = refl
  permitted_all rs w (suc n) = refl

  handle_standard_event-silent :
      (rs : List Value) (w : H.World)
      → handle_standard_event c (silent c) debug app context rs w
        ≡ Batch.handle_standard_event app context rs w
  unfolding handle_standard_event Batch.handle_standard_event
  handle_standard_event-silent rs w =
      ap (λ f. f (run_all c (silent c) debug app context rs w))
        (fun_ext (λ out. permitted-silent rs out app.max_concurrent_messages))
      ∙ ap (λ out. permitted app.max_concurrent_messages out)
          (run_all-silent c debug app context rs w)
      ∙ permitted_all rs w app.max_concurrent_messages

  chosen_silent :
      (rs : List Value) (w : H.World) (q : Res QueueType)
      → (elim q [
        | raise e ↦ ended (raise e) w
        | ok queue_type ↦ handle_by_type c (silent c) debug app context queue_type rs (
            debug_log c
              (silent c)
              debug
              "info"
              "Processing event"
              (queue_items c (silent c) debug app context queue_type rs)
              w)
      ])
        ≡ (elim q [
          | raise e ↦ ended (raise e) w
          | ok fifo ↦ report app context (Batch.handle_fifo_event app context rs w)
          | ok _ ↦ report app context (Batch.handle_standard_event app context rs w)
        ])
  chosen_silent rs w (raise e) = refl
  chosen_silent rs w (ok fifo) =
      rw (debug_log-silent c debug "info" "Processing event" _ w)
        (ap (report app context) (handle_fifo_event-silent rs w))
  chosen_silent rs w (ok auto) =
      rw (debug_log-silent c debug "info" "Processing event" _ w)
        (ap (report app context) (handle_standard_event-silent rs w))
  chosen_silent rs w (ok standard) =
      rw (debug_log-silent c debug "info" "Processing event" _ w)
        (ap (report app context) (handle_standard_event-silent rs w))

  handle_records-silent :
      (rs : List Value) (w : H.World)
      → handle_records c (silent c) debug app context rs w ≡ Batch.handle_records app context rs w
  unfolding handle_records Batch.handle_records
  handle_records-silent rs w = chosen_silent rs w (resolve_queue_type app rs)

  handle_list-silent :
      (rs : List Value) (w : H.World)
      → handle_list c (silent c) debug app context rs w ≡ Batch.handle_list app context rs w
  handle_list-silent [] w = refl
  handle_list-silent (r ∷ rs) w = handle_records-silent (r ∷ rs) w

  handle_batch-silent :
      (v : Value) (w : H.World)
      → handle_batch c (silent c) debug app context v w ≡ Batch.handle_batch app context v w
  handle_batch-silent (arr vs) w = handle_list-silent (elements vs) w
  handle_batch-silent null w = refl
  handle_batch-silent (bool _) w = refl
  handle_batch-silent (int _) w = refl
  handle_batch-silent (float _) w = refl
  handle_batch-silent (str _) w = refl
  handle_batch-silent (obj _) w = refl

  handle_silently :
      (event : Value) (w : H.World)
      → handle_event c (silent c) debug app context event w ≡ Batch.handle_event app context event w
  unfolding handle_event Batch.handle_event
  handle_silently (arr vs) w = handle_list-silent (elements vs) w
  handle_silently (obj d) w = handle_batch-silent (or_value (get "Records" d) (arr nil)) w
  handle_silently null w = refl
  handle_silently (bool _) w = refl
  handle_silently (int _) w = refl
  handle_silently (float _) w = refl
  handle_silently (str _) w = refl

-- Where no log line raises or changes the world, an invocation with its log lines, with or without
-- debug, ends as it does without them, whatever the application, the event and the world.
pub handle_event-silent :
    {H : Host} (c : Console H) (log : String → String → Logger H) (debug : Bool) (app : App H)
    (context : H.LambdaContext)
    → ((level message : String) → log level message ≡ silent c level message)
    → (event : Value) (w : H.World)
    → handle_event c log debug app context event w ≡ Batch.handle_event app context event w
handle_event-silent c log debug app context quiet event w =
    ap (λ l. handle_event c l debug app context event w)
      (fun_ext (λ level. fun_ext (λ message. quiet level message)))
    ∙ handle_silently c debug app context event w
