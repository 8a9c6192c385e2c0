-- ===== src/Processing/Batch/Switch.antt =====
-- The switch `partial_batch_failure`.
use fastsqs.Base.{inl, inr, Bool, true, false, List, [], ◌∷◌, ◌≡◌, refl, string_eq}
use fastsqs.Value.{Value}
use fastsqs.Exceptions.{ok, raise, batch_failed, Res-cases}
use fastsqs.Types.{Host, QueueType, auto, standard, fifo}
use fastsqs.App.{App, resolve_queue_type}
use fastsqs.Processing.{handle_record, route, try_routers, prepare}
use fastsqs.Processing.Batch.{
  Outcome, ended, blocked, report, run_all, process_group, process_groups, halt_loop,
  handle_standard_event, handle_fifo_event, handle_records,
}

module _ {H : Host} (app : App H) (context : H.LambdaContext) where
  abbrev pub switched : Bool → App H
  switched partial = record app { partial_batch_failure = partial }

  -- What a report becomes where partial batch failure is off.
  abbrev pub whole : Outcome H → Outcome H
  whole (ended (ok (f ∷ fs)) w) = ended (raise (batch_failed (f ∷ fs))) w
  whole outcome = outcome

  standard_same :
      (b : Bool) (records : List Value) (w : H.World)
      → handle_standard_event (switched b) context records w
        ≡ handle_standard_event app context records w
  unfolding handle_standard_event run_all handle_record prepare route try_routers resolve_queue_type
  standard_same b records w = refl

  fifo_same :
      (b : Bool) (records : List Value) (w : H.World)
      → handle_fifo_event (switched b) context records w ≡ handle_fifo_event app context records w
  unfolding handle_fifo_event process_groups process_group halt_loop handle_record prepare route
      try_routers resolve_queue_type
  fifo_same b records w = refl

  resolve_same :
      (b : Bool) (records : List Value)
      → resolve_queue_type (switched b) records ≡ resolve_queue_type app records
  unfolding resolve_queue_type
  resolve_same b records = refl

  report-whole :
      (outcome : Outcome H)
      → report (switched false) context outcome ≡ whole (report (switched true) context outcome)
  report-whole (ended (ok []) w) = refl
  report-whole (ended (ok (f ∷ fs)) w) = refl
  report-whole (ended (raise e) w) = refl
  report-whole blocked = refl

  of_type :
      (t : QueueType) (records : List Value) (w : H.World)
      → resolve_queue_type app records ≡ ok t
      → handle_records (switched false) context records w
        ≡ whole (handle_records (switched true) context records w)
  unfolding handle_records
  of_type fifo records w e =
      rw
        (
          resolve_same false records,
          resolve_same true records,
          e,
          handle_records,
          fifo_same false records w,
          fifo_same true records w,
        )
        (report-whole (handle_fifo_event app context records w))
  of_type standard records w e =
      rw
        (
          resolve_same false records,
          resolve_same true records,
          e,
          handle_records,
          standard_same false records w,
          standard_same true records w,
        )
        (report-whole (handle_standard_event app context records w))
  of_type auto records w e =
      rw
        (
          resolve_same false records,
          resolve_same true records,
          e,
          handle_records,
          standard_same false records w,
          standard_same true records w,
        )
        (report-whole (handle_standard_event app context records w))

  -- For every batch: with the switch off, an invocation handles the same records, in the same way and
  -- with the same effects, as with the switch on. Where that reports failures, this raises
  -- `BatchFailedError` with exactly those identifiers; otherwise the two end alike.
  pub handle_records_switch :
      (records : List Value) (w : H.World)
      → handle_records (switched false) context records w
        ≡ whole (handle_records (switched true) context records w)
  unfolding handle_records
  handle_records_switch records w = elim (Res-cases (resolve_queue_type app records)) [
    | inl (t, known) ↦ of_type t records w known
    | inr (e, raised) ↦
        rw (resolve_same false records, resolve_same true records, raised, handle_records)
  ]
