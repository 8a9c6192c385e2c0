-- ===== src/Processing/Batch/Event.antt =====
-- What an invocation answers.
use fastsqs.Base.{◌<◌, true, false, List, [], ◌∷◌}
use fastsqs.Base.{◌≡◌, ◌≢◌, refl, arith, All, ◌==◌, ==_differ, string_eq}
use fastsqs.Base.{Bool-cases, inl, inr}
use fastsqs.Value.{Value}
use fastsqs.Exceptions.{ok, raise}
use fastsqs.Types.{Host, QueueType, auto, standard, fifo}
use fastsqs.App.{App, resolve_queue_type}
use fastsqs.Processing.Groups.Laws.{HasGroup, group_records-total}
use fastsqs.Processing.Batch.{
  Failures, Outcome, ended, blocked, collect_failures, run_all, process_groups, halt_loop, report,
  handle_standard_event, handle_fifo_event, handle_records,
}
use fastsqs.Processing.Batch.Reports.{
  IsIdentifier, collect_failures-IsIdentifier, process_groups-IsIdentifier, halt_loop-IsIdentifier,
}

module _ {H : Host} (app : App H) (context : H.LambdaContext) where
  -- A batch that the code can set about: a standard queue has a permit, and in the mode that
  -- isolates groups every record of a FIFO queue has a message group.
  abbrev pub CanRun : QueueType → List Value → Type 0
  CanRun fifo records = app.fifo_failure_mode ≢ "halt_batch" → All HasGroup records
  CanRun _ records = 0 < app.max_concurrent_messages

  -- The invocation ends with a report of identifiers.
  abbrev pub Reports : Outcome H → Type 0
  Reports outcome =
      (failures : Failures) × (w : H.World) × (outcome ≡ ended (ok failures) w)
      × All IsIdentifier failures

  standard-Reports :
      (records : List Value) (w : H.World)
      → 0 < app.max_concurrent_messages
      → Reports (handle_standard_event app context records w)
  unfolding handle_standard_event
  standard-Reports records w h =
      let (results, w') = run_all app context records w in
      (
        collect_failures records results,
        w',
        ground arith,
        collect_failures-IsIdentifier records results,
      )

  fifo-Reports :
      (records : List Value) (w : H.World)
      → CanRun fifo records
      → Reports (handle_fifo_event app context records w)
  unfolding handle_fifo_event
  fifo-Reports records w h = elim (Bool-cases (app.fifo_failure_mode == "halt_batch")) [
    | inl e ↦ rw e (
        let (failures, w') = halt_loop app context false records w in
        (failures, w', refl, halt_loop-IsIdentifier app context records w))
    | inr e ↦
        let (groups, found) = group_records-total records (h (==_differ _ _ e)) in
        rw (e, found)
          (let (failures, w') = process_groups app context groups w in
            (failures, w', refl, process_groups-IsIdentifier app context groups w))
  ]

  module _ (partial : app.partial_batch_failure ≡ true) where
    report-Reports : (outcome : Outcome H) → Reports outcome → Reports (report app context outcome)
    report-Reports (ended (ok []) w) r = r
    report-Reports (ended (ok (f ∷ fs)) w) r = rw partial r
    report-Reports (ended (raise e) w) r = r
    report-Reports blocked r = r

    -- Where partial batch failure is on: if the queue type of a batch is resolved and the batch can
    -- be set about, then the invocation ends and reports, whatever the handlers, hooks and records
    -- of the batch do; and every identifier that it reports is neither absent nor empty.
    pub handle_records-Reports :
        (records : List Value) (queue_type : QueueType) (w : H.World)
        → resolve_queue_type app records ≡ ok queue_type
        → CanRun queue_type records
        → Reports (handle_records app context records w)
    unfolding handle_records
    handle_records-Reports records fifo w e h =
        rw (e, handle_records)
          (report-Reports (handle_fifo_event app context records w) (fifo-Reports records w h))
    handle_records-Reports records standard w e h =
        rw (e, handle_records) (report-Reports _ (standard-Reports records w h))
    handle_records-Reports records auto w e h =
        rw (e, handle_records) (report-Reports _ (standard-Reports records w h))
