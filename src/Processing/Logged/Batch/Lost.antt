-- ===== src/Processing/Logged/Batch/Lost.antt =====
-- The tasks of the groups of a FIFO batch where a log line raises.
use fastsqs.Base.{String, true, false, List, [], ◌∷◌, ◌≡◌, refl, ap, ◌==◌, string_eq}
use fastsqs.Base.Dict.{Dict}
use fastsqs.Value.{Value}
use fastsqs.Exceptions.{Exn, ok, raise}
use fastsqs.Types.{Host, fifo}
use fastsqs.App.{App, resolve_queue_type}
use fastsqs.Logging.{Console, Entry, Logger}
use fastsqs.Processing.Groups.{Key, group_records}
use fastsqs.Processing.Batch.{ended, report}
use fastsqs.Processing.Logged.Batch.{
  debug_log, process_group, run_groups, join_groups, handle_fifo_event, handle_records, outcome_of,
}

module _ {H : Host} (c : Console H) (log : String → String → Logger H) (e : Exn)
    (refuses : (message : String) (extra : Entry) (w : H.World)
      → log "debug" message extra w ≡ (raise e, w))
    (informs : (message : String) (extra : Entry) (w : H.World)
      → log "info" message extra w ≡ (ok tt, w))
    (warns : (message : String) (extra : Entry) (w : H.World)
      → log "error" message extra w ≡ (ok tt, w))
    (app : App H) (context : H.LambdaContext) where
  process_group_refused :
      (k : Key) (rs : List Value) (w : H.World)
      → process_group c log true app context k rs w ≡ (raise e, w)
  unfolding process_group debug_log
  process_group_refused k rs w = rw (refuses "Processing group" _ w) refl

  groups_lost :
      (groups : Dict Key (List Value)) (w : H.World)
      → (let (results, w') = run_groups c log true app context groups w in
          join_groups c log true app context results w')
        ≡ (ok [], w)
  unfolding run_groups join_groups debug_log
  groups_lost [] w = refl
  groups_lost ((k, rs) ∷ groups) w =
      rw (process_group_refused k rs w, run_groups, join_groups)
        (rw (warns "Message group processing failed" _) (groups_lost groups w))

  handle_fifo_event_lost :
      (rs : List Value) (groups : Dict Key (List Value)) (w : H.World)
      → (app.fifo_failure_mode == "halt_batch") ≡ false
      → group_records rs ≡ ok groups
      → handle_fifo_event c log true app context rs w ≡ ended (ok []) w
  unfolding handle_fifo_event debug_log
  handle_fifo_event_lost rs groups w mode grouped =
      rw (mode, handle_fifo_event, grouped)
        (rw (informs "FIFO processing" _ w)
          (ap (λ out. outcome_of {H = H} out) (groups_lost groups w)))

  -- Where debug is on and the logger raises on the lines of level debug, and on those of level info
  -- and error neither raises nor changes the world, a batch of a FIFO queue that can be grouped, in
  -- the mode that isolates groups, ends with a report of no failure, with partial batch failure on
  -- and off, and no record of it was handled.
  pub handle_records_lost :
      (rs : List Value) (groups : Dict Key (List Value)) (w : H.World)
      → resolve_queue_type app rs ≡ ok fifo
      → (app.fifo_failure_mode == "halt_batch") ≡ false
      → group_records rs ≡ ok groups
      → handle_records c log true app context rs w ≡ ended (ok []) w
  unfolding handle_records debug_log
  handle_records_lost rs groups w is_fifo mode grouped =
      rw (is_fifo, handle_records)
        (rw (informs "Processing event" _ w)
          (ap (report app context) (handle_fifo_event_lost rs groups w mode grouped)))
