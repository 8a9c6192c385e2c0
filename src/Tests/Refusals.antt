-- ===== src/Tests/Refusals.antt =====
-- Batches whose log lines of level debug raise.
use fastsqs.Base.{String, true, [], ◌∷◌, ◌≡◌, refl, ◌==◌, string_eq, nat_eq}
use fastsqs.Base.{if◌then◌else◌}
use fastsqs.Base.Dict
use fastsqs.Value.{str, arr, items, find, truthy}
use fastsqs.Exceptions.{ok, raise, type_error}
use fastsqs.Types.{fifo}
use fastsqs.App.{resolve_queue_type}
use fastsqs.Logging.{Logger}
use fastsqs.Processing.{message_id}
use fastsqs.Processing.Groups
use fastsqs.Processing.Groups.{group_records, group_from, group_key, hashed, append_to, key_eq}
use fastsqs.Processing.Batch
use fastsqs.Processing.Batch.{ended}
use fastsqs.Processing.Logged.{handle_record, prepare, read_body}
use fastsqs.Processing.Logged.Silent.{silent}
use fastsqs.Processing.Logged.Batch.{
  debug_log, halt_loop, handle_fifo_event, handle_records, handle_event,
}
use fastsqs.Processing.Logged.Batch.Silent.{handle_event-silent}
use fastsqs.Processing.Logged.Batch.Lost.{handle_records_lost}
use fastsqs.Processing.Logged.Batch.Kept.{AllSettled}
use fastsqs.Processing.Logged.Batch.Settled.{handle_logged_records-Settled}
use fastsqs.Tests.Fixture.{toy, idle, m1, app_of}
use fastsqs.Tests.Lines.{console}

-- A logger that does not know the level debug.
abbrev choosy : String → String → Logger toy
choosy level message extra w = if level == "debug" then (raise type_error, w) else (ok tt, w)

handle_event-silent_example :
    handle_event console
      (silent console)
      true
      (app_of fifo true "isolate")
      0
      (arr (items (m1 ∷ [])))
      idle
    ≡ Batch.handle_event (app_of fifo true "isolate") 0 (arr (items (m1 ∷ []))) idle
handle_event-silent_example =
    handle_event-silent console (silent console) true (app_of fifo true "isolate") 0
      (λ level message. refl) (arr (items (m1 ∷ []))) idle

handle_records_lost_example :
    handle_records console choosy true (app_of fifo true "isolate") 0 (m1 ∷ []) idle
    ≡ ended (ok []) idle
unfolding resolve_queue_type group_records group_from group_key hashed append_to Dict.insert
    Dict.lookup find string_eq
handle_records_lost_example =
    handle_records_lost console choosy type_error (λ message extra w. refl)
      (λ message extra w. refl) (λ message extra w. refl) (app_of fifo true "isolate") 0 (m1 ∷ [])
      ((Groups.text "g", m1 ∷ []) ∷ []) idle refl refl refl

-- The line of the raw body raises, and the record is reported.
halted_run :
    handle_records console choosy true (app_of fifo true "halt_batch") 0 (m1 ∷ []) idle
    ≡ ended (ok (str "1" ∷ [])) idle
unfolding handle_records handle_fifo_event halt_loop debug_log resolve_queue_type handle_record
    prepare read_body message_id truthy find string_eq
halted_run = refl

handle_logged_records-Settled_example :
    AllSettled console choosy (app_of fifo true "halt_batch") 0 (m1 ∷ []) (str "1" ∷ []) idle idle
unfolding resolve_queue_type string_eq
handle_logged_records-Settled_example =
    handle_logged_records-Settled console choosy (app_of fifo true "halt_batch") 0 refl true refl
      (m1 ∷ []) fifo idle idle (str "1" ∷ []) refl halted_run
