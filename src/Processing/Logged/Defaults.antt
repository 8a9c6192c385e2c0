-- ===== src/Processing/Logged/Defaults.antt =====
-- A record under the logging middleware with its default logger.
use fastsqs.Base.{String, none, some, List, [], ◌∷◌, ◌≡◌, refl, ap, ◌∙◌, arith, string_eq}
use fastsqs.Base.{Option}
use fastsqs.Value.{Value, str, obj, Fields, end, get_or}
use fastsqs.Exceptions.{Exn, ok, raise, type_error}
use fastsqs.Types.{Host, fifo}
use fastsqs.App.{App, resolve_queue_type}
use fastsqs.Logging.{
  Console, Logger, LoggingMiddleware, Installed, logging, another, app_log, log, emit,
  default_logger, Entry, json_fields, json_value, json, with_item, done, text,
}
use fastsqs.Processing.{parse_body, fifo_info, message_id}
use fastsqs.Processing.Logged.{
  and_then, load_payload, read_body, read_fifo, prepare, handle_record, handle_logged,
  with_installed, excerpt,
}

-- The logging middleware that `_log` finds.
abbrev pub first_logging : {H : Host} → List (Installed H) → Option (LoggingMiddleware H)
first_logging [] = none
first_logging (logging mw ∷ _) = some mw
first_logging (another _ ∷ rest) = first_logging rest

module _ {H : Host} (c : Console H) where
  app_log-first_logging :
      (installed : List (Installed H)) (mw : LoggingMiddleware H)
      → first_logging installed ≡ some mw
      → app_log c installed ≡ log c mw
  unfolding app_log
  app_log-first_logging [] mw h = absurd (ground arith)
  app_log-first_logging (logging m ∷ _) mw h = ap (λ o. log c (elim o [ none ↦ m | some x ↦ x ])) h
  app_log-first_logging (another _ ∷ rest) mw h = app_log-first_logging rest mw h

  abbrev payload_items : Value → Fields → Entry
  payload_items msg_id payload =
      with_item "msg_id" (json msg_id) (with_item "payload" (json (obj payload)) done)

  load_payload_parsed :
      (l : String → String → Logger H) (msg_id : Value) (body : String) (payload : Fields)
      (w : H.World)
      → parse_body H.json_loads (str body) ≡ ok payload
      → load_payload c l msg_id body w
        ≡ and_then
            (l "debug" "Parsed payload" (payload_items msg_id payload) w)
            (λ _ w'. (ok payload, w'))
  unfolding load_payload parse_body
  load_payload_parsed l msg_id body payload w h = ground arith

  -- The lines, printed in turn.
  abbrev pub print_all : List Fields → H.World → H.World
  print_all [] w = w
  print_all (line ∷ lines) w = print_all lines (c.print_json line w)

  module _ (mw : LoggingMiddleware H) (default : mw.logger ≡ none) where
    log_prints :
        (level message : String) (extra : Entry) (d : Fields) (w : H.World)
        → json_fields extra ≡ some d
        → (line : Fields) × (log c mw level message extra w ≡ (ok tt, c.print_json line w))
    unfolding log emit default_logger json_value
    log_prints level message extra d w h = rw (default, emit, h, json_fields) (_, refl)

    log_refused :
        (level message : String) (extra : Entry) (w : H.World)
        → json_fields extra ≡ none
        → log c mw level message extra w ≡ (raise type_error, w)
    unfolding log emit default_logger json_value
    log_refused level message extra w h = rw (default, emit, h, json_fields) refl

    read_fifo_refused :
        (msg_id : Value) (d attributes : Fields) (w : H.World)
        → get_or "attributes" (obj end) d ≡ obj attributes
        → read_fifo c (log c mw) msg_id fifo d w ≡ (raise type_error, w)
    unfolding read_fifo fifo_info json_value
    read_fifo_refused msg_id d attributes w has =
        rw (has, read_fifo, log_refused "debug" "FIFO info" _ w refl) refl

    -- A record of a FIFO queue whose body is a JSON object fails, whatever its routes: the line about its
    -- FIFO information holds an object that is no JSON.
    prepare_fifo :
        (app : App H) (d payload attributes : Fields) (body : String) (context : H.LambdaContext)
        (w : H.World)
        → get_or "body" (str "") d ≡ str body
        → parse_body H.json_loads (str body) ≡ ok payload
        → resolve_queue_type app (obj d ∷ []) ≡ ok fifo
        → get_or "attributes" (obj end) d ≡ obj attributes
        → (lines : List Fields) × (prepare c (log c mw) app d context w
            ≡ (raise type_error, print_all lines w))
    unfolding prepare read_body json_value
    prepare_fifo app d payload attributes body context w has_body parsed resolved has =
        let msg_id = message_id (obj d) in
        let (l1, e1) =
          log_prints "info" "Starting record processing" (with_item "msg_id" (json msg_id) done) _ w
            refl in
        let (l2, e2) =
          log_prints "debug" "Raw body"
            (with_item "msg_id" (json msg_id) (with_item "body" (text (excerpt body)) done)) _
            (c.print_json l1 w) refl in
        let (l3, e3) =
          log_prints "debug" "Parsed payload" (payload_items msg_id payload) _
            (c.print_json l2 (c.print_json l1 w)) refl in
        (
          l1 ∷ l2 ∷ l3 ∷ [],
          rw
              (
                e1,
                has_body,
                get_or,
                e2,
                load_payload_parsed (log c mw) msg_id body payload _ parsed,
                load_payload,
                e3,
                resolved,
                read_fifo_refused msg_id d attributes _ has,
                read_fifo,
              )
              refl,
        )

  handle_record_unprepared :
      (l : String → String → Logger H) (app : App H) (d : Fields) (context : H.LambdaContext)
      (w w' : H.World) (e : Exn)
      → prepare c l app d context w ≡ (raise e, w')
      → handle_record c l app (obj d) context w ≡ (raise e, w')
  unfolding handle_record
  handle_record_unprepared l app d context w w' e h = rw (h, prepare) refl

  -- `handle_record` under the logging middleware with its default logger: a record of a FIFO queue whose
  -- body is a JSON object and whose attributes are a dict fails with `TypeError`, and nothing has
  -- happened but that lines were printed: no middleware, route or handler has run.
  pub handle_logged_fifo :
      (installed : List (Installed H)) (mw : LoggingMiddleware H) (app : App H)
      (d payload attributes : Fields) (body : String) (context : H.LambdaContext) (w : H.World)
      → first_logging installed ≡ some mw
      → mw.logger ≡ none
      → get_or "body" (str "") d ≡ str body
      → parse_body H.json_loads (str body) ≡ ok payload
      → resolve_queue_type app (obj d ∷ []) ≡ ok fifo
      → get_or "attributes" (obj end) d ≡ obj attributes
      → (lines : List Fields) × (handle_logged c installed app (obj d) context w
          ≡ (raise type_error, print_all lines w))
  unfolding handle_logged
  handle_logged_fifo installed mw app d payload attributes body context w first default has_body
        parsed resolved has =
      let (lines, e) =
        prepare_fifo mw default (with_installed c installed app) d payload attributes body context w
          has_body parsed resolved has in
      (
        lines,
        ap (λ l. handle_record c l (with_installed c installed app) (obj d) context w)
              (app_log-first_logging installed mw first)
            ∙ handle_record_unprepared (log c mw) (with_installed c installed app) d context w _ _
                e,
      )
