-- ===== src/Logging.antt =====
-- fastsqs/middleware/logging.py: the middleware that hands log lines to a logger, and `_log` of
-- fastsqs/app.py.
pub mod Lines
use fastsqs.Base.{String, Bool, true, false, Option, none, some, List, [], ◌∷◌, map}
use fastsqs.Base.{if◌then◌else◌}
use fastsqs.Value.{Value, null, obj, arr, str, int, float, bool, Fields, end, field, items, get}
use fastsqs.Value.{get_or}
use fastsqs.Exceptions.{Exn, Res, ok, raise, type_error, attribute_error}
use fastsqs.Types.{Host, Context, FifoInfo, QueueType, auto, standard, fifo}
use fastsqs.Types.Scratch
use fastsqs.Types.Scratch.{TraceContext, Slot, plain, trace}
use fastsqs.Run.{Job, M}
use fastsqs.Middleware.{Middleware}
use fastsqs.Events.Names.{upper}

-- What a log line may hold: the objects of the two dataclasses are no JSON.
mutual
  pub data Item : Type 0 where
    json : Value → Item
    fifo_item : FifoInfo → Item
    trace_item : TraceContext → Item
    dict : Entry → Item

  -- The items of a line, by their names.
  pub data Entry : Type 0 where
    done : Entry
    with_item : String → Item → Entry → Entry

abbrev pub text : String → Item
text s = json (str s)

abbrev pub texts : List String → Item
texts names = json (arr (items (map str names)))

abbrev pub item_of : Slot → Item
item_of (plain v) = json v
item_of (trace t) = trace_item t

abbrev pub with_obj : Option Fields → Option Value
with_obj none = none
with_obj (some d) = some (obj d)

abbrev pub with_field : String → Option Value → Option Fields → Option Fields
with_field k (some v) (some d) = some (field k v d)
with_field k _ _ = none

-- What `json.dumps` makes of a line; `none` where an object is no JSON.
unfoldable mutual
  pub json_value : Item → Option Value
  json_value (json v) = some v
  json_value (fifo_item _) = none
  json_value (trace_item _) = none
  json_value (dict e) = with_obj (json_fields e)

  pub json_fields : Entry → Option Fields
  json_fields done = some end
  json_fields (with_item k i e) = with_field k (json_value i) (json_fields e)

-- What is not the program's own: the clock as the `repr` of `time.time()`, the print of a JSON
-- text, `getattr(context, name, None)` and `repr(context)`, and the texts of exceptions.
pub record Console (H : Host) : Type 0 where
  pub time : H.World → String
  pub print_json : Fields → H.World → H.World
  pub attribute : String → H.LambdaContext → Item
  pub context_repr : H.LambdaContext → String
  pub type_name : Exn → String
  pub error_message : Exn → String
  pub error_repr : Exn → String
  pub traceback : H.World → String
  pub decode_error : String → String

abbrev pub Logger : Host → Type 0
Logger H = Entry → H.World → Res (Unit {0}) × H.World

-- The middleware with its default logger has `none`.
pub record LoggingMiddleware (H : Host) : Type 0 where
  pub logger : Option (Logger H)
  pub level : String
  pub include_payload : Bool
  pub include_record : Bool
  pub include_context : Bool
  pub verbose : Bool

-- `queue_type.value`
abbrev pub queue_type_value : QueueType → String
queue_type_value auto = "auto"
queue_type_value standard = "standard"
queue_type_value fifo = "fifo"

-- `type(v).__name__ if v is not None else None`
abbrev pub result_type : Value → Value
result_type null = null
result_type (obj _) = str "dict"
result_type (arr _) = str "list"
result_type (str _) = str "str"
result_type (int _) = str "int"
result_type (float _) = str "float"
result_type (bool _) = str "bool"

-- An item that a flag of the middleware asks for.
abbrev pub item_if : Bool → String → Item → Entry → Entry
item_if flag k i e = if flag then with_item k i e else e

abbrev pub message_info : Fields → Fields → Fields
message_info d attributes = field "source" (get "eventSource" d) (
    field "source_arn" (get "eventSourceARN" d) (
      field "aws_region" (get "awsRegion" d) (
        field "approximate_receive_count" (get "ApproximateReceiveCount" attributes)
          (field "sent_timestamp" (get "SentTimestamp" attributes) end))))

module _ {H : Host} (c : Console H) where
  -- `_default_logger`
  unfoldable pub default_logger : Logger H
  default_logger entry w = elim (json_fields entry) [
    | none ↦ (raise type_error, w)
    | some line ↦ (ok tt, c.print_json line w)
  ]

  -- `self.logger(entry)`
  unfoldable pub emit : LoggingMiddleware H → Logger H
  unfolding default_logger
  emit mw entry w = elim mw.logger [ none ↦ default_logger entry w | some f ↦ f entry w ]

  -- `log`, where no item of `extra` is named `ts` or `lvl`.
  unfoldable pub log : LoggingMiddleware H → String → String → Logger H
  unfolding emit upper
  log mw level message extra w =
      emit mw
        (with_item "ts" (json (float (c.time w)))
          (with_item "lvl" (text (upper level)) (with_item "message" (text message) extra)))
        w

  abbrev pub processing_info : Job H → Entry
  processing_info j = with_item "route_path" (texts j.ctx.route_path) (
      with_item "message_type" (json (get "type" j.payload)) (
        with_item "queue_type" (text (queue_type_value j.ctx.queue_type)) (
          with_item "context_aws_request_id" (c.attribute "aws_request_id" j.ctx.lambda_context) (
            with_item "context_function_name" (c.attribute "function_name" j.ctx.lambda_context) (
              with_item "context_memory_limit"
                (c.attribute "memory_limit_in_mb" j.ctx.lambda_context) done)))))

  -- The line of `before`, from the record and its attributes.
  unfoldable pub before_entry : LoggingMiddleware H → Fields → Fields → Job H → Entry
  before_entry mw d attributes j = with_item "ts" (json (float (c.time j.world))) (
      with_item "lvl" (text mw.level) (
        with_item "stage" (text "before_processing") (
          with_item "msg_id" (json (get "messageId" d)) (
            with_item "middleware" (text "LoggingMiddleware") (
              with_item "message_info" (json (obj (message_info d attributes))) (
                with_item "processing_info" (dict (processing_info j)) (
                  item_if mw.include_payload "payload" (json (obj j.payload)) (
                    item_if mw.include_record "record" (json (obj d)) (
                      item_if mw.include_context "context_repr"
                        (text (c.context_repr j.ctx.lambda_context))
                        (item_if mw.verbose "state_keys" (texts (Scratch.names j.ctx.state))
                          done))))))))))

  abbrev pub emit_job : LoggingMiddleware H → Entry → M H (Unit {0})
  emit_job mw entry j = let (r, w) = emit mw entry j.world in (r, record j { world = w })

  abbrev pub log_before : LoggingMiddleware H → Fields → Value → M H (Unit {0})
  log_before mw d (obj attributes) j = emit_job mw (before_entry mw d attributes j) j
  log_before mw d _ j = (raise attribute_error, j)

  abbrev pub before_of : LoggingMiddleware H → Value → M H (Unit {0})
  before_of mw (obj d) j = log_before mw d (get_or "attributes" (obj end) d) j
  before_of mw _ j = (raise attribute_error, j)

  -- `before`
  unfoldable pub before : LoggingMiddleware H → M H (Unit {0})
  unfolding emit before_entry
  before mw j = before_of mw j.ctx.sqs_record j

  abbrev pub results : Job H → Entry
  results j =
      with_item "duration_ms" (item_of (Scratch.get "duration_ms" (plain null) j.ctx.state)) (
        with_item "route_path" (texts j.ctx.route_path) (
          with_item "message_type" (json j.ctx.message_type)
            (with_item "handler_result_type" (json (result_type j.ctx.handler_result)) done)))

  abbrev pub error_details : Exn → Job H → Fields
  error_details e j = field "error_type" (str (c.type_name e)) (
      field "error_message" (str (c.error_message e)) (
        field "error_repr" (str (c.error_repr e))
          (field "traceback" (str (c.traceback j.world)) end)))

  abbrev pub with_error : Option Exn → Job H → Entry → Entry
  with_error none j e = e
  with_error (some x) j e = with_item "error_details" (json (obj (error_details x j))) e

  abbrev pub after_level : LoggingMiddleware H → Option Exn → String
  after_level mw none = mw.level
  after_level mw (some e) = "ERROR"

  -- The line of `after`.
  unfoldable pub after_entry : LoggingMiddleware H → Fields → Option Exn → Job H → Entry
  after_entry mw d error j = with_item "ts" (json (float (c.time j.world))) (
      with_item "lvl" (text (after_level mw error)) (
        with_item "stage" (text "after_processing") (
          with_item "msg_id" (json (get "messageId" d)) (
            with_item "middleware" (text "LoggingMiddleware") (
              with_item "processing_results" (dict (results j)) (
                with_error error j (
                  item_if mw.verbose "state_keys" (texts (Scratch.names j.ctx.state)) (
                    item_if mw.include_payload "payload" (json (obj j.payload)) (
                      item_if mw.include_record "record" (json (obj d)) (
                        item_if mw.include_context "context_repr"
                          (text (c.context_repr j.ctx.lambda_context)) done))))))))))

  abbrev pub after_of : LoggingMiddleware H → Option Exn → Value → M H (Unit {0})
  after_of mw error (obj d) j = emit_job mw (after_entry mw d error j) j
  after_of mw error _ j = (raise attribute_error, j)

  -- `after`
  unfoldable pub after : LoggingMiddleware H → Option Exn → M H (Unit {0})
  unfolding emit after_entry
  after mw error j = after_of mw error j.ctx.sqs_record j

  abbrev pub as_middleware : LoggingMiddleware H → Middleware H
  as_middleware mw = record { before = some (before mw); after = some (after mw) }

-- A middleware of the application, where it is to be told whether it is the logging one.
pub data Installed (H : Host) : Type 0 where
  logging : LoggingMiddleware H → Installed H
  another : Middleware H → Installed H

module _ {H : Host} (c : Console H) where
  abbrev pub hooks : Installed H → Middleware H
  hooks (logging mw) = as_middleware c mw
  hooks (another mw) = mw

  -- `_log`: the first logging middleware takes the line.
  unfoldable pub app_log : List (Installed H) → String → String → Logger H
  unfolding log
  app_log [] level message extra w = (ok tt, w)
  app_log (logging mw ∷ _) level message extra w = log c mw level message extra w
  app_log (another _ ∷ rest) level message extra w = app_log rest level message extra w
