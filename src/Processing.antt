-- ===== src/Processing.antt =====
-- fastsqs/processing.py: one record.
pub mod Default
pub mod Groups
pub mod Batch
pub mod Shape
pub mod Served
pub mod Duplicate
pub mod Logged
use fastsqs.Base.{ℕ, String, Bool, true, false, Option, none, some, List, [], ◌∷◌}
use fastsqs.Base.{◌==◌, string_eq, if◌then◌else◌}
use fastsqs.Value.{Value, null, bool, int, float, str, arr, obj, Fields, end, get, get_or, or_value}
use fastsqs.Exceptions.{
  Exn, Res, ok, raise, invalid_message, type_error, attribute_error, route_not_found, skip_message,
}
use fastsqs.Types.{Host, Context, FifoInfo, QueueType, auto, standard, fifo}
use fastsqs.Types.Scratch.{empty}
use fastsqs.Run.{Job, M, pure, throw, ◌>>=◌}
use fastsqs.Middleware.{run_middleware_stack}
use fastsqs.Routing.Dispatch.{dispatch}
use fastsqs.App.{App, main_router, resolve_queue_type}

-- `_message_id`
unfoldable pub message_id : Value → Value
message_id (obj d) = or_value (get "messageId" d) (or_value (get "message_id" d) (str "UNKNOWN"))
message_id _ = str "UNKNOWN"

-- The payload that a body holds, with the JSON decoder. Only a text has the slice that is logged
-- of it as a text.
unfoldable pub parse_body : (String → Option Value) → Value → Res Fields
parse_body json_loads (str body) = if body == "" then ok end else elim (json_loads body) [
  | none ↦ raise invalid_message
  | some (obj payload) ↦ ok payload
  | some _ ↦ raise invalid_message
]
parse_body json_loads _ = raise type_error

-- `ctx.fifo_info`, from the value of `attributes`.
unfoldable pub fifo_info : Value → Res FifoInfo
fifo_info (obj attributes) = ok (record {
  message_group_id = get "MessageGroupId" attributes;
  message_deduplication_id = get "MessageDeduplicationId" attributes;
})
fifo_info _ = raise attribute_error

-- The `FifoInfo` of a record of a queue of this type.
abbrev pub fifo_info_of : QueueType → Fields → Res (Option FifoInfo)
fifo_info_of fifo d = elim (fifo_info (get_or "attributes" (obj end) d)) [
  | raise e ↦ raise e
  | ok info ↦ ok (some info)
]
fifo_info_of _ d = ok none

module _ {H : Host} where
  -- The included routers, one after the other.
  unfoldable pub try_routers : App H → List ℕ → M H Value
  try_routers app [] = throw route_not_found
  try_routers app (id ∷ ids) = do
    handled ← dispatch app.depth app.heap id []
    elim handled [ true ↦ (λ j. (ok j.ctx.handler_result, j)) | false ↦ try_routers app ids ]

  -- `_route`: the main router comes first.
  unfoldable pub route : App H → M H Value
  unfolding try_routers
  route app = try_routers app (main_router ∷ app.routers)

  abbrev pub new_context : Value → Value → H.LambdaContext → QueueType → Option FifoInfo → Context H
  new_context message_id sqs_record context queue_type fifo_info = record {
    message_id = message_id;
    sqs_record = sqs_record;
    lambda_context = context;
    queue_type = queue_type;
    route_path = [];
    message_type = null;
    fifo_info = fifo_info;
    handler_result = null;
    state = empty;
  }

  -- The job of a record, before the middlewares run.
  unfoldable pub prepare : App H → Fields → H.LambdaContext → H.World → Res (Job H)
  unfolding parse_body fifo_info resolve_queue_type message_id
  prepare app d context world = elim (parse_body H.json_loads (get_or "body" (str "") d)) [
    | raise e ↦ raise e
    | ok payload ↦ elim (resolve_queue_type app (obj d ∷ [])) [
      | raise e ↦ raise e
      | ok queue_type ↦ elim (fifo_info_of queue_type d) [
        | raise e ↦ raise e
        | ok info ↦ ok (record {
          payload = payload;
          ctx = new_context (message_id (obj d)) (obj d) context queue_type info;
          world = world;
        })
      ]
    ]
  ]

  -- `SkipMessage` is a success.
  abbrev pub settle : Res Value × Job H → Res Value × H.World
  settle (raise skip_message, j) = (ok null, j.world)
  settle (r, j) = (r, j.world)

  -- `_handle_record`
  unfoldable pub handle_record : App H → Value → H.LambdaContext → H.World → Res Value × H.World
  unfolding prepare route
  handle_record app (obj d) context world = elim (prepare app d context world) [
    | raise e ↦ (raise e, world)
    | ok j ↦ settle (run_middleware_stack app.middlewares (route app) j)
  ]
  handle_record app _ context world = (raise invalid_message, world)
