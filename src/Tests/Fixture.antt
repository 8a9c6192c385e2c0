-- ===== src/Tests/Fixture.antt =====
-- A host whose world is the store in memory, with a few handlers, routers and records.
use fastsqs.Base.{ℕ, String, Bool, true, false, Option, none, some, List, [], ◌∷◌, ◌==◌, string_eq}
use fastsqs.Base.{if◌then◌else◌}
use fastsqs.Value.{Value, null, str, obj, Fields, end, field, arr, nil}
use fastsqs.Exceptions.{ok, raise, other}
use fastsqs.Types.{Host, standard, QueueType}
use fastsqs.Types.Scratch.{empty}
use fastsqs.Run.{Job}
use fastsqs.Handlers.{Handler}
use fastsqs.Events.{EventModel}
use fastsqs.Routing.{Router, RouteEntry}
use fastsqs.App.{App}
use fastsqs.Idempotency.Memory.{Memory, Place}

-- Three bodies that decode: an order, a ping and a list.
abbrev pub order : Fields
order = field "type" (str "order_created") (field "id" (str "7") end)

abbrev pub ping : Fields
ping = field "type" (str "ping") end

abbrev loads : String → Option Value
loads s =
    if s == "order"
    then some (obj order)
    else if s == "ping"
    then some (obj ping)
    else if s == "list"
    then some (arr nil)
    else none

abbrev pub toy : Host
toy = record {
  World = Memory;
  Msg = ℕ;
  LambdaContext = ℕ;
  sqs_event_validate = λ payload. ok 0;
  json_loads = loads;
}

abbrev pub place : Place toy
place = record { read = λ w. w; write = λ m w. m }

abbrev pub idle : Memory
idle = record { now = 100; entries = [] }

abbrev pub succeeding : Handler toy
succeeding = record {
  injected = false;
  signature = some (record { name = "msg"; is_named = true; is_dependant = false } ∷ []);
  body = λ kwargs j. (ok (str "done"), j);
}

abbrev pub failing : Handler toy
failing = record { injected = true; signature = none; body = λ kwargs j. (raise (other 1), j) }

abbrev pub order_created : EventModel toy
order_created = record {
  class_id = 3;
  mro = 3 ∷ 0 ∷ [];
  name = "OrderCreated";
  message_type_override = none;
  model_validate = λ payload. ok 7;
}

abbrev pub entry : Handler toy → RouteEntry toy
entry h = record { handler = some h; model = none; middlewares = []; subrouter = none }

-- Orders have a pydantic route, and pings a handler that fails.
abbrev pub main : Option (Handler toy) → Router toy
main fallback = record {
  base_event_class = none;
  discriminator = "type";
  inherit_middlewares = true;
  flexible_matching = false;
  routes = ("ping", entry failing) ∷ [];
  middlewares = [];
  default_handler = fallback;
  pydantic_routes =
      (
        "order_created",
        record { event_model = order_created; handler = succeeding; middlewares = [] },
      )
      ∷ [];
  route_lookup = [];
}

-- Pings go to a subrouter.
abbrev pub outer : Router toy
outer = record {
  base_event_class = none;
  discriminator = "type";
  inherit_middlewares = true;
  flexible_matching = false;
  routes =
      ("ping", record { handler = none; model = none; middlewares = []; subrouter = some 1 }) ∷ [];
  middlewares = [];
  default_handler = none;
  pydantic_routes = [];
  route_lookup = [];
}

abbrev pub app_of : QueueType → Bool → String → App toy
app_of queue_type partial mode = record {
  queue_type = queue_type;
  discriminator = "type";
  max_concurrent_messages = 10;
  partial_batch_failure = partial;
  fifo_failure_mode = mode;
  heap = main none ∷ [];
  routers = [];
  middlewares = [];
  depth = 3;
}

abbrev pub group : String → Value
group g = obj (field "MessageGroupId" (str g) end)

abbrev pub message : String → String → String → Value
message id body g =
    obj (field "messageId" (str id) (field "body" (str body) (field "attributes" (group g) end)))

-- An order that succeeds, a ping that fails and a body that does not decode.
abbrev pub m1 : Value
m1 = message "1" "order" "g"

abbrev pub m2 : Value
m2 = message "2" "ping" "g"

abbrev pub m3 : Value
m3 = message "3" "oops" "h"

abbrev pub batch : List Value
batch = m1 ∷ m2 ∷ m1 ∷ m3 ∷ []

abbrev pub job_of : Fields → Memory → Job toy
job_of payload world = record {
  payload = payload;
  ctx = record {
    message_id = str "1";
    sqs_record = m1;
    lambda_context = 0;
    queue_type = standard;
    route_path = [];
    message_type = null;
    fifo_info = none;
    handler_result = null;
    state = empty;
  };
  world = world;
}
