-- ===== src/Tests/Applications.antt =====
-- The applications of examples/, where validation accepts every payload.
use fastsqs.Base.{String, none, some, List, [], ◌∷◌, ◌≡◌, refl, ap, string_eq, nat_eq}
use fastsqs.Base.{==_differ}
use fastsqs.Base.Dict
use fastsqs.Value.{Value, null, str, arr, obj, nil, cons, Fields, end, field, find, truthy}
use fastsqs.Value.Path.{resolve_payload_path}
use fastsqs.Exceptions.{Res, ok, raise, route_not_found, attribute_error}
use fastsqs.Types.{standard}
use fastsqs.Types.Scratch.{empty}
use fastsqs.Run.{Job, M}
use fastsqs.Middleware.{run_middleware_stack, enter, unwind}
use fastsqs.Handlers.{invoke_handler, select_kwargs}
use fastsqs.Routing.Dispatch.{invoke}
use fastsqs.Events.{get_message_type}
use fastsqs.Events.Names.{separated, lower}
use fastsqs.Processing.{route, prepare, parse_body, message_id, new_context}
use fastsqs.Processing.Served.{answer}
use fastsqs.Processing.Batch.{handle_event, handle_records}
use mathlib.Core.List.{reverse}
use fastsqs.App.{App, resolve_queue_type, ends_with}
use fastsqs.Routing.Dispatch.Select.{chosen}
use fastsqs.Examples.{Pydantic, host}
use fastsqs.Examples.PydanticNested
use fastsqs.Examples.PydanticNested.Routes.{served_by, route_by_class}
use fastsqs.Examples.Nested
use fastsqs.Examples.Nested.Routes.{route_nested, route_unknown_entity}
use fastsqs.Examples.CustomMiddleware.{Numbers, middlewares}
use fastsqs.Examples.CustomMiddleware.Counters.{StartsOver, counters_start_over}
use fastsqs.Examples.Comprehensive
use fastsqs.Examples.Comprehensive.{lambda_handler, lambda_handler_unreported}

abbrev accepting : Pydantic
accepting = record { model_validate = λ name d. ok d; json_loads = λ s. some (obj end) }

abbrev job : Fields → Job (host accepting)
job payload = record {
  payload = payload;
  ctx = record {
    message_id = str "1";
    sqs_record = obj end;
    lambda_context = tt;
    queue_type = standard;
    route_path = [];
    message_type = null;
    fifo_info = none;
    handler_result = null;
    state = empty;
  };
  world = [];
}

abbrev update_order : Job (host accepting)
update_order = job (field "type" (str "update_order") (field "order_id" (str "ORD-001") end))

-- The application of examples/pydantic_nested_example.
served_update :
    route (PydanticNested.app accepting [] 9) update_order
    ≡ answer
        (chosen (
          served_by accepting
            (PydanticNested.update_order accepting, PydanticNested.handle_update_order accepting)))
        update_order
unfolding resolve_payload_path find string_eq get_message_type separated lower
served_update = route_by_class accepting 9 5 _ [] update_order refl refl

-- The application of examples/nested_example: an order is created over a subrouter.
abbrev created : Job (host accepting)
created = job (field "action" (str "create") (field "entity" (str "order") end))

nested_order :
    (route (Nested.app accepting [] 9) created).1.ctx.route_path
    ≡ "action=create" ∷ "entity=order" ∷ []
unfolding resolve_payload_path find string_eq answer run_middleware_stack enter invoke
    invoke_handler Dict.lookup select_kwargs unwind
nested_order =
    ap (λ (q : Res Value × Job (host accepting)). q.1.ctx.route_path)
      (route_nested accepting [] 9 1 _ created refl refl (refl, (refl, tt)))

abbrev stray : Job (host accepting)
stray = job (field "action" (str "create") (field "entity" (str "invoice") end))

unknown_entity : route (Nested.app accepting [] 9) stray ≡ (raise route_not_found, stray)
unfolding resolve_payload_path find string_eq
unknown_entity =
    route_unknown_entity accepting [] 9 "invoice" stray refl refl refl
      (==_differ "invoice" "user" refl) (==_differ "invoice" "order" refl)

-- The only record is no dict: the invocation fails, and the function returns all the same.
lambda_handler_unreported_example :
    (response : Fields) × ((w : List String) × ((lambda_handler accepting
            (λ v. "")
            (λ e. "")
            []
            9
            (arr (cons null nil))
            []
          ≡ some (response, w))
        × (find "batchItemFailures" response ≡ none)))
unfolding handle_event handle_records resolve_queue_type
lambda_handler_unreported_example =
    lambda_handler_unreported accepting (λ v. "") (λ e. "") [] 9 (arr (cons null nil)) [] []
      (raise attribute_error) refl

abbrev numbers : Numbers
numbers = record {
  time = λ w. "0.0";
  float_plus_one = λ x. x;
  since = λ x v. ok "0.0";
  seconds = λ x. "0.000";
  success_rate = λ v w. ok "0.0";
  average = λ v. ok "0.000";
  show_error = λ e. "None";
  show_typed = λ e. "Error";
}

-- A record of the custom middlewares' application, behind another one.
abbrev ping_payload : Fields
ping_payload = field "action" (str "ping") end

-- Every body decodes to it.
abbrev pinging : Pydantic
pinging = record { model_validate = λ name d. ok d; json_loads = λ s. some (obj ping_payload) }

abbrev ping_record : Fields
ping_record = field "messageId" (str "1") (field "body" (str "ping") end)

abbrev prepared : Job (host pinging)
prepared = record {
  payload = ping_payload;
  ctx = new_context (str "1") (obj ping_record) tt standard none;
  world = "an earlier line" ∷ [];
}

abbrev custom_app : App (host pinging)
custom_app = Comprehensive.app pinging (middlewares pinging numbers) 9

abbrev answers : M (host pinging) Value
answers j = (ok (str "pong"), j)

counters_start_over_example :
    (j : Job (host pinging)) × (enter custom_app.middlewares [] answers prepared
      ≡ (reverse custom_app.middlewares, answers j))
    × StartsOver pinging numbers j
unfolding prepare parse_body resolve_queue_type ends_with message_id find string_eq truthy
counters_start_over_example =
    counters_start_over pinging numbers custom_app answers ping_record ("an earlier line" ∷ [])
      prepared refl refl refl
