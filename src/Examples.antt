-- ===== src/Examples.antt =====
-- What the applications under examples/ share: handlers that print and answer with a dict. The world
-- is what was printed, line by line.
pub mod Choose
pub mod Comprehensive
pub mod CustomMiddleware
pub mod Nested
pub mod Ordering
pub mod PydanticNested
pub mod Vehicles
use fastsqs.Base.{ℕ, String, true, false, Option, none, some, List, [], ◌∷◌, ◌++◌, string_eq}
use fastsqs.Base.Dict
use fastsqs.Base.Dict.{Dict}
use fastsqs.Value.{Value, str, obj, Fields, end, field, get}
use fastsqs.Value.Print.{show}
use fastsqs.Exceptions.{Res, ok, raise, type_error}
use fastsqs.Types.{Host}
use fastsqs.Run.{M}
use fastsqs.Handlers.{Handler, Arg}
use fastsqs.Events.{EventModel}
use fastsqs.Routing.{Router}
use fastsqs.Routing.Register.{RouteArg, event_class, keys, route, text}

-- pydantic's validation of the fields of a class, by its name, which gives the attributes of the
-- model, and the JSON decoder.
pub record Pydantic : Type 0 where
  pub model_validate : String → Fields → Res Fields
  pub json_loads : String → Option Value

module _ (p : Pydantic) where
  abbrev pub host : Host
  host = record {
    World = List String;
    Msg = Fields;
    LambdaContext = Unit {0};
    sqs_event_validate = p.model_validate "SQSEvent";
    json_loads = p.json_loads;
  }

  -- A class whose bases are these and `SQSEvent`.
  abbrev pub event_model : ℕ → List ℕ → String → EventModel host
  event_model id bases name = record {
    class_id = id;
    mro = id ∷ (bases ++ (0 ∷ []));
    name = name;
    message_type_override = none;
    model_validate = p.model_validate name;
  }

  abbrev pub respond : (Fields → List String) → (Fields → Value) → Option (Arg host) → M host Value
  respond lines answer (some (Arg.msg m)) j =
      (ok (answer m), record j { world = j.world ++ lines m })
  respond lines answer _ j = (raise type_error, j)

  -- `async def handler(msg)`
  abbrev pub printing : (Fields → List String) → (Fields → Value) → Handler host
  printing lines answer = record {
    injected = false;
    signature = some (record { name = "msg"; is_named = true; is_dependant = false } ∷ []);
    body = λ kwargs. respond lines answer (Dict.lookup "msg" kwargs);
  }

  -- `@router.route(model)` on a handler without dependencies.
  abbrev pub with_route : Router host → EventModel host → Handler host → Router host
  with_route router model handler = (route (λ h. h) router (event_class model) none [] handler).0

-- `{msg.name}` in a formatted string.
abbrev pub shown : String → Fields → String
shown name m = show (get name m)

-- A dict with three items.
abbrev pub answer_of : String → Value → String → Value → Value
answer_of k1 v1 k2 v2 = obj (field "status" (str "success") (field k1 v1 (field k2 v2 end)))
