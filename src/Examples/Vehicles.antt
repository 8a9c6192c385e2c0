-- ===== src/Examples/Vehicles.antt =====
-- examples/vehicle_inheritance_example/lambda_function.py
pub mod Routes
use fastsqs.Base.{ℕ, suc, String, ◌<>◌, Bool, true, false, Option, none, some, List, [], ◌∷◌, ◌≡◌}
use fastsqs.Base.{arith, ◌++◌, ◌∙◌, refl, ap, get_elem?, All, All-get_elem?, string_eq, nat_eq}
use fastsqs.Base.{if◌then◌else◌}
use fastsqs.Base.Dict
use fastsqs.Value.{Value, str, bool, obj, Fields, end, field, get, truthy}
use fastsqs.Value.Path.{resolve_payload_path}
use fastsqs.Exceptions.{Res, ok, raise, type_error, value_error}
use fastsqs.Types.{auto}
use fastsqs.Run.{Job, M}
use fastsqs.Middleware.{Middleware}
use fastsqs.Handlers.{Handler, Arg, maybe_inject, uses_depends}
use fastsqs.Events.{EventModel, get_message_type, is_subclass}
use fastsqs.Events.Names.{separated, lower}
use fastsqs.Routing.{Router, new_router, find_route_of_value, find_pydantic_route}
use fastsqs.Routing.Register
use fastsqs.Routing.Register.{event_class, add_pydantic, fits_base}
use fastsqs.App.{App}
use fastsqs.Processing.{route}
use fastsqs.Processing.Served.{answer, route-select_first}
use fastsqs.Routing.Dispatch.Select.{Choice, chosen, select, select_found, select_value}
use fastsqs.Examples.{Pydantic, host, event_model, with_route, shown, printing}
use fastsqs.Examples.Choose.{choose, choose_first, select_first-choose_first, AllSameKey}

-- Python's arithmetic on the numbers of a message: `f"{x*100:.1f}"`, `x * 100`, `x / y * 100` and
-- `x > y`.
pub record Arithmetic : Type 0 where
  pub percent : Value → String
  pub times_hundred : Value → Value
  pub ratio : Value → Value → Res Value
  pub is_greater : Value → Value → Bool

module _ (p : Pydantic) (a : Arithmetic) where
  -- A handler whose answer is computed after its lines are printed.
  abbrev pub respond_or_fail :
      (Fields → List String) → (Fields → Res Value) → Option (Arg (host p)) → M (host p) Value
  respond_or_fail lines result (some (Arg.msg m)) j =
      (result m, record j { world = j.world ++ lines m })
  respond_or_fail lines result _ j = (raise type_error, j)

  abbrev pub computing : (Fields → List String) → (Fields → Res Value) → Handler (host p)
  computing lines result = record {
    injected = false;
    signature = some (record { name = "msg"; is_named = true; is_dependant = false } ∷ []);
    body = λ kwargs. respond_or_fail lines result (Dict.lookup "msg" kwargs);
  }

  abbrev pub sighted : String → Fields → String
  sighted label m = label <> (shown "vehicle_id" m <> (" at " <> shown "location" m))

  abbrev pub describe : String → Fields → Fields → Value
  describe kind m rest = obj (
      field "status" (str "success")
        (field "vehicle_type" (str kind) (field "vehicle_id" (get "vehicle_id" m) rest)))

  abbrev pub handle_car_event : Handler (host p)
  handle_car_event =
      printing p
        (λ m.
          sighted "[CAR] Vehicle " m
          ∷ ("      Fuel: "
              <> (a.percent (get "fuel_level" m)
                  <> ("%, Mileage: "
                      <> (shown "mileage" m <> ("km, Engine: " <> shown "engine_type" m)))))
          ∷ [])
        (λ m. describe "car" m (
          field "fuel_percentage" (a.times_hundred (get "fuel_level" m))
            (field "engine_type" (get "engine_type" m) end)))

  abbrev pub bus_result : Fields → Res Value → Res Value
  bus_result m (ok rate) =
      ok (describe "bus" m (field "occupancy_rate" rate (field "route" (get "route_number" m) end)))
  bus_result m (raise e) = raise e

  abbrev pub handle_bus_event : Handler (host p)
  handle_bus_event =
      computing
        (λ m.
          sighted "[BUS] Vehicle " m
          ∷ ("      Route: "
              <> (shown "route_number" m
                  <> (", Passengers: "
                      <> (shown "passenger_count" m <> ("/" <> shown "capacity" m)))))
          ∷ ("      Accessibility: "
              <> (if truthy (get "accessibility_enabled" m) then "Enabled" else "Disabled"))
          ∷ [])
        (λ m. bus_result m (a.ratio (get "passenger_count" m) (get "capacity" m)))

  abbrev pub truck_result : Fields → Res Value → Res Value
  truck_result m (ok utilization) = ok (
      describe "truck" m (
        field "cargo_weight" (get "cargo_weight" m) (
          field "cargo_type" (get "cargo_type" m) (
            field "is_overweight" (bool (a.is_greater (get "cargo_weight" m) (get "max_weight" m)))
              (field "weight_utilization" utilization end)))))
  truck_result m (raise e) = raise e

  abbrev pub handle_truck_event : Handler (host p)
  handle_truck_event =
      computing
        (λ m.
          sighted "[TRUCK] Vehicle " m
          ∷ ("        Cargo: "
              <> (shown "cargo_weight" m
                  <> ("t of "
                      <> (shown "cargo_type" m <> (" (max: " <> (shown "max_weight" m <> "t)"))))))
          ∷ ("        Trailer: "
              <> (if truthy (get "trailer_attached" m) then "Attached" else "Detached"))
          ∷ [])
        (λ m. truck_result m (a.ratio (get "cargo_weight" m) (get "max_weight" m)))

  abbrev pub handle_motorcycle_event : Handler (host p)
  handle_motorcycle_event =
      printing p
        (λ m.
          sighted "[MOTORCYCLE] Vehicle " m
          ∷ ("             Engine: "
              <> (shown "engine_cc" m <> ("cc, License: " <> shown "license_type" m)))
          ∷ ("             Helmet: "
              <> (if truthy (get "helmet_detected" m)
                  then "Detected"
                  else "NOT DETECTED - SAFETY ALERT!"))
          ∷ [])
        (λ m. describe "motorcycle" m (
          field "engine_cc" (get "engine_cc" m) (
            field "license_type" (get "license_type" m)
              (field "safety_compliant" (get "helmet_detected" m) end))))

  abbrev pub handle_general_vehicle_event : Handler (host p)
  handle_general_vehicle_event =
      printing p (λ m. sighted "[VEHICLE] General vehicle " m ∷ [])
        (λ m. describe "generic" m (field "location" (get "location" m) end))

  -- The class `Vehicle`, and a class that derives from it.
  abbrev pub vehicle_class : ℕ
  vehicle_class = 1

  abbrev pub kind : ℕ → String → EventModel (host p)
  kind id name = event_model p id (vehicle_class ∷ []) name

  abbrev pub vehicle : EventModel (host p)
  vehicle = event_model p vehicle_class [] "Vehicle"

  abbrev pub table : List (EventModel (host p) × Handler (host p))
  table =
      (kind 2 "Car", handle_car_event)
      ∷ (kind 3 "Bus", handle_bus_event)
      ∷ (kind 4 "Truck", handle_truck_event)
      ∷ (kind 5 "Motorcycle", handle_motorcycle_event)
      ∷ (vehicle, handle_general_vehicle_event)
      ∷ []

  -- The decorators, one after the other.
  abbrev pub with_routes :
      Router (host p) → List (EventModel (host p) × Handler (host p)) → Router (host p)
  with_routes router [] = router
  with_routes router ((model, handler) ∷ rows) =
      with_routes (with_route p router model handler) rows

  abbrev pub vehicle_router : Router (host p)
  vehicle_router = with_routes (new_router (some vehicle_class) "type" true false) table

  abbrev pub app : List (Middleware (host p)) → ℕ → App (host p)
  app middlewares depth = record {
    queue_type = auto;
    discriminator = "type";
    max_concurrent_messages = 10;
    partial_batch_failure = true;
    fifo_failure_mode = "isolate_groups";
    heap = new_router none "type" true false ∷ vehicle_router ∷ [];
    routers = 1 ∷ [];
    middlewares = middlewares;
    depth = suc depth;
  }
