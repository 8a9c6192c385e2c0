-- ===== src/Examples/Vehicles/Routes.antt =====
-- Which handler serves which vehicle of examples/vehicle_inheritance_example.
use fastsqs.Base.{ℕ, false, Option, none, some, List, [], ◌∷◌, ◌≡◌}
use fastsqs.Base.{arith, ◌∙◌, refl, ap, get_elem?, All, All-get_elem?, string_eq, nat_eq}
use fastsqs.Base.Dict
use fastsqs.Value.{str, Fields, truthy}
use fastsqs.Value.Path.{resolve_payload_path}
use fastsqs.Exceptions.{raise, value_error}
use fastsqs.Run.{Job}
use fastsqs.Middleware.{Middleware}
use fastsqs.Handlers.{Handler, maybe_inject, uses_depends}
use fastsqs.Events.{EventModel, get_message_type, is_subclass}
use fastsqs.Events.Names.{separated, lower}
use fastsqs.Routing.{Router, find_route_of_value, find_pydantic_route}
use fastsqs.Routing.Register
use fastsqs.Routing.Register.{event_class, add_pydantic, fits_base}
use fastsqs.Processing.{route}
use fastsqs.Processing.Served.{answer, route-select_first}
use fastsqs.Routing.Dispatch.Select.{Choice, chosen, select, select_found, select_value}
use fastsqs.Examples.{Pydantic, host}
use fastsqs.Examples.Choose.{choose, choose_first, select_first-choose_first, AllSameKey}
use fastsqs.Examples.Vehicles.{table, app, Arithmetic}

module _ (p : Pydantic) (a : Arithmetic) where
  abbrev pub served_by : EventModel (host p) × Handler (host p) → Choice (host p)
  served_by (model, handler) = record {
    path = [];
    message_type = some (str (get_message_type model));
    middlewares = [];
    handler = handler;
    model = some model;
  }

  abbrev Chooses : ℕ → EventModel (host p) × Handler (host p) → Type 0
  Chooses depth row =
      (payload : Fields)
      → choose_first (λ sub mws. select depth (app p a [] depth).heap sub mws payload)
          (app p a [] depth).heap (0 ∷ 1 ∷ []) (str (get_message_type row.0))
        ≡ chosen (served_by row)

  same_keys : (depth : ℕ) → AllSameKey "type" (app p a [] depth).heap (0 ∷ 1 ∷ [])
  unfolding choose_first choose Register.route select_found select_value find_route_of_value
      find_pydantic_route get_message_type is_subclass add_pydantic separated lower Dict.lookup
      Dict.insert string_eq nat_eq truthy maybe_inject uses_depends
  same_keys depth = (refl, (refl, tt))

  table-Chooses : (depth : ℕ) → All (Chooses depth) (table p a)
  unfolding choose_first choose Register.route select_found select_value find_route_of_value
      find_pydantic_route get_message_type is_subclass add_pydantic separated lower Dict.lookup
      Dict.insert string_eq nat_eq truthy maybe_inject uses_depends
  table-Chooses depth = (
    (λ payload. refl),
    ((λ payload. refl), ((λ payload. refl), ((λ payload. refl), ((λ payload. refl), tt)))),
  )

  -- The routing of examples/vehicle_inheritance_example, for every payload: a type that names a kind of
  -- vehicle leads to the handler of that kind, and `vehicle` to the general one, which does not take
  -- the messages of the kinds that derive from its class.
  pub route_vehicle :
      (depth i : ℕ) (row : EventModel (host p) × Handler (host p))
      (middlewares : List (Middleware (host p))) (j : Job (host p))
      → get_elem? (table p a) i ≡ some row
      → resolve_payload_path j.payload "type" ≡ str (get_message_type row.0)
      → route (app p a middlewares depth) j ≡ answer (chosen (served_by row)) j
  route_vehicle depth i row middlewares j at h =
      route-select_first (app p a middlewares depth) j
      ∙ ap (λ s. answer s j)
          (select_first-choose_first (app p a middlewares depth) depth (0 ∷ 1 ∷ []) j.payload "type"
              (str (get_message_type row.0)) refl (same_keys depth) h
            ∙ All-get_elem? (Chooses depth) (table p a) i row (table-Chooses depth) at j.payload)

  -- A class that does not derive from the base class of a router is refused, and the router stays as
  -- it was; so the vehicles' router refuses what is no vehicle.
  pub route_foreign :
      (router : Router (host p)) (base : ℕ) (model : EventModel (host p))
      (middlewares : List (Middleware (host p))) (handler : Handler (host p))
      → router.base_event_class ≡ some base
      → is_subclass model base ≡ false
      → Register.route (λ h. h) router (event_class model) none middlewares handler
        ≡ (router, raise value_error)
  unfolding Register.route
  route_foreign router base model middlewares handler h k =
      ground (arith, by_base router.base_event_class h)
    where
      by_base : (o : Option ℕ) → o ≡ some base → fits_base model o ≡ false
      by_base none e = absurd (ground arith)
      by_base (some c) e = ground (arith, k)
