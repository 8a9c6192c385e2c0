-- ===== src/Examples/PydanticNested/Routes.antt =====
-- Which handler serves which message of examples/pydantic_nested_example.
use fastsqs.Base.{ℕ, some, List, [], ◌∷◌, ◌≡◌, ◌∙◌}
use fastsqs.Base.{refl, ap, get_elem?, All-get_elem?, All, string_eq, nat_eq}
use fastsqs.Base.Dict
use fastsqs.Value.{str, Fields, truthy}
use fastsqs.Value.Path.{resolve_payload_path}
use fastsqs.Run.{Job}
use fastsqs.Middleware.{Middleware}
use fastsqs.Handlers.{Handler, maybe_inject, uses_depends}
use fastsqs.Events.{EventModel, get_message_type, is_subclass}
use fastsqs.Routing.{find_route_of_value, find_pydantic_route}
use fastsqs.Processing.{route}
use fastsqs.Processing.Served.{answer, route-select_first}
use fastsqs.Routing.Dispatch.Select.{Choice, chosen, select, select_found, select_value}
use fastsqs.Routing.Register
use fastsqs.Routing.Register.{add_pydantic}
use fastsqs.Events.Names.{separated, lower}
use fastsqs.Examples.Choose.{choose, choose_first, select_first-choose_first, AllSameKey}
use fastsqs.Examples.{Pydantic, host}
use fastsqs.Examples.PydanticNested.{app, table}

module _ (p : Pydantic) where
  -- What serves a payload of a class.
  abbrev pub served_by : EventModel (host p) × Handler (host p) → Choice (host p)
  served_by (model, handler) = record {
    path = [];
    message_type = some (str (get_message_type model));
    middlewares = [];
    handler = handler;
    model = some model;
  }

  abbrev order : List ℕ
  order = 0 ∷ 1 ∷ 2 ∷ 3 ∷ []

  abbrev Chooses : ℕ → EventModel (host p) × Handler (host p) → Type 0
  Chooses depth row =
      (payload : Fields)
      → choose_first (λ sub mws. select depth (app p [] depth).heap sub mws payload)
          (app p [] depth).heap order (str (get_message_type row.0))
        ≡ chosen (served_by row)

  same_keys : (depth : ℕ) → AllSameKey "type" (app p [] depth).heap order
  unfolding choose_first choose Register.route select_found select_value find_route_of_value
      find_pydantic_route get_message_type is_subclass add_pydantic separated lower Dict.lookup
      Dict.insert string_eq nat_eq truthy maybe_inject uses_depends
  same_keys depth = (refl, (refl, (refl, (refl, tt))))

  table-Chooses : (depth : ℕ) → All (Chooses depth) (table p)
  unfolding choose_first choose Register.route select_found select_value find_route_of_value
      find_pydantic_route get_message_type is_subclass add_pydantic separated lower Dict.lookup
      Dict.insert string_eq nat_eq truthy maybe_inject uses_depends
  table-Chooses depth = (
    (λ payload. refl),
    (
      (λ payload. refl),
      (
        (λ payload. refl),
        (
          (λ payload. refl),
          (
            (λ payload. refl),
            (
              (λ payload. refl),
              (
                (λ payload. refl),
                ((λ payload. refl), ((λ payload. refl), ((λ payload. refl), tt))),
              ),
            ),
          ),
        ),
      ),
    ),
  )

  -- The routing of examples/pydantic_nested_example, for every payload: if its type is the message type
  -- of a class of the table, routing it runs the handler of that class on the payload that the class
  -- has validated, with the main router's class and the three routers' classes in one space of names.
  pub route_by_class :
      (depth i : ℕ) (row : EventModel (host p) × Handler (host p))
      (middlewares : List (Middleware (host p))) (j : Job (host p))
      → get_elem? (table p) i ≡ some row
      → resolve_payload_path j.payload "type" ≡ str (get_message_type row.0)
      → route (app p middlewares depth) j ≡ answer (chosen (served_by row)) j
  route_by_class depth i row middlewares j at h =
      route-select_first (app p middlewares depth) j
      ∙ ap (λ s. answer s j)
          (select_first-choose_first (app p middlewares depth) depth order j.payload "type"
              (str (get_message_type row.0)) refl (same_keys depth) h
            ∙ All-get_elem? (Chooses depth) (table p) i row (table-Chooses depth) at j.payload)
