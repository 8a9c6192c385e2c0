-- ===== src/Examples/Nested/Routes.antt =====
-- Which handler serves which message of examples/nested_example.
use fastsqs.Base.{ℕ, suc, String, ◌<>◌, Option, none, some, List, [], ◌∷◌, ◌≡◌}
use fastsqs.Base.{refl, ap, ◌≢◌, arith, All, All-get_elem?, get_elem?, ◌∙◌, string_eq, nat_eq}
use fastsqs.Base.Dict
use fastsqs.Value.{null, str, Fields, truthy}
use fastsqs.Value.Print.{show}
use fastsqs.Value.Path.{resolve_payload_path}
use fastsqs.Exceptions.{raise, route_not_found}
use fastsqs.Run.{Job}
use fastsqs.Middleware.{Middleware}
use fastsqs.Handlers.{Handler, maybe_inject, uses_depends}
use fastsqs.Events.{EventModel}
use fastsqs.Routing.{Router, find_route_of_value, find_pydantic_route}
use fastsqs.Routing.Register
use fastsqs.Routing.Register.{keys, text, add_subrouter, set_default, add_value, add_values}
use fastsqs.Processing.{route}
use fastsqs.Processing.Served.{answer, select_first, route-select_first, or_else}
use fastsqs.Routing.Dispatch.Select.{
  Selection, unhandled, chosen, under, select, select_found, select_value, select_entry,
}
use fastsqs.Examples.{Pydantic, host, event_model}
use fastsqs.Examples.Choose.{choose, choose-select, choose_missed}
use fastsqs.Examples.Nested.{
  handle_create_user, handle_create_order, handle_update_user, handle_delete_user,
  handle_search_users, handle_write_to_rds, handle_write_to_cache, create_router, db_router, router,
  app,
}

module _ (p : Pydantic) where
  abbrev heap : List (Router (host p))
  heap = (app p [] 0).heap

  abbrev pub serve_at :
      List String → Handler (host p) → Option (EventModel (host p)) → Selection (host p)
  serve_at path handler model = chosen (record {
    path = path;
    message_type = none;
    middlewares = [];
    handler = handler;
    model = model;
  })

  at_main :
      (depth : ℕ) (payload : Fields)
      → resolve_payload_path payload "type" ≡ null
      → select (suc depth) heap 0 [] payload ≡ unhandled
  unfolding choose select_value truthy
  at_main depth payload h = choose-select depth heap 0 payload "type" null refl h

  at_create :
      (depth : ℕ) (payload : Fields)
      → resolve_payload_path payload "action" ≡ str "create"
      → select (suc depth) heap 1 [] payload
        ≡ under "action=create" (select depth heap 2 [] payload)
  unfolding choose select_value select_found select_entry truthy find_route_of_value
      find_pydantic_route show Register.route add_subrouter set_default add_values add_value
      Dict.lookup Dict.insert string_eq Register.key_of maybe_inject uses_depends
  at_create depth payload h = choose-select depth heap 1 payload "action" (str "create") refl h

  at_write :
      (depth : ℕ) (payload : Fields)
      → resolve_payload_path payload "action" ≡ str "write"
      → select (suc depth) heap 1 [] payload ≡ under "action=write" (select depth heap 3 [] payload)
  unfolding choose select_value select_found select_entry truthy find_route_of_value
      find_pydantic_route show Register.route add_subrouter set_default add_values add_value
      Dict.lookup Dict.insert string_eq Register.key_of maybe_inject uses_depends
  at_write depth payload h = choose-select depth heap 1 payload "action" (str "write") refl h

  -- The routers behind the main one, where it takes nothing.
  first_included :
      (middlewares : List (Middleware (host p))) (depth : ℕ) (payload : Fields)
      → resolve_payload_path payload "type" ≡ null
      → select_first (app p middlewares depth) (0 ∷ 1 ∷ []) payload
        ≡ or_else (select (suc (suc depth)) heap 1 [] payload) unhandled
  unfolding select_first
  first_included middlewares depth payload h = rw (at_main (suc depth) payload h) refl

  -- What a payload has under some keys, and what serves it.
  abbrev pub Row : Type 0
  Row = List (String × String) × Selection (host p)

  abbrev pub Wants : List (String × String) → Fields → Type 0
  Wants wanted payload = All (λ (k, v). resolve_payload_path payload k ≡ str v) wanted

  abbrev row : String → String → String → String → Handler (host p) → EventModel (host p) → Row
  row k v k' v' handler model = (
    (k, v) ∷ (k', v') ∷ [],
    serve_at ((k <> ("=" <> v)) ∷ (k' <> ("=" <> v')) ∷ []) handler (some model),
  )

  abbrev action_row : String → Handler (host p) → EventModel (host p) → Row
  action_row v handler model =
      (("action", v) ∷ [], serve_at (("action=" <> v) ∷ []) handler (some model))

  abbrev pub table : List Row
  table =
      row "action" "create" "entity" "user" (handle_create_user p) (event_model p 1 [] "CreateUser")
      ∷ row "action" "create" "entity" "order" (handle_create_order p)
          (event_model p 2 [] "CreateOrder")
      ∷ action_row "update" (handle_update_user p) (event_model p 3 [] "UpdateUser")
      ∷ action_row "delete" (handle_delete_user p) (event_model p 4 [] "DeleteUser")
      ∷ action_row "search" (handle_search_users p) (event_model p 5 [] "SearchUsers")
      ∷ row "action" "write" "db" "rds" (handle_write_to_rds p) (event_model p 6 [] "WriteToRds")
      ∷ row "action" "write" "db" "cache" (handle_write_to_cache p)
          (event_model p 7 [] "WriteToCache")
      ∷ []

  abbrev Serves : ℕ → Row → Type 0
  Serves depth (wanted, selection) =
      (payload : Fields)
      → Wants wanted payload
      → or_else (select (suc (suc depth)) heap 1 [] payload) unhandled ≡ selection

  under_create :
      (depth : ℕ) (payload : Fields) (s : Selection (host p))
      → resolve_payload_path payload "action" ≡ str "create"
      → select (suc depth) heap 2 [] payload ≡ s
      → or_else (select (suc (suc depth)) heap 1 [] payload) unhandled
        ≡ or_else (under "action=create" s) unhandled
  under_create depth payload s h k = rw (at_create (suc depth) payload h, k) refl

  under_write :
      (depth : ℕ) (payload : Fields) (s : Selection (host p))
      → resolve_payload_path payload "action" ≡ str "write"
      → select (suc depth) heap 3 [] payload ≡ s
      → or_else (select (suc (suc depth)) heap 1 [] payload) unhandled
        ≡ or_else (under "action=write" s) unhandled
  under_write depth payload s h k = rw (at_write (suc depth) payload h, k) refl

  at_action :
      (depth : ℕ) (payload : Fields) (v : String)
      → resolve_payload_path payload "action" ≡ str v
      → or_else (select (suc (suc depth)) heap 1 [] payload) unhandled
        ≡ or_else
            (choose (λ sub mws. select (suc depth) heap sub mws payload) (some (router p)) (str v))
            unhandled
  unfolding add_subrouter set_default Register.route add_values add_value Dict.lookup Dict.insert
      string_eq Register.key_of maybe_inject uses_depends
  at_action depth payload v h =
      rw (choose-select (suc depth) heap 1 payload "action" (str v) refl h) refl

  at_entity :
      (depth : ℕ) (payload : Fields) (v : String)
      → resolve_payload_path payload "entity" ≡ str v
      → select (suc depth) heap 2 [] payload
        ≡ choose (λ sub mws. select depth heap sub mws payload) (some (create_router p)) (str v)
  unfolding Register.route add_subrouter set_default add_values add_value Dict.lookup Dict.insert
      string_eq Register.key_of maybe_inject uses_depends
  at_entity depth payload v h = choose-select depth heap 2 payload "entity" (str v) refl h

  at_db :
      (depth : ℕ) (payload : Fields) (v : String)
      → resolve_payload_path payload "db" ≡ str v
      → select (suc depth) heap 3 [] payload
        ≡ choose (λ sub mws. select depth heap sub mws payload) (some (db_router p)) (str v)
  unfolding Register.route add_subrouter set_default add_values add_value Dict.lookup Dict.insert
      string_eq Register.key_of maybe_inject uses_depends
  at_db depth payload v h = choose-select depth heap 3 payload "db" (str v) refl h

  table-Serves : (depth : ℕ) → All (Serves depth) table
  unfolding choose select_value select_found select_entry truthy find_route_of_value
      find_pydantic_route show Register.route add_subrouter set_default add_values add_value
      Dict.lookup Dict.insert string_eq Register.key_of maybe_inject uses_depends
  table-Serves depth = (
    (λ payload (h, (k, _)). under_create depth payload _ h (at_entity depth payload "user" k)),
    (
      (λ payload (h, (k, _)). under_create depth payload _ h (at_entity depth payload "order" k)),
      (
        (λ payload (h, _). at_action depth payload "update" h),
        (
          (λ payload (h, _). at_action depth payload "delete" h),
          (
            (λ payload (h, _). at_action depth payload "search" h),
            (
              (λ payload (h, (k, _)). under_write depth payload _ h (at_db depth payload "rds" k)),
              (
                (λ payload (h, (k, _)).
                    under_write depth payload _ h (at_db depth payload "cache" k)),
                tt,
              ),
            ),
          ),
        ),
      ),
    ),
  )

  answered :
      (middlewares : List (Middleware (host p))) (depth : ℕ) (j : Job (host p))
      (s : Selection (host p))
      → resolve_payload_path j.payload "type" ≡ null
      → or_else (select (suc (suc depth)) heap 1 [] j.payload) unhandled ≡ s
      → route (app p middlewares depth) j ≡ answer s j
  answered middlewares depth j s h k =
      route-select_first (app p middlewares depth) j
      ∙ ap (λ x. answer x j) (first_included middlewares depth j.payload h ∙ k)

  -- The routing of examples/nested_example, for every payload without a `type`: the values that a row of
  -- the table wants lead to its handler, over the subrouters, with the steps in `route_path`, and
  -- the payload is validated as the row's class.
  pub route_nested :
      (middlewares : List (Middleware (host p))) (depth i : ℕ) (row : Row) (j : Job (host p))
      → get_elem? table i ≡ some row
      → resolve_payload_path j.payload "type" ≡ null
      → Wants row.0 j.payload
      → route (app p middlewares depth) j ≡ answer row.1 j
  route_nested middlewares depth i row j at no_type wanted =
      answered middlewares depth j row.1 no_type
        (All-get_elem? (Serves depth) table i row (table-Serves depth) at j.payload wanted)

  lookup_missed :
      {A : Type 0} (v a b : String) (x y : A)
      → v ≢ a
      → v ≢ b
      → Dict.lookup v ((a, x) ∷ (b, y) ∷ []) ≡ none
  unfolding Dict.lookup
  lookup_missed v a b x y h k = ground arith

  missed_entity :
      (recur : ℕ → List (Middleware (host p)) → Selection (host p)) (v : String)
      → v ≢ "user"
      → v ≢ "order"
      → choose recur (some (create_router p)) (str v) ≡ unhandled
  unfolding Register.route add_values add_value Dict.lookup Dict.insert string_eq Register.key_of
      maybe_inject uses_depends
  missed_entity recur v h k =
      choose_missed recur (create_router p) v refl refl (lookup_missed v "user" "order" _ _ h k)
        refl

  -- The default handler of the router does not take what a subrouter does not: with the action `create`
  -- and an entity that is a text but neither `user` nor `order`, `RouteNotFoundError` is raised, no
  -- handler has run and the job is as it was.
  pub route_unknown_entity :
      (middlewares : List (Middleware (host p))) (depth : ℕ) (entity : String) (j : Job (host p))
      → resolve_payload_path j.payload "type" ≡ null
      → resolve_payload_path j.payload "action" ≡ str "create"
      → resolve_payload_path j.payload "entity" ≡ str entity
      → entity ≢ "user"
      → entity ≢ "order"
      → route (app p middlewares depth) j ≡ (raise route_not_found, j)
  unfolding answer
  route_unknown_entity middlewares depth entity j no_type create entity_of h k =
      answered middlewares depth j unhandled no_type (
        under_create depth j.payload unhandled create
          (at_entity depth j.payload entity entity_of ∙ missed_entity _ entity h k))
