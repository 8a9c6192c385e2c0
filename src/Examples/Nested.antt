-- ===== src/Examples/Nested.antt =====
-- examples/nested_example/lambda_function.py
pub mod Routes
use fastsqs.Base.{ℕ, suc, String, ◌<>◌, true, false, Option, none, some, List, [], ◌∷◌, ◌≡◌}
use fastsqs.Base.{refl, ap, ◌++◌, ◌≢◌, arith, All, All-get_elem?, get_elem?, ◌∙◌, string_eq, nat_eq}
use fastsqs.Base.Dict
use fastsqs.Value.{Value, null, str, obj, field, end, Fields, get, truthy}
use fastsqs.Value.Print.{show}
use fastsqs.Value.Path.{resolve_payload_path}
use fastsqs.Exceptions.{ok, raise, type_error, route_not_found}
use fastsqs.Types.{auto}
use fastsqs.Run.{Job, M}
use fastsqs.Middleware.{Middleware}
use fastsqs.Handlers.{Handler, Arg, maybe_inject, uses_depends}
use fastsqs.Events.{EventModel}
use fastsqs.Routing.{Router, new_router, find_route_of_value, find_pydantic_route}
use fastsqs.Routing.Register
use fastsqs.Routing.Register.{keys, text, add_subrouter, set_default, add_value, add_values}
use fastsqs.App.{App}
use fastsqs.Processing.{route}
use fastsqs.Processing.Served.{answer, select_first, route-select_first, or_else}
use fastsqs.Routing.Dispatch.Select.{
  Selection, unhandled, chosen, under, select, select_found, select_value, select_entry,
}
use fastsqs.Examples.{Pydantic, host, event_model, printing, shown, answer_of}
use fastsqs.Examples.Choose.{choose, choose-select, choose_missed}

module _ (p : Pydantic) where
  abbrev pub done : String → String → Fields → Value
  done action key m = answer_of "action" (str action) key (get key m)

  abbrev pub handle_create_user : Handler (host p)
  handle_create_user =
      printing p
        (λ m. ("[CREATE USER] name=" <> (shown "name" m <> (" email=" <> shown "email" m))) ∷ [])
        (done "create_user" "name")

  abbrev pub handle_create_order : Handler (host p)
  handle_create_order =
      printing p (λ m. ("[CREATE ORDER] order_id=" <> shown "order_id" m) ∷ [])
        (done "create_order" "order_id")

  abbrev pub handle_update_user : Handler (host p)
  handle_update_user =
      printing p
        (λ m.
          ("[UPDATE USER] user_id=" <> (shown "user_id" m <> (" name=" <> shown "name" m))) ∷ [])
        (done "update" "user_id")

  abbrev pub handle_delete_user : Handler (host p)
  handle_delete_user =
      printing p (λ m. ("[DELETE USER] user_id=" <> shown "user_id" m) ∷ [])
        (done "delete" "user_id")

  abbrev pub handle_search_users : Handler (host p)
  handle_search_users =
      printing p (λ m. ("[SEARCH USERS] query=" <> shown "query" m) ∷ []) (done "search" "query")

  abbrev pub handle_write_to_rds : Handler (host p)
  handle_write_to_rds =
      printing p
        (λ m. ("[WRITE TO RDS] table=" <> (shown "table" m <> (" data=" <> shown "data" m))) ∷ [])
        (done "write_rds" "table")

  abbrev pub handle_write_to_cache : Handler (host p)
  handle_write_to_cache =
      printing p
        (λ m. ("[WRITE TO CACHE] key=" <> (shown "key" m <> (" value=" <> shown "value" m))) ∷ [])
        (done "write_cache" "key")

  abbrev pub unknown_action : Option (Arg (host p)) → M (host p) Value
  unknown_action (some Arg.payload) j = (
    ok (obj (field "status" (str "error") (field "message" (str "Unknown action") end))),
    record j {
      world = j.world ++ (("[FALLBACK] Unknown action with data=" <> shown "data" j.payload) ∷ []);
    },
  )
  unknown_action _ j = (raise type_error, j)

  -- `async def handler(payload)`
  abbrev pub handle_unknown_action : Handler (host p)
  handle_unknown_action = record {
    injected = false;
    signature = some (record { name = "payload"; is_named = true; is_dependant = false } ∷ []);
    body = λ kwargs. unknown_action (Dict.lookup "payload" kwargs);
  }

  -- `@router.route(value, model=model)`
  abbrev pub with_value :
      Router (host p) → String → EventModel (host p) → Handler (host p) → Router (host p)
  with_value router value model handler =
      (Register.route (λ h. h) router (keys (text value ∷ [])) (some model) [] handler).0

  abbrev pub keyed : String → Router (host p)
  keyed discriminator = new_router none discriminator true false

  abbrev pub create_router : Router (host p)
  create_router =
      with_value
        (with_value (keyed "entity") "user" (event_model p 1 [] "CreateUser") handle_create_user)
        "order" (event_model p 2 [] "CreateOrder") handle_create_order

  abbrev pub db_router : Router (host p)
  db_router =
      with_value
        (with_value (keyed "db") "rds" (event_model p 6 [] "WriteToRds") handle_write_to_rds)
        "cache" (event_model p 7 [] "WriteToCache") handle_write_to_cache

  -- The routers stand in a heap: the main one, this one, `create_router` and `db_router`.
  abbrev pub router : Router (host p)
  router =
      (set_default (λ h. h)
        (with_value
          (with_value
            (with_value
              (add_subrouter (add_subrouter (keyed "action") 2 (text "create" ∷ [])) 3
                (text "write" ∷ []))
              "update" (event_model p 3 [] "UpdateUser") handle_update_user)
            "delete" (event_model p 4 [] "DeleteUser") handle_delete_user)
          "search" (event_model p 5 [] "SearchUsers") handle_search_users)
        handle_unknown_action).0

  abbrev pub app : List (Middleware (host p)) → ℕ → App (host p)
  app middlewares depth = record {
    queue_type = auto;
    discriminator = "type";
    max_concurrent_messages = 10;
    partial_batch_failure = true;
    fifo_failure_mode = "isolate_groups";
    heap = keyed "type" ∷ router ∷ create_router ∷ db_router ∷ [];
    routers = 1 ∷ [];
    middlewares = middlewares;
    depth = suc (suc depth);
  }
