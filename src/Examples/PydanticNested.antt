-- ===== src/Examples/PydanticNested.antt =====
-- examples/pydantic_nested_example/lambda_function.py
pub mod Routes
use fastsqs.Base.{ℕ, suc, String, ◌<>◌, true, false, none, some, List, [], ◌∷◌, ◌≡◌, ◌∙◌}
use fastsqs.Base.{refl, ap, get_elem?, All-get_elem?, All, string_eq, nat_eq}
use fastsqs.Base.Dict
use fastsqs.Value.{Value, str, Fields, get, truthy}
use fastsqs.Value.Path.{resolve_payload_path}
use fastsqs.Types.{auto}
use fastsqs.Run.{Job}
use fastsqs.Middleware.{Middleware}
use fastsqs.Handlers.{Handler, maybe_inject, uses_depends}
use fastsqs.Events.{EventModel, get_message_type, is_subclass}
use fastsqs.Routing.{Router, new_router, find_route_of_value, find_pydantic_route}
use fastsqs.App.{App}
use fastsqs.Processing.{route}
use fastsqs.Processing.Served.{answer, route-select_first}
use fastsqs.Routing.Dispatch.Select.{Choice, chosen, select, select_found, select_value}
use fastsqs.Routing.Register
use fastsqs.Routing.Register.{add_pydantic}
use fastsqs.Events.Names.{separated, lower}
use fastsqs.Examples.Choose.{choose, choose_first, select_first-choose_first, AllSameKey}
use fastsqs.Examples.{Pydantic, host, event_model, printing, with_route, shown, answer_of}

module _ (p : Pydantic) where
  -- The classes, by their places in the file.
  abbrev pub create_user : EventModel (host p)
  create_user = event_model p 4 (1 ∷ []) "CreateUser"

  abbrev pub update_user : EventModel (host p)
  update_user = event_model p 5 (1 ∷ []) "UpdateUser"

  abbrev pub delete_user : EventModel (host p)
  delete_user = event_model p 6 (1 ∷ []) "DeleteUser"

  abbrev pub create_order : EventModel (host p)
  create_order = event_model p 7 (2 ∷ []) "CreateOrder"

  abbrev pub update_order : EventModel (host p)
  update_order = event_model p 8 (2 ∷ []) "UpdateOrder"

  abbrev pub process_payment : EventModel (host p)
  process_payment = event_model p 9 (2 ∷ []) "ProcessPayment"

  abbrev pub database_backup : EventModel (host p)
  database_backup = event_model p 10 (3 ∷ []) "DatabaseBackup"

  abbrev pub send_notification : EventModel (host p)
  send_notification = event_model p 11 (3 ∷ []) "SendNotification"

  abbrev pub generate_report : EventModel (host p)
  generate_report = event_model p 12 (3 ∷ []) "GenerateReport"

  abbrev pub health_check : EventModel (host p)
  health_check = event_model p 13 [] "HealthCheck"

  -- The dict that a handler returns.
  abbrev pub done : String → String → String → Fields → Value
  done action key name m = answer_of "action" (str action) key (get name m)

  abbrev pub handle_create_user : Handler (host p)
  handle_create_user =
      printing p
        (λ m.
          ("[USER ROUTER] Creating user: "
            <> (shown "name" m <> (" (" <> (shown "email" m <> (") in " <> shown "department" m)))))
          ∷ [])
        (done "create_user" "name" "name")

  abbrev pub handle_update_user : Handler (host p)
  handle_update_user =
      printing p
        (λ m.
          ("[USER ROUTER] Updating user "
            <> (shown "user_id" m
                <> (": name=" <> (shown "name" m <> (", email=" <> shown "email" m)))))
          ∷ [])
        (done "update_user" "user_id" "user_id")

  abbrev pub handle_delete_user : Handler (host p)
  handle_delete_user =
      printing p
        (λ m.
          ("[USER ROUTER] Deleting user "
            <> (shown "user_id" m <> (", reason: " <> shown "reason" m)))
          ∷ [])
        (done "delete_user" "user_id" "user_id")

  abbrev pub handle_create_order : Handler (host p)
  handle_create_order =
      printing p
        (λ m.
          ("[ORDER ROUTER] Creating order "
            <> (shown "order_id" m
                <> (" for customer " <> (shown "customer_id" m <> (": $" <> shown "amount" m)))))
          ∷ [])
        (done "create_order" "order_id" "order_id")

  abbrev pub handle_update_order : Handler (host p)
  handle_update_order =
      printing p
        (λ m.
          ("[ORDER ROUTER] Updating order "
            <> (shown "order_id" m
                <> (": status="
                    <> (shown "status" m <> (", tracking=" <> shown "tracking_number" m)))))
          ∷ [])
        (done "update_order" "order_id" "order_id")

  abbrev pub handle_process_payment : Handler (host p)
  handle_process_payment =
      printing p
        (λ m.
          ("[ORDER ROUTER] Processing payment for order "
            <> (shown "order_id" m
                <> (": $" <> (shown "amount" m <> (" via " <> shown "payment_method" m)))))
          ∷ [])
        (done "process_payment" "order_id" "order_id")

  abbrev pub handle_database_backup : Handler (host p)
  handle_database_backup =
      printing p
        (λ m.
          ("[SYSTEM ROUTER] Creating "
            <> (shown "backup_type" m <> (" backup of '" <> (shown "database_name" m <> "'"))))
          ∷ [])
        (done "database_backup" "database" "database_name")

  abbrev pub handle_send_notification : Handler (host p)
  handle_send_notification =
      printing p
        (λ m.
          ("[SYSTEM ROUTER] Sending "
            <> (shown "channel" m
                <> (" to " <> (shown "recipient" m <> (": '" <> (shown "message" m <> "'"))))))
          ∷ [])
        (done "send_notification" "recipient" "recipient")

  abbrev pub handle_generate_report : Handler (host p)
  handle_generate_report =
      printing p
        (λ m.
          ("[SYSTEM ROUTER] Generating "
            <> (shown "report_type" m
                <> (" report for "
                    <> (shown "date_range" m <> (" (" <> (shown "format" m <> ")"))))))
          ∷ [])
        (done "generate_report" "report_type" "report_type")

  abbrev pub handle_health_check : Handler (host p)
  handle_health_check =
      printing p (λ m. ("[MAIN APP] Health check for service: " <> shown "service" m) ∷ [])
        (done "health_check" "service" "service")

  abbrev pub plain_router : Router (host p)
  plain_router = new_router none "type" true false

  abbrev pub user_router : Router (host p)
  user_router =
      with_route p
        (with_route p (with_route p plain_router create_user handle_create_user) update_user
          handle_update_user)
        delete_user handle_delete_user

  abbrev pub order_router : Router (host p)
  order_router =
      with_route p
        (with_route p (with_route p plain_router create_order handle_create_order) update_order
          handle_update_order)
        process_payment handle_process_payment

  abbrev pub system_router : Router (host p)
  system_router =
      with_route p
        (with_route p (with_route p plain_router database_backup handle_database_backup)
          send_notification handle_send_notification)
        generate_report handle_generate_report

  -- `app`, over the middlewares that it is given.
  abbrev pub app : List (Middleware (host p)) → ℕ → App (host p)
  app middlewares depth = record {
    queue_type = auto;
    discriminator = "type";
    max_concurrent_messages = 10;
    partial_batch_failure = true;
    fifo_failure_mode = "isolate_groups";
    heap =
        with_route p plain_router health_check handle_health_check
        ∷ user_router
        ∷ order_router
        ∷ system_router
        ∷ [];
    routers = 1 ∷ 2 ∷ 3 ∷ [];
    middlewares = middlewares;
    depth = suc depth;
  }

  -- What each class is handled by.
  abbrev pub table : List (EventModel (host p) × Handler (host p))
  table =
      (health_check, handle_health_check)
      ∷ (create_user, handle_create_user)
      ∷ (update_user, handle_update_user)
      ∷ (delete_user, handle_delete_user)
      ∷ (create_order, handle_create_order)
      ∷ (update_order, handle_update_order)
      ∷ (process_payment, handle_process_payment)
      ∷ (database_backup, handle_database_backup)
      ∷ (send_notification, handle_send_notification)
      ∷ (generate_report, handle_generate_report)
      ∷ []
