-- ===== src/Examples/Comprehensive.antt =====
-- examples/comprehensive_example/lambda_function.py. An `asyncio.sleep` only takes time.
use fastsqs.Base.{ℕ, suc, String, ◌<>◌, true, false, not, ◌&&◌, Option, none, some, List, []}
use fastsqs.Base.{◌∷◌, ◌++◌, map, ◌≡◌, refl, ap, ◌==◌, string_eq, if◌then◌else◌}
use fastsqs.Base.Dict
use fastsqs.Value.{Value, pos, int, str, arr, obj, Fields, end, field, find, get, items}
use fastsqs.Exceptions.{Exn, Res, ok, raise, type_error, value_error}
use fastsqs.Types.{auto}
use fastsqs.Run.{M}
use fastsqs.Middleware.{Middleware}
use fastsqs.Handlers.{Handler, Arg}
use fastsqs.Routing.{Router, new_router}
use fastsqs.App.{App, ends_with}
use fastsqs.Processing.Batch.{Failures, Outcome, ended, blocked, handle_event}
use fastsqs.Examples.{Pydantic, host, event_model, printing, with_route}

-- The dict that `handler` returns.
abbrev pub batch_response : Failures → Fields
batch_response failures =
    field "batchItemFailures"
      (arr (items (map (λ id. obj (field "itemIdentifier" id end)) failures))) end

module _ (p : Pydantic) where
  -- An order whose identifier ends in `error` fails.
  abbrev process : Fields → Value → M (host p) Value
  process m (str order_id) j =
      let w = j.world ++ (("Processing order " <> order_id) ∷ []) in
      if not (order_id == "") && ends_with order_id "error"
      then (raise value_error, record j { world = w })
      else (
        ok (
            obj (
              field "order_id" (str order_id) (
                field "status" (str "processed")
                  (field "processed_at" (str "2024-01-01T00:00:00Z") end)))),
        record j { world = w },
      )
  process m _ j = (raise type_error, j)

  abbrev processed : Option (Arg (host p)) → M (host p) Value
  processed (some (Arg.msg m)) j = process m (get "order_id" m) j
  processed _ j = (raise type_error, j)

  abbrev pub process_order : Handler (host p)
  process_order = record {
    injected = false;
    signature = some (record { name = "msg"; is_named = true; is_dependant = false } ∷ []);
    body = λ kwargs. processed (Dict.lookup "msg" kwargs);
  }

  abbrev pub handle_high_volume : Handler (host p)
  handle_high_volume =
      printing p (λ m. [])
        (λ m. obj (field "message_id" (get "message_id" m) (field "status" (str "processed") end)))

  abbrev pub handle_critical_messages : Handler (host p)
  handle_critical_messages =
      printing p (λ m. [])
        (λ m. obj (
          field "critical_id" (get "critical_id" m)
            (field "status" (str "critical_processed") (field "priority" (str "high") end))))

  abbrev pub main : Router (host p)
  main =
      with_route p
        (with_route p
          (with_route p (new_router none "type" true false) (event_model p 1 [] "OrderProcessing")
            process_order)
          (event_model p 2 [] "HighVolumeMessage") handle_high_volume)
        (event_model p 3 [] "CriticalMessage") handle_critical_messages

  -- `app`, over the middlewares that it is given.
  abbrev pub app : List (Middleware (host p)) → ℕ → App (host p)
  app middlewares depth = record {
    queue_type = auto;
    discriminator = "type";
    max_concurrent_messages = 5;
    partial_batch_failure = true;
    fifo_failure_mode = "isolate_groups";
    heap = main ∷ [];
    routers = [];
    middlewares = middlewares;
    depth = suc depth;
  }

  -- `json.dumps` and `str(e)`
  module _ (dumps : Value → String) (text_of : Exn → String) where
    abbrev status : ℕ → Value → Fields
    status code body = field "statusCode" (int (pos code)) (field "body" (str (dumps body)) end)

    abbrev succeeded : Failures → Fields
    succeeded failures = status 200 (
        obj (
          field "message" (str "Successfully processed messages")
            (field "batchItemFailures" (get "batchItemFailures" (batch_response failures)) end)))

    abbrev wrapped : Outcome (host p) → Option (Fields × List String)
    wrapped (ended (ok failures) w) = some (succeeded failures, w)
    wrapped (ended (raise e) w) = some (
      status 500 (obj (field "error" (str (text_of e)) end)),
      w ++ (("Error processing event: " <> text_of e) ∷ []),
    )
    wrapped blocked = none

    -- `lambda_handler`; `none` where it never returns.
    unfoldable pub lambda_handler :
        List (Middleware (host p)) → ℕ → Value → List String → Option (Fields × List String)
    lambda_handler middlewares depth event w =
        wrapped (handle_event (app middlewares depth) tt event w)

    wrapped_unreported :
        (out : Outcome (host p)) (r : Res Failures) (w : List String)
        → out ≡ ended r w
        → (response : Fields) × ((w' : List String) × ((wrapped out ≡ some (response, w'))
              × (find "batchItemFailures" response ≡ none)))
    unfolding find string_eq
    wrapped_unreported out (ok failures) w h = (succeeded failures, (w, (ap wrapped h, refl)))
    wrapped_unreported out (raise e) w h = (_, (_, (ap wrapped h, refl)))

    -- Whatever `handler` ends with, failures or an exception included: the function returns a dict that
    -- has no `batchItemFailures` of its own, so that no record is reported as failed.
    pub lambda_handler_unreported :
        (middlewares : List (Middleware (host p))) (depth : ℕ) (event : Value) (w w' : List String)
        (r : Res Failures)
        → handle_event (app middlewares depth) tt event w ≡ ended r w'
        → (response : Fields) × ((w'' : List String) × ((lambda_handler middlewares depth event w
                ≡ some (response, w''))
              × (find "batchItemFailures" response ≡ none)))
    unfolding lambda_handler
    lambda_handler_unreported middlewares depth event w w' r h =
        wrapped_unreported (handle_event (app middlewares depth) tt event w) r w' h
