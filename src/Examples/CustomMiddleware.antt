-- ===== src/Examples/CustomMiddleware.antt =====
-- examples/custom_middleware_example: its middlewares and the application's discriminator `action`.
pub mod Counters
use fastsqs.Base.{
  ℕ, zero, suc, String, ◌<>◌, Bool, true, false, Option, none, some, List, [], ◌∷◌, ◌++◌,
}
use fastsqs.Base.{if◌then◌else◌, string_eq}
use fastsqs.Value.{
  Value, ℤ, pos, negsuc, null, bool, int, float, str, arr, obj, Fields, end, field, find, get, put,
  nil, truthy, elements, items,
}
use fastsqs.Value.Print.{show}
use fastsqs.Exceptions.{Exn, Res, ok, raise, value_error, type_error, key_error, attribute_error}
use fastsqs.Types.{Host, Context}
use fastsqs.Types.Scratch
use fastsqs.Types.Scratch.{Slot, State, plain, trace, has_item}
use fastsqs.Run.{Job, M, throw, ◌>>=◌, ◌>>◌}
use fastsqs.Middleware.{Middleware}
use fastsqs.Examples.{Pydantic, host}

-- Python's clock, and its arithmetic and formats on floats: `x + 1`, `now - start` and `{x:.3f}`,
-- `{successful / total * 100:.1f}`, `{sum(times) / len(times):.3f}`, and `{error}` with its type.
pub record Numbers : Type 0 where
  pub time : List String → String
  pub float_plus_one : String → String
  pub since : String → Value → Res String
  pub seconds : String → String
  pub success_rate : Value → Value → Res String
  pub average : Value → Res String
  pub show_error : Option Exn → String
  pub show_typed : Exn → String

module _ (p : Pydantic) (n : Numbers) where
  -- `print(line)`
  abbrev print : String → M (host p) (Unit {0})
  print line j = (ok tt, record j { world = j.world ++ (line ∷ []) })

  abbrev set : String → Value → M (host p) (Unit {0})
  set key v j = (
    ok tt,
    record j { ctx = record j.ctx { state = Scratch.set_item key (plain v) j.ctx.state } },
  )

  -- `v + 1`
  unfoldable pub plus_one : Value → Res Value
  plus_one (int (pos m)) = ok (int (pos (suc m)))
  plus_one (int (negsuc zero)) = ok (int (pos 0))
  plus_one (int (negsuc (suc m))) = ok (int (negsuc m))
  plus_one (bool true) = ok (int (pos 2))
  plus_one (bool false) = ok (int (pos 1))
  plus_one (float x) = ok (float (n.float_plus_one x))
  plus_one _ = raise type_error

  -- What a slot holds: a trace context is no number and has no items.
  abbrev value_of : Slot → Value
  value_of (plain v) = v
  value_of (trace t) = null

  -- `ctx.state.get(key, default)`
  abbrev read : String → Value → M (host p) Value
  read key default j = (ok (value_of (Scratch.get key (plain default) j.ctx.state)), j)

  abbrev now : M (host p) String
  now j = (ok (n.time j.world), j)

  abbrev from : {A : Type 0} → Res A → M (host p) A
  from r j = (r, j)

  abbrev item_of : String → Value → Res Value
  item_of k (obj d) = ok (get k d)
  item_of k _ = raise attribute_error

  -- `record.get("messageId")`
  abbrev message_id : M (host p) Value
  message_id j = (item_of "messageId" j.ctx.sqs_record, j)

  abbrev action : M (host p) Value
  action j = (ok (get "action" j.payload), j)

  -- `CustomLoggingMiddleware`
  unfoldable pub logging_before : M (host p) (Unit {0})
  unfolding plus_one
  logging_before = do
    id ← message_id
    print ("[BEFORE] Processing message " <> show id)
    a ← action
    print ("[BEFORE] Action: " <> show a)
    t ← now
    print ("[BEFORE] Timestamp: " <> t)
    start ← now
    set "start_time" (float start)
    count ← read "message_count" (int (pos 0))
    next ← from (plus_one count)
    set "message_count" next

  unfoldable pub logging_after : Option Exn → M (host p) (Unit {0})
  logging_after error = do
    end_time ← now
    start ← read "start_time" (float end_time)
    duration ← from (n.since end_time start)
    id ← message_id
    print ("[AFTER] Message " <> (show id <> " processed"))
    print ("[AFTER] Duration: " <> (n.seconds duration <> "s"))
    print ("[AFTER] Error: " <> n.show_error error)
    count ← read "message_count" (int (pos 0))
    print ("[AFTER] Total messages processed: " <> show count)

  abbrev pub keep_count : M (host p) (Unit {0})
  keep_count = do count ← read "error_count" (int (pos 0)); set "error_count" count

  -- `ErrorHandlingMiddleware`
  unfoldable pub errors_before : M (host p) (Unit {0})
  errors_before = do a ← action; if truthy a then keep_count else throw value_error

  unfoldable pub errors_after : Option Exn → M (host p) (Unit {0})
  unfolding plus_one
  errors_after none = do id ← message_id; print ("[SUCCESS] Message " <> (show id <> " completed"))
  errors_after (some error) = do
    count ← read "error_count" (int (pos 0))
    next ← from (plus_one count)
    set "error_count" next
    id ← message_id
    print ("[ERROR] Message " <> (show id <> " failed"))
    print ("[ERROR] Error: " <> n.show_typed error)
    print ("[ERROR] Total errors: " <> show next)

  abbrev pub no_metrics : Fields
  no_metrics = field "total_messages" (int (pos 0)) (
      field "successful_messages" (int (pos 0))
        (field "failed_messages" (int (pos 0)) (field "processing_times" (arr nil) end)))

  abbrev required : Option Value → Res Value
  required none = raise key_error
  required (some v) = ok v

  -- `metrics[key]`
  abbrev metric : String → Value → Res Value
  metric key (obj d) = required (find key d)
  metric key _ = raise type_error

  abbrev put_in : String → Value → Value → Value
  put_in key v (obj d) = obj (put key v d)
  put_in key v m = m

  -- Where `metrics` is the dict of the state, a change of it is a change of the state.
  abbrev keep : Value → M (host p) (Unit {0})
  keep m j = if has_item "metrics" j.ctx.state then set "metrics" m j else (ok tt, j)

  -- `metrics[key] += 1`, with the dict as it is then.
  unfoldable pub bump : String → Value → M (host p) Value
  unfolding plus_one
  bump key metrics = do
    v ← from (metric key metrics)
    next ← from (plus_one v)
    keep (put_in key next metrics)
    from (ok (put_in key next metrics))

  abbrev fresh_metrics : M (host p) (Unit {0})
  fresh_metrics j =
      if has_item "metrics" j.ctx.state then (ok tt, j) else set "metrics" (obj no_metrics) j

  -- `MetricsMiddleware`
  unfoldable pub metrics_before : M (host p) (Unit {0})
  unfolding bump
  metrics_before = do
    fresh_metrics
    metrics ← read "metrics" null
    bump "total_messages" metrics
    start ← now
    set "start_time" (float start)

  abbrev times_of : Value → Res (List Value)
  times_of (arr vs) = ok (elements vs)
  times_of _ = raise attribute_error

  abbrev print_average : Value → M (host p) (Unit {0})
  print_average times = do
    average ← from (n.average times)
    print ("Average processing time: " <> (average <> "s"))

  unfoldable pub metrics_after : Option Exn → M (host p) (Unit {0})
  unfolding bump
  metrics_after (some error) = do
    old ← read "metrics" (obj end)
    metrics ← bump "failed_messages" old
    print "\n=== METRICS SUMMARY ==="
    total ← from (metric "total_messages" metrics)
    print ("Total messages: " <> show total)
    successful ← from (metric "successful_messages" metrics)
    print ("Successful: " <> show successful)
    failed ← from (metric "failed_messages" metrics)
    print ("Failed: " <> show failed)
    rate ← from (n.success_rate successful total)
    print ("Success rate: " <> (rate <> "%"))
    times ← from (metric "processing_times" metrics)
    if truthy times then print_average times else from (ok tt)
  metrics_after none = do
    old ← read "metrics" (obj end)
    end_time ← now
    start ← read "start_time" (float end_time)
    duration ← from (n.since end_time start)
    metrics ← bump "successful_messages" old
    times ← from (metric "processing_times" metrics)
    vs ← from (times_of times)
    keep (put_in "processing_times" (arr (items (vs ++ (float duration ∷ [])))) metrics)

  abbrev pub custom_logging : Middleware (host p)
  custom_logging = record { before = some logging_before; after = some logging_after }

  abbrev pub error_handling : Middleware (host p)
  error_handling = record { before = some errors_before; after = some errors_after }

  abbrev pub metrics_collection : Middleware (host p)
  metrics_collection = record { before = some metrics_before; after = some metrics_after }

  -- The middlewares of `app`.
  abbrev pub middlewares : List (Middleware (host p))
  middlewares = custom_logging ∷ error_handling ∷ metrics_collection ∷ []
