-- ===== src/Processing/Logged.antt =====
-- `_handle_record` of fastsqs/processing.py with its log lines.
pub mod Silent
pub mod Defaults
pub mod Batch
use Prim.Native.String.{[], ◌∷◌}
use fastsqs.Base.{ℕ, zero, suc, ◌+◌, String, ◌<>◌, Bool, true, false, none, some, List, ltb}
use fastsqs.Base.{Option, length, map, get_elem?, ◌==◌, string_eq, if◌then◌else◌}
use fastsqs.Base.Dict
use fastsqs.Value.{Value, ℤ, pos, null, bool, int, float, str, arr, obj, Fields, end, get_or, items}
use fastsqs.Value.Print.{repr, decimal}
use fastsqs.Value.Path.{resolve_payload_path}
use fastsqs.Exceptions.{
  Exn, Res, ok, raise, invalid_message, type_error, route_not_found, skip_message,
}
use fastsqs.Types.{Host, Context, FifoInfo, QueueType, auto, standard, fifo}
use fastsqs.Run.{Job, M, pure, throw, ◌>>=◌, ◌>>◌}
use fastsqs.Middleware.{run_middleware_stack}
use fastsqs.Routing.Dispatch.{dispatch}
use fastsqs.App.{App, main_router, resolve_queue_type}
use fastsqs.Logging.{Item, json, fifo_item, Entry, done, with_item, text, texts, Console, Logger}
use fastsqs.Logging.{Installed, hooks, app_log}
use fastsqs.Processing.{message_id, fifo_info, new_context}

-- `len(s)` and `s[:n]`
text_length : String → ℕ
text_length [] = 0
text_length (_ ∷ s) = suc (text_length s)

text_prefix : ℕ → String → String
text_prefix zero s = ""
text_prefix (suc n) [] = ""
text_prefix (suc n) (c ∷ s) = c ∷ text_prefix n s

-- The body as it is logged.
unfoldable pub excerpt : String → String
unfolding text_length text_prefix
excerpt body = text_prefix 500 body <> (if ltb 500 (text_length body) then "..." else "")

-- A computation on the world, before there is a job.
abbrev pub and_then : {W A B : Type 0} → Res A × W → (A → W → Res B × W) → Res B × W
and_then (ok a, w) f = f a w
and_then (raise e, w) f = (raise e, w)

abbrev repr_texts : List String → String
repr_texts names = repr (arr (items (map str names)))

module _ {H : Host} where
  abbrev discriminator_of : App H → ℕ → String
  discriminator_of app id = elim (get_elem? app.heap id) [ none ↦ "" | some r ↦ r.discriminator ]

  abbrev available_routes : App H → List String
  available_routes app = elim (get_elem? app.heap main_router) [
    | none ↦ List.[]
    | some r ↦ Dict.keys r.pydantic_routes
  ]

  abbrev available_routers : App H → List String
  available_routers app = map (discriminator_of app) app.routers

  -- `error_msg`
  unfoldable pub no_handler_message : App H → Fields → String
  no_handler_message app payload =
      "No handler found for message ("
      <> (app.discriminator
          <> ("="
              <> (repr (resolve_payload_path payload app.discriminator)
                  <> ("). Available FastSQS routes: "
                      <> (repr_texts (available_routes app)
                          <> (", Available router discriminators: "
                              <> repr_texts (available_routers app)))))))

  module _ (c : Console H) (log : String → String → Logger H) where
    -- A line inside a job.
    abbrev pub job_log : String → String → Entry → M H (Unit {0})
    job_log level message extra j =
        let (r, w) = log level message extra j.world in (r, record j { world = w })

    -- The payload of a body, with the lines about it.
    unfoldable pub load_payload : Value → String → H.World → Res Fields × H.World
    load_payload msg_id body w =
        if body == ""
        then and_then
            (log "debug" "Parsed payload"
              (with_item "msg_id" (json msg_id) (with_item "payload" (json (obj end)) done)) w)
            (λ _ w'. (ok end, w'))
        else elim (H.json_loads body) [
          | none ↦
              and_then
                (log "error" "JSON decode error"
                  (with_item "msg_id" (json msg_id)
                    (with_item "error" (text (c.decode_error body)) done))
                  w)
                (λ _ w'. (raise invalid_message, w'))
          | some (obj payload) ↦
              and_then
                (log "debug" "Parsed payload"
                  (with_item "msg_id" (json msg_id) (with_item "payload" (json (obj payload)) done))
                  w)
                (λ _ w'. (ok payload, w'))
          | some _ ↦ (raise invalid_message, w)
        ]

    -- Only a text has the slice that is logged of it.
    unfoldable pub read_body : Value → Value → H.World → Res Fields × H.World
    unfolding load_payload excerpt
    read_body msg_id (str body) w =
        and_then
          (log "debug" "Raw body"
            (with_item "msg_id" (json msg_id) (with_item "body" (text (excerpt body)) done)) w)
          (λ _ w'. load_payload msg_id body w')
    read_body msg_id _ w = (raise type_error, w)

    abbrev log_fifo : Value → FifoInfo → H.World → Res (Option FifoInfo) × H.World
    log_fifo msg_id info w =
        and_then
          (log "debug" "FIFO info"
            (with_item "msg_id" (json msg_id) (with_item "fifo_info" (fifo_item info) done)) w)
          (λ _ w'. (ok (some info), w'))

    -- `ctx.fifo_info`, with its line.
    unfoldable pub read_fifo :
        Value → QueueType → Fields → H.World → Res (Option FifoInfo) × H.World
    read_fifo msg_id fifo d w = elim (fifo_info (get_or "attributes" (obj end) d)) [
      | raise e ↦ (raise e, w)
      | ok info ↦ log_fifo msg_id info w
    ]
    read_fifo msg_id _ d w = (ok none, w)

    -- Up to the job.
    unfoldable pub prepare : App H → Fields → H.LambdaContext → H.World → Res (Job H) × H.World
    unfolding read_body fifo_info resolve_queue_type message_id read_fifo
    prepare app d context w =
        let msg_id = message_id (obj d) in
        and_then (log "info" "Starting record processing" (with_item "msg_id" (json msg_id) done) w)
          (λ _ w1. and_then (read_body msg_id (get_or "body" (str "") d) w1) (λ payload w2.
            elim (resolve_queue_type app (List.◌∷◌ (obj d) List.[])) [
              | raise e ↦ (raise e, w2)
              | ok queue_type ↦ and_then (read_fifo msg_id queue_type d w2) (λ info w3. (
                ok (record {
                  payload = payload;
                  ctx = new_context msg_id (obj d) context queue_type info;
                  world = w3;
                }),
                w3,
              ))
            ]))

    abbrev id_item : Value → Entry
    id_item msg_id = with_item "msg_id" (json msg_id) done

    abbrev result_now : M H Value
    result_now j = (ok j.ctx.handler_result, j)

    -- No router has taken the payload.
    unfoldable pub no_handler : App H → Value → M H Value
    unfolding no_handler_message
    no_handler app msg_id j =
        (job_log "error" (no_handler_message app j.payload) (
              with_item "msg_id" (json msg_id) (
                with_item "available_routes" (texts (available_routes app))
                  (with_item "available_routers" (texts (available_routers app)) done)))
            >> throw route_not_found)
          j

    -- The loop over the included routers, from the `i`-th one on.
    unfoldable pub try_from : App H → Value → ℕ → List ℕ → M H Value
    unfolding no_handler decimal
    try_from app msg_id i (List.[]) = no_handler app msg_id
    try_from app msg_id i (List.◌∷◌ id ids) = do
      job_log "debug" ("Trying router " <> decimal i) (
          with_item "msg_id" (json msg_id)
            (with_item "router_key" (text (discriminator_of app id)) done))
      handled ← dispatch app.depth app.heap id List.[]
      elim handled [
        | true ↦
            job_log "debug" ("Router " <> (decimal i <> " handled the message")) (id_item msg_id)
            >> result_now
        | false ↦
            job_log "debug" ("Router " <> (decimal i <> " did not handle the message"))
              (id_item msg_id)
            >> try_from app msg_id (suc i) ids
      ]

    -- The included routers; without any, no line is logged about them.
    abbrev pub try_included : App H → Value → List ℕ → M H Value
    try_included app msg_id (List.[]) = no_handler app msg_id
    try_included app msg_id (List.◌∷◌ id ids) =
        job_log "debug" "Trying routers" (
          with_item "msg_id" (json msg_id)
            (with_item "router_count" (json (int (pos (length (List.◌∷◌ id ids))))) done))
        >> try_from app msg_id 0 (List.◌∷◌ id ids)

    -- `_route`
    unfoldable pub route : App H → Value → M H Value
    unfolding try_from
    route app msg_id = do
      job_log "debug" "Trying main router" (id_item msg_id)
      handled ← dispatch app.depth app.heap main_router List.[]
      elim handled [
        | true ↦ job_log "debug" "Main router handled the message" (id_item msg_id) >> result_now
        | false ↦ try_included app msg_id app.routers
      ]

    -- How the record ends.
    unfoldable pub settle : Value → Res Value × Job H → Res Value × H.World
    settle msg_id (raise skip_message, j) =
        and_then
          (log "info" "Record skipped"
            (with_item "msg_id" (json msg_id)
              (with_item "reason" (text (c.error_message skip_message)) done))
            j.world)
          (λ _ w. (ok null, w))
    settle msg_id (raise e, j) = (raise e, j.world)
    settle msg_id (ok v, j) =
        and_then (log "info" "Record processing completed successfully" (id_item msg_id) j.world)
          (λ _ w. (ok v, w))

    -- `_handle_record`
    unfoldable pub handle_record : App H → Value → H.LambdaContext → H.World → Res Value × H.World
    unfolding prepare route settle message_id
    handle_record app (obj d) context w = and_then (prepare app d context w) (λ j _.
        settle (message_id (obj d))
          (run_middleware_stack app.middlewares (route app (message_id (obj d))) j))
    handle_record app _ context w = (raise invalid_message, w)

  abbrev pub with_installed : Console H → List (Installed H) → App H → App H
  with_installed c installed app = record app { middlewares = map (hooks c) installed }

  -- `_handle_record` of an application with these middlewares.
  unfoldable pub handle_logged :
      Console H
      → List (Installed H)
      → App H
      → Value
      → H.LambdaContext
      → H.World
      → Res Value × H.World
  unfolding handle_record app_log
  handle_logged c installed app =
      handle_record c (app_log c installed) (with_installed c installed app)
