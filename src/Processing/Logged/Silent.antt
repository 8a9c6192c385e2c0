-- ===== src/Processing/Logged/Silent.antt =====
-- The log lines of `_handle_record` where the logger does nothing.
use fastsqs.Base.{ℕ, suc, String, Bool, true, false, List, [], ◌∷◌, ◌≡◌, refl, ap, ◌∙◌}
use fastsqs.Base.{fun_ext, arith, string_eq}
use fastsqs.Value.{Value, null, bool, int, float, str, arr, obj, Fields, get_or}
use fastsqs.Exceptions.{Res, ok, raise}
use fastsqs.Types.{Host, QueueType, auto, standard, fifo}
use fastsqs.Run.{Job, M, bind_res}
use fastsqs.Routing.Dispatch.{dispatch}
use fastsqs.App.{App, main_router}
use fastsqs.Logging.{Console, Logger, Installed, app_log}
use fastsqs.Processing
use fastsqs.Processing.{parse_body, fifo_info_of, message_id, try_routers}
use fastsqs.Processing.Logged.{
  load_payload, read_body, read_fifo, prepare, route, try_from, no_handler, settle, handle_record,
  handle_logged, try_included, with_installed,
}

module _ {H : Host} (c : Console H) where
  abbrev pub silent : String → String → Logger H
  silent level message extra w = (ok tt, w)

  read_body-parse_body :
      (msg_id body : Value) (w : H.World)
      → read_body c silent msg_id body w ≡ (parse_body H.json_loads body, w)
  unfolding read_body load_payload parse_body
  read_body-parse_body msg_id null w = refl
  read_body-parse_body msg_id (bool _) w = refl
  read_body-parse_body msg_id (int _) w = refl
  read_body-parse_body msg_id (float _) w = refl
  read_body-parse_body msg_id (arr _) w = refl
  read_body-parse_body msg_id (obj _) w = refl
  read_body-parse_body msg_id (str body) w = ground arith

  read_fifo-fifo_info_of :
      (msg_id : Value) (q : QueueType) (d : Fields) (w : H.World)
      → read_fifo c silent msg_id q d w ≡ (fifo_info_of q d, w)
  unfolding read_fifo
  read_fifo-fifo_info_of msg_id auto d w = refl
  read_fifo-fifo_info_of msg_id standard d w = refl
  read_fifo-fifo_info_of msg_id fifo d w = ground arith

  prepare-silent :
      (app : App H) (d : Fields) (context : H.LambdaContext) (w : H.World)
      → prepare c silent app d context w ≡ (Processing.prepare app d context w, w)
  unfolding prepare Processing.prepare
  prepare-silent app d context w =
      rw (read_body-parse_body (message_id (obj d)) (get_or "body" (str "") d) w, read_body)
        (ground (arith, read_fifo-fifo_info_of (message_id (obj d))))

  -- What is done after a dispatch, where both ways of going on agree.
  then_either :
      (out : Res Bool × Job H) (f f' g g' : M H Value)
      → ((j : Job H) → f j ≡ f' j)
      → ((j : Job H) → g j ≡ g' j)
      → bind_res out (λ handled. elim handled [ true ↦ f | false ↦ g ])
        ≡ bind_res out (λ handled. elim handled [ true ↦ f' | false ↦ g' ])
  then_either (ok true, j) f f' g g' same same' = same j
  then_either (ok false, j) f f' g g' same same' = same' j
  then_either (raise e, j) f f' g g' same same' = refl

  try_from-silent :
      (app : App H) (msg_id : Value) (i : ℕ) (ids : List ℕ) (j : Job H)
      → try_from c silent app msg_id i ids j ≡ try_routers app ids j
  unfolding try_from try_routers no_handler
  try_from-silent app msg_id i [] j = refl
  try_from-silent app msg_id i (id ∷ ids) j =
      then_either (dispatch app.depth app.heap id [] j) _ _ _ _ (λ j'. refl)
        (λ j'. try_from-silent app msg_id (suc i) ids j')

  included_silent :
      (app : App H) (msg_id : Value) (ids : List ℕ) (j : Job H)
      → try_included c silent app msg_id ids j ≡ try_routers app ids j
  unfolding try_routers no_handler
  included_silent app msg_id [] j = refl
  included_silent app msg_id (id ∷ ids) j = try_from-silent app msg_id 0 (id ∷ ids) j

  route-silent : (app : App H) (msg_id : Value) → route c silent app msg_id ≡ Processing.route app
  unfolding route Processing.route try_routers
  route-silent app msg_id = fun_ext (λ j.
      then_either (dispatch app.depth app.heap main_router [] j) _ _ _ _ (λ j'. refl)
        (λ j'. included_silent app msg_id app.routers j'))

  settle-silent :
      (msg_id : Value) (out : Res Value × Job H)
      → settle c silent msg_id out ≡ Processing.settle out
  unfolding settle
  settle-silent msg_id (ok v, j) = refl
  settle-silent msg_id (raise e, j) = ground arith

  pub handle_record-silent :
      (app : App H) (v : Value) (context : H.LambdaContext) (w : H.World)
      → handle_record c silent app v context w ≡ Processing.handle_record app v context w
  unfolding handle_record Processing.handle_record
  handle_record-silent app (obj d) context w =
      rw (prepare-silent app d context w, prepare, route-silent app (message_id (obj d)), route)
        (ground (arith, settle-silent (message_id (obj d))))
  handle_record-silent app null context w = refl
  handle_record-silent app (bool _) context w = refl
  handle_record-silent app (int _) context w = refl
  handle_record-silent app (float _) context w = refl
  handle_record-silent app (str _) context w = refl
  handle_record-silent app (arr _) context w = refl

  -- Where no log line raises or changes the world, as with no logging middleware among those of the
  -- application: a record is processed with its log lines as it is without them, whatever the
  -- routers, the middlewares, the record and the world.
  pub handle_logged-silent :
      (installed : List (Installed H)) (app : App H)
      → ((level message : String) → app_log c installed level message ≡ silent level message)
      → (v : Value) (context : H.LambdaContext) (w : H.World)
      → handle_logged c installed app v context w
        ≡ Processing.handle_record (with_installed c installed app) v context w
  unfolding handle_logged
  handle_logged-silent installed app quiet v context w =
      ap (λ log. handle_record c log (with_installed c installed app) v context w)
        (fun_ext (λ level. fun_ext (λ message. quiet level message)))
      ∙ handle_record-silent (with_installed c installed app) v context w
