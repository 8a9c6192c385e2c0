-- ===== src/Routing/Dispatch.antt =====
-- `dispatch` and `_execute_handler` of `SQSRouter`.
pub mod Select
use fastsqs.Base.{ℕ, zero, suc, String, ◌<>◌, Bool, true, false, Option, none, some, List, [], ◌∷◌}
use fastsqs.Base.{◌++◌, ◌==◌, string_eq, get_elem?, if◌then◌else◌}
use fastsqs.Base.Dict
use fastsqs.Value.{Value, null, str, truthy}
use fastsqs.Value.Print.{show}
use fastsqs.Value.Path.{resolve_payload_path}
use fastsqs.Exceptions.{Exn, Res, ok, raise, invalid_message, validation_error, attribute_error}
use fastsqs.Exceptions.{recursion_error}
use fastsqs.Types.{Host, Context}
use fastsqs.Run.{Job, M, pure, throw, lift, modify_ctx, ◌>>=◌, ◌>>◌}
use fastsqs.Middleware.{Middleware, run_middleware_stack}
use fastsqs.Handlers.{Handler, Arg, invoke_handler}
use fastsqs.Events.{EventModel}
use fastsqs.Routing.{Router, RouteEntry, PydanticRoute, find_route_of_value}

-- `list.pop()`, with what is left.
abbrev pub drop_last {ℓ} : {A : Type ℓ} → List A → List A
drop_last [] = []
drop_last (x ∷ []) = []
drop_last (x ∷ y ∷ xs) = x ∷ drop_last (y ∷ xs)

module _ {H : Host} where
  abbrev pub push_path : String → M H (Unit {0})
  push_path step = modify_ctx (λ c. record c { route_path = c.route_path ++ (step ∷ []) })

  abbrev pub pop_path : M H (Unit {0})
  pop_path = modify_ctx (λ c. record c { route_path = drop_last c.route_path })

  -- The message that the handler is given.
  unfoldable pub validated : Option (EventModel H) → M H H.Msg
  validated none j = (H.sqs_event_validate j.payload, j)
  validated (some model) j = elim (model.model_validate j.payload) [
    | ok msg ↦ (ok msg, j)
    | raise validation_error ↦ (raise invalid_message, j)
    | raise e ↦ (raise e, j)
  ]

  abbrev kwargs : H.Msg → Dict.Dict String (Arg H)
  kwargs msg =
      ("msg", Arg.msg msg)
      ∷ ("payload", Arg.payload)
      ∷ ("record", Arg.sqs_record)
      ∷ ("context", Arg.lambda_context)
      ∷ ("ctx", Arg.ctx)
      ∷ []

  -- `_invoke`
  unfoldable pub invoke : Handler H → Option (EventModel H) → M H Value
  unfolding validated
  invoke handler model = do
    msg ← validated model
    result ← invoke_handler handler (kwargs msg)
    modify_ctx (λ c. record c { handler_result = result })
    pure result

  -- `_execute_handler`
  unfoldable pub execute_handler :
      Router H
      → Handler H
      → Option (EventModel H)
      → List (Middleware H)
      → List (Middleware H)
      → M H Value
  execute_handler router handler model route_middlewares parent_middlewares =
      run_middleware_stack (parent_middlewares ++ (router.middlewares ++ route_middlewares))
        (invoke handler model)

  -- A handler is executed, and the message counts as handled.
  abbrev pub handled_by :
      Router H
      → Handler H
      → Option (EventModel H)
      → List (Middleware H)
      → List (Middleware H)
      → M H Bool
  handled_by router handler model route_middlewares parent_middlewares = do
    execute_handler router handler model route_middlewares parent_middlewares
    pure true

  abbrev pub not_handled : M H Bool
  not_handled = pop_path >> pure false

  abbrev pub combined : Router H → RouteEntry H → List (Middleware H) → List (Middleware H)
  combined router entry parent_middlewares =
      if router.inherit_middlewares
      then parent_middlewares ++ (router.middlewares ++ entry.middlewares)
      else entry.middlewares

  -- `recur` dispatches to a subrouter.
  module _ (recur : ℕ → List (Middleware H) → M H Bool) where
    unfoldable pub dispatch_entry : Router H → RouteEntry H → List (Middleware H) → M H Bool
    dispatch_entry router entry parent = elim entry.subrouter [
      | some sub ↦ do
        handled ← recur sub (combined router entry parent)
        if handled then pure true else not_handled
      | none ↦ elim entry.handler [
        | some handler ↦ handled_by router handler entry.model entry.middlewares parent
        | none ↦ not_handled
      ]
    ]

    unfoldable pub dispatch_key : Router H → String → List (Middleware H) → M H Bool
    unfolding dispatch_entry
    dispatch_key router key parent = do
      push_path (router.discriminator <> ("=" <> key))
      elim (Dict.lookup key router.routes) [
        | some entry ↦ dispatch_entry router entry parent
        | none ↦ elim router.default_handler [
          | some handler ↦ handled_by router handler none [] parent
          | none ↦ not_handled
        ]
      ]

    -- Key-value routing.
    unfoldable pub dispatch_value : Router H → Value → List (Middleware H) → M H Bool
    unfolding dispatch_key
    dispatch_value router null parent = elim router.default_handler [
      | some handler ↦ handled_by router handler none [] parent
      | none ↦ pure false
    ]
    dispatch_value router v parent = dispatch_key router (show v) parent

    -- Behind the search for a pydantic route.
    unfoldable pub dispatch_found :
        Router H → Value → List (Middleware H) → Res (Option (PydanticRoute H)) → M H Bool
    dispatch_found router v parent (raise e) = throw e
    dispatch_found router v parent (ok none) = dispatch_value router v parent
    dispatch_found router v parent (ok (some route)) = do
      modify_ctx (λ c. record c { message_type = v })
      handled_by router route.handler (some route.event_model) route.middlewares parent

    -- The body of `dispatch`.
    unfoldable pub dispatch_in : Router H → List (Middleware H) → M H Bool
    unfolding dispatch_value dispatch_found
    dispatch_in router parent j =
        let v = resolve_payload_path j.payload router.discriminator in
        if truthy v
        then dispatch_found router v parent (find_route_of_value router v) j
        else dispatch_value router v parent j

  -- `dispatch` of the router at a place of the heap. The fuel is the depth of calls that Python
  -- allows. No reference leads out of the heap.
  unfoldable pub dispatch : ℕ → List (Router H) → ℕ → List (Middleware H) → M H Bool
  unfolding dispatch_in
  dispatch zero heap id parent = throw recursion_error
  dispatch (suc depth) heap id parent = elim (get_elem? heap id) [
    | none ↦ throw attribute_error
    | some router ↦ dispatch_in (dispatch depth heap) router parent
  ]
