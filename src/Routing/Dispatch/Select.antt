-- ===== src/Routing/Dispatch/Select.antt =====
-- Dispatch as a decision and its execution: which route serves a payload is a pure function of the
-- registered routers and the payload.
pub mod Refines
pub mod Depth
use fastsqs.Base.{ℕ, zero, suc, String, ◌<>◌, Bool, true, false, Option, none, some, List, [], ◌∷◌}
use fastsqs.Base.{◌++◌, ◌==◌, string_eq, get_elem?, if◌then◌else◌}
use fastsqs.Base.Dict
use fastsqs.Value.{Value, null, str, truthy, Fields}
use fastsqs.Value.Print.{show}
use fastsqs.Value.Path.{resolve_payload_path}
use fastsqs.Exceptions.{Exn, Res, ok, raise, attribute_error, recursion_error}
use fastsqs.Types.{Host, Context}
use fastsqs.Run.{Job, M, pure, ◌>>=◌, ◌>>◌}
use fastsqs.Middleware.{Middleware, run_middleware_stack}
use fastsqs.Handlers.{Handler}
use fastsqs.Events.{EventModel}
use fastsqs.Routing.{Router, RouteEntry, PydanticRoute, find_route_of_value}
use fastsqs.Routing.Dispatch.{invoke, combined}

-- What serves a message: the steps that `route_path` gains, the message type if it is set, the
-- whole chain of middlewares, the handler and its model.
pub record Choice (H : Host) : Type 0 where
  pub path : List String
  pub message_type : Option Value
  pub middlewares : List (Middleware H)
  pub handler : Handler H
  pub model : Option (EventModel H)

pub data Selection (H : Host) : Type 0 where
  unhandled : Selection H
  failed : List String → Exn → Selection H
  chosen : Choice H → Selection H

module _ {H : Host} where
  abbrev pub at_path : List String → Context H → Context H
  at_path path c = record c { route_path = c.route_path ++ path }

  abbrev pub typed : Option Value → Context H → Context H
  typed none c = c
  typed (some v) c = record c { message_type = v }

  -- Nothing changes but for the route that is chosen.
  unfoldable pub perform : Selection H → M H Bool
  perform unhandled j = (ok false, j)
  perform (failed path e) j = (raise e, record j { ctx = at_path path j.ctx })
  perform (chosen c) j =
      (do run_middleware_stack c.middlewares (invoke c.handler c.model); pure true)
        (record j { ctx = typed c.message_type (at_path c.path j.ctx) })

  abbrev pub under : String → Selection H → Selection H
  under step unhandled = unhandled
  under step (failed path e) = failed (step ∷ path) e
  under step (chosen c) = chosen (record c { path = step ∷ c.path })

  abbrev pub serve :
      Option Value → List (Middleware H) → Handler H → Option (EventModel H) → Selection H
  serve message_type middlewares handler model = chosen (record {
    path = [];
    message_type = message_type;
    middlewares = middlewares;
    handler = handler;
    model = model;
  })

  -- The default handler, if there is one.
  abbrev pub select_default : Router H → List (Middleware H) → Selection H
  select_default router parent = elim router.default_handler [
    | some handler ↦ serve none (parent ++ (router.middlewares ++ [])) handler none
    | none ↦ unhandled
  ]

  module _ (recur : ℕ → List (Middleware H) → Selection H) where
    -- A subrouter takes precedence over the entry's own handler.
    unfoldable pub select_entry : Router H → RouteEntry H → List (Middleware H) → Selection H
    select_entry router entry parent = elim entry.subrouter [
      | some sub ↦ recur sub (combined router entry parent)
      | none ↦ elim entry.handler [
        | some handler ↦
            serve none (parent ++ (router.middlewares ++ entry.middlewares)) handler entry.model
        | none ↦ unhandled
      ]
    ]

    unfoldable pub select_value : Router H → Value → List (Middleware H) → Selection H
    unfolding select_entry
    select_value router null parent = select_default router parent
    select_value router v parent =
        under (router.discriminator <> ("=" <> show v)) (elim (Dict.lookup (show v) router.routes) [
          | some entry ↦ select_entry router entry parent
          | none ↦ select_default router parent
        ])

    -- A pydantic route takes precedence over the key-value routes.
    unfoldable pub select_found :
        Router H → Value → List (Middleware H) → Res (Option (PydanticRoute H)) → Selection H
    select_found router v parent (raise e) = failed [] e
    select_found router v parent (ok none) = select_value router v parent
    select_found router v parent (ok (some route)) =
        serve (some v) (parent ++ (router.middlewares ++ route.middlewares)) route.handler
          (some route.event_model)

    unfoldable pub select_in : Router H → List (Middleware H) → Fields → Selection H
    unfolding select_value select_found
    select_in router parent payload =
        let v = resolve_payload_path payload router.discriminator in
        if truthy v
        then select_found router v parent (find_route_of_value router v)
        else select_value router v parent

  unfoldable pub select : ℕ → List (Router H) → ℕ → List (Middleware H) → Fields → Selection H
  unfolding select_in
  select zero heap id parent payload = failed [] recursion_error
  select (suc depth) heap id parent payload = elim (get_elem? heap id) [
    | none ↦ failed [] attribute_error
    | some router ↦ select_in (λ sub mws. select depth heap sub mws payload) router parent payload
  ]
