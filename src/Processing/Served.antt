-- ===== src/Processing/Served.antt =====
-- Which router serves a record: `_route` of fastsqs/processing.py as a choice.
use fastsqs.Base.{ℕ, true, false, List, [], ◌∷◌, ◌≡◌, refl}
use fastsqs.Value.{Value, Fields}
use fastsqs.Exceptions.{Res, ok, raise, route_not_found}
use fastsqs.Types.{Host}
use fastsqs.Run.{Job, M, bind_res, pure}
use fastsqs.Middleware.{run_middleware_stack}
use fastsqs.Routing.Dispatch.{invoke}
use fastsqs.Routing.Dispatch.Select.{
  Selection, unhandled, failed, chosen, at_path, typed, perform, select,
}
use fastsqs.Routing.Dispatch.Select.Refines.{dispatch-select}
use fastsqs.App.{App, main_router}
use fastsqs.Processing.{route, try_routers}

module _ {H : Host} where
  abbrev pub or_else : Selection H → Selection H → Selection H
  or_else unhandled later = later
  or_else s later = s

  -- The first of the routers that takes the payload.
  unfoldable pub select_first : App H → List ℕ → Fields → Selection H
  select_first app [] payload = unhandled
  select_first app (id ∷ ids) payload =
      or_else (select app.depth app.heap id [] payload) (select_first app ids payload)

  abbrev result_of : Job H → Res Value × Job H
  result_of j = (ok j.ctx.handler_result, j)

  -- What a record is answered.
  unfoldable pub answer : Selection H → M H Value
  answer unhandled j = (raise route_not_found, j)
  answer (failed path e) j = (raise e, record j { ctx = at_path path j.ctx })
  answer (chosen c) j =
      bind_res
        (run_middleware_stack c.middlewares (invoke c.handler c.model)
          (record j { ctx = typed c.message_type (at_path c.path j.ctx) }))
        (λ v j'. result_of j')

  then_true :
      (out : Res Value × Job H) (k : M H Value)
      → bind_res
          (bind_res out (λ v. pure true))
          (λ handled. elim handled [ true ↦ (λ j. (ok j.ctx.handler_result, j)) | false ↦ k ])
        ≡ bind_res out (λ v j'. result_of j')
  then_true (ok v, j) k = refl
  then_true (raise e, j) k = refl

  perform-answer :
      (s later : Selection H) (k : M H Value) (j : Job H)
      → k j ≡ answer later j
      → bind_res
          (perform s j)
          (λ handled. elim handled [ true ↦ (λ j'. (ok j'.ctx.handler_result, j')) | false ↦ k ])
        ≡ answer (or_else s later) j
  unfolding perform answer
  perform-answer unhandled later k j h = h
  perform-answer (failed path e) later k j h = refl
  perform-answer (chosen c) later k j h = then_true _ k

  try_routers-select_first :
      (app : App H) (ids : List ℕ) (j : Job H)
      → try_routers app ids j ≡ answer (select_first app ids j.payload) j
  unfolding try_routers select_first answer
  try_routers-select_first app [] j = refl
  try_routers-select_first app (id ∷ ids) j = rw (dispatch-select app.depth app.heap id [] j) (
      perform-answer (select app.depth app.heap id [] j.payload) (select_first app ids j.payload)
        (try_routers app ids) j (try_routers-select_first app ids j))

  -- Routing a record is answering it by the first of the main router and the included ones, in
  -- order, that takes its payload: a router that takes none leaves no trace; if no router takes it,
  -- `RouteNotFoundError` is raised, with the job as it was; and the router that takes it runs one
  -- handler, whose outcome is the answer.
  pub route-select_first :
      (app : App H) (j : Job H)
      → route app j ≡ answer (select_first app (main_router ∷ app.routers) j.payload) j
  unfolding route
  route-select_first app j = try_routers-select_first app (main_router ∷ app.routers) j
