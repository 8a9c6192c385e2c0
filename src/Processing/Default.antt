-- ===== src/Processing/Default.antt =====
-- The application's default handler and the included routers.
use fastsqs.Base.{ℕ, suc, Bool, true, false, Option, none, some, List, [], ◌≡◌}
use fastsqs.Base.{refl, get_elem?, string_eq, Bool-cases, inl, inr}
use fastsqs.Base.Dict
use fastsqs.Value.{Value, null, truthy, Fields}
use fastsqs.Value.Print.{show}
use fastsqs.Value.Path.{resolve_payload_path}
use fastsqs.Exceptions.{Res, ok, raise}
use fastsqs.Types.{Host}
use fastsqs.Run.{Job, M, pure, bind_res}
use fastsqs.Middleware.{Middleware}
use fastsqs.Handlers.{Handler}
use fastsqs.Routing.{Router, PydanticRoute, find_route_of_value}
use fastsqs.Routing.Dispatch.{dispatch}
use fastsqs.Routing.Dispatch.Select.{
  Selection, unhandled, failed, chosen, perform, select_value, select_found, select_in, select,
}
use fastsqs.Routing.Dispatch.Select.Refines.{dispatch-select}
use fastsqs.App.{App, main_router}
use fastsqs.Processing.{route, try_routers}

abbrev Takes : {H : Host} → Selection H → Type 0
Takes unhandled = ⊥
Takes _ = Unit

-- A dispatch that does not answer `False`.
abbrev Answers : {H : Host} → Res Bool × Job H → Type 0
Answers (ok false, j) = ⊥
Answers _ = Unit

module _ {H : Host} where
  then_true-Answers : (out : Res Value × Job H) → Answers (bind_res out (λ _. pure true))
  then_true-Answers (ok v, j) = tt
  then_true-Answers (raise e, j) = tt

  perform-Answers : (s : Selection H) (j : Job H) → Takes s → Answers (perform s j)
  unfolding perform
  perform-Answers unhandled j t = t
  perform-Answers (failed path e) j t = tt
  perform-Answers (chosen c) j t = then_true-Answers _

  module _ (recur : ℕ → List (Middleware H) → Selection H) (router : Router H) (h : Handler H)
      (fallback : router.default_handler ≡ some h) where
    select_value-Takes :
        (v : Value) (parent : List (Middleware H))
        → Dict.lookup (show v) router.routes ≡ none
        → Takes (select_value recur router v parent)
    unfolding select_value
    select_value-Takes null parent absent = rw fallback tt
    select_value-Takes v parent absent = rw (absent, fallback) tt

    select_found-Takes :
        (v : Value) (parent : List (Middleware H)) (found : Res (Option (PydanticRoute H)))
        → Dict.lookup (show v) router.routes ≡ none
        → Takes (select_found recur router v parent found)
    unfolding select_found
    select_found-Takes v parent (raise e) absent = tt
    select_found-Takes v parent (ok none) absent = select_value-Takes v parent absent
    select_found-Takes v parent (ok (some route)) absent = tt

    select_in-Takes :
        (parent : List (Middleware H)) (payload : Fields)
        → Dict.lookup (show (resolve_payload_path payload router.discriminator)) router.routes
          ≡ none
        → Takes (select_in recur router parent payload)
    unfolding select_in
    select_in-Takes parent payload absent =
        let v = resolve_payload_path payload router.discriminator in
        elim (Bool-cases (truthy v)) [
          | inl t ↦ rw t (select_found-Takes v parent (find_route_of_value router v) absent)
          | inr f ↦ rw f (select_value-Takes v parent absent)
        ]

  dispatch-Answers :
      (r : Router H) (h : Handler H) (depth d id : ℕ) (heap : List (Router H)) (j : Job H)
      → get_elem? heap id ≡ some r
      → r.default_handler ≡ some h
      → Dict.lookup (show (resolve_payload_path j.payload r.discriminator)) r.routes ≡ none
      → depth ≡ suc d
      → Answers (dispatch depth heap id [] j)
  unfolding select
  dispatch-Answers r h depth d id heap j main fallback absent deep =
      rw (deep, dispatch-select, main, select)
        (perform-Answers _ j (
          select_in-Takes (λ sub mws. select d heap sub mws j.payload) r h fallback [] j.payload
            absent))

  try_routers-Answers :
      (out : Res Bool × Job H) (k k' : M H Value)
      → Answers out
      → bind_res out
          (λ handled. elim handled [ true ↦ (λ j. (ok j.ctx.handler_result, j)) | false ↦ k ])
        ≡ bind_res out
            (λ handled. elim handled [ true ↦ (λ j. (ok j.ctx.handler_result, j)) | false ↦ k' ])
  try_routers-Answers (ok true, j) k k' a = refl
  try_routers-Answers (ok false, j) k k' a = absurd a
  try_routers-Answers (raise e, j) k k' a = refl

  -- If the application's own router has a default handler, and has no key-value route or subrouter
  -- for the value of the discriminator, then the included routers are never tried: the record is
  -- processed as if there were none, whatever routes they have.
  pub route_default_shadows :
      (app : App H) (r : Router H) (h : Handler H) (d : ℕ) (j : Job H)
      → get_elem? app.heap main_router ≡ some r
      → r.default_handler ≡ some h
      → Dict.lookup (show (resolve_payload_path j.payload r.discriminator)) r.routes ≡ none
      → app.depth ≡ suc d
      → route app j ≡ route (record app { routers = [] }) j
  unfolding route try_routers
  route_default_shadows app r h d j main fallback absent deep =
      try_routers-Answers (dispatch app.depth app.heap main_router [] j) _ _
        (dispatch-Answers r h app.depth d main_router app.heap j main fallback absent deep)
