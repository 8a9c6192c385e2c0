-- ===== src/Routing/Dispatch/Select/Refines.antt =====
-- `dispatch` performs what `select` chooses.
use mathlib.Core.List.{append-nil, append_assoc}
use fastsqs.Base.{ℕ, zero, suc, String, ◌<>◌, Bool, true, false, Option, none, some, List, [], ◌∷◌}
use fastsqs.Base.{
  ◌++◌, get_elem?, if◌then◌else◌, ◌≡◌, refl, sym, ◌∙◌, ap, arith, Option-cases, inl, inr,
}
use fastsqs.Base.{string_eq, Bool-cases}
use fastsqs.Base.Dict
use fastsqs.Value.{Value, null, truthy, Fields}
use fastsqs.Value.Print.{show}
use fastsqs.Value.Path.{resolve_payload_path}
use fastsqs.Exceptions.{Res, ok, raise}
use fastsqs.Types.{Host, Context}
use fastsqs.Run.{Job, M, pure, ◌>>=◌, ◌>>◌}
use fastsqs.Middleware.{Middleware, run_middleware_stack}
use fastsqs.Handlers.{Handler}
use fastsqs.Events.{EventModel}
use fastsqs.Routing.{Router, RouteEntry, PydanticRoute, find_route_of_value}
use fastsqs.Routing.Dispatch.{
  drop_last, push_path, not_handled, handled_by, execute_handler, invoke, combined, dispatch_entry,
  dispatch_key, dispatch_value, dispatch_found, dispatch_in, dispatch,
}
use fastsqs.Routing.Dispatch.Select.{
  Selection, unhandled, failed, chosen, at_path, typed, perform, under, serve, select_default,
  select_entry, select_value, select_found, select_in, select,
}

drop_last-concat {ℓ} : {A : Type ℓ} (xs : List A) (x : A) → drop_last (xs ++ x ∷ []) ≡ xs
drop_last-concat [] x = refl
drop_last-concat (y ∷ []) x = refl
drop_last-concat (y ∷ z ∷ xs) x = ap (◌∷◌ y) (drop_last-concat (z ∷ xs) x)

module _ {H : Host} where
  push-not_handled : (step : String) (j : Job H) → (push_path step >> not_handled) j ≡ (ok false, j)
  push-not_handled step j = rw drop_last-concat

  typed-at_path :
      (mt : Option Value) (step : String) (path : List String) (c : Context H)
      → typed mt (at_path path (at_path (step ∷ []) c)) ≡ typed mt (at_path (step ∷ path) c)
  typed-at_path none step path c = rw append_assoc
  typed-at_path (some v) step path c = rw append_assoc

  -- A computation that ends in `True` when it ends is never taken for an unhandled message.
  handled_then :
      (m : M H Value) (k : M H Bool) (j : Job H)
      → (do handled ← (m >> pure true); if handled then pure true else k) j ≡ (m >> pure true) j
  handled_then m k j = ground arith

  -- The subrouter's part of `dispatch_entry`, behind the step that was pushed.
  push-perform :
      (step : String) (s : Selection H) (j : Job H)
      → (do push_path step; handled ← perform s; if handled then pure true else not_handled) j
        ≡ perform (under step s) j
  unfolding perform
  push-perform step unhandled j = rw drop_last-concat
  push-perform step (failed path e) j = rw append_assoc
  push-perform step (chosen c) j =
      handled_then (run_middleware_stack c.middlewares (invoke c.handler c.model)) not_handled _
      ∙ rw typed-at_path

  push-serve :
      (step : String) (router : Router H) (handler : Handler H) (model : Option (EventModel H))
      (mws parent : List (Middleware H)) (j : Job H)
      → (push_path step >> handled_by router handler model mws parent) j
        ≡ perform (under step (serve none (parent ++ (router.middlewares ++ mws)) handler model)) j
  unfolding perform execute_handler
  push-serve step router handler model mws parent j = refl

  perform-serve :
      (mt : Option Value) (mws : List (Middleware H)) (handler : Handler H)
      (model : Option (EventModel H)) (j : Job H)
      → perform (serve mt mws handler model) j
        ≡ (run_middleware_stack mws (invoke handler model) >> pure true)
            (record j { ctx = typed mt j.ctx })
  unfolding perform
  perform-serve mt mws handler model j = rw append-nil

  module _ (recur : ℕ → List (Middleware H) → M H Bool)
      (chooses : Fields → ℕ → List (Middleware H) → Selection H)
      (agree : (sub : ℕ) (mws : List (Middleware H)) (j : Job H)
        → recur sub mws j ≡ perform (chooses j.payload sub mws) j) where
    dispatch_entry-select_entry :
        (step : String) (router : Router H) (entry : RouteEntry H) (parent : List (Middleware H))
        (j : Job H)
        → (push_path step >> dispatch_entry recur router entry parent) j
          ≡ perform (under step (select_entry (chooses j.payload) router entry parent)) j
    unfolding dispatch_entry select_entry perform
    dispatch_entry-select_entry step router entry parent j = elim (Option-cases entry.subrouter) [
      | inr (sub, e) ↦
          rw (e, agree) (push-perform step (chooses j.payload sub (combined router entry parent)) j)
      | inl e ↦ rw e (elim (Option-cases entry.handler) [
        | inr (h, e') ↦ rw e' (push-serve step router h entry.model entry.middlewares parent j)
        | inl e' ↦ rw (e', drop_last-concat)
      ])
    ]

    dispatch_default-select_default :
        (router : Router H) (parent : List (Middleware H)) (j : Job H)
        → dispatch_value recur router null parent j ≡ perform (select_default router parent) j
    unfolding dispatch_value perform execute_handler
    dispatch_default-select_default router parent j = elim (Option-cases router.default_handler) [
      | inr (h, e) ↦ rw e (sym (perform-serve none _ h none j))
      | inl e ↦ rw e
    ]

    dispatch_key-select :
        (router : Router H) (key : String) (parent : List (Middleware H)) (j : Job H)
        → dispatch_key recur router key parent j
          ≡ perform
              (under (router.discriminator <> ("=" <> key)) (elim (Dict.lookup key router.routes) [
                | some entry ↦ select_entry (chooses j.payload) router entry parent
                | none ↦ select_default router parent
              ]))
              j
    unfolding dispatch_key perform
    dispatch_key-select router key parent j =
        let step = router.discriminator <> ("=" <> key) in
        elim (Option-cases (Dict.lookup key router.routes)) [
          | inr (entry, e) ↦ rw e (dispatch_entry-select_entry step router entry parent j)
          | inl e ↦ rw e (elim (Option-cases router.default_handler) [
            | inr (h, d) ↦ rw d (push-serve step router h none [] parent j)
            | inl d ↦ rw d (push-perform step unhandled j)
          ])
        ]

    dispatch_value-select_value :
        (router : Router H) (v : Value) (parent : List (Middleware H)) (j : Job H)
        → dispatch_value recur router v parent j
          ≡ perform (select_value (chooses j.payload) router v parent) j
    unfolding dispatch_value select_value
    dispatch_value-select_value router null parent j =
        dispatch_default-select_default router parent j
    dispatch_value-select_value router v parent j = dispatch_key-select router (show v) parent j

    found-select :
        (router : Router H) (v : Value) (parent : List (Middleware H)) (j : Job H)
        (found : Res (Option (PydanticRoute H)))
        → dispatch_found recur router v parent found j
          ≡ perform (select_found (chooses j.payload) router v parent found) j
    unfolding dispatch_found select_found perform execute_handler
    found-select router v parent j (raise e) = rw append-nil
    found-select router v parent j (ok none) = dispatch_value-select_value router v parent j
    found-select router v parent j (ok (some route)) =
        sym (perform-serve (some v) _ route.handler (some route.event_model) j)

    dispatch_in-select_in :
        (router : Router H) (parent : List (Middleware H)) (j : Job H)
        → dispatch_in recur router parent j
          ≡ perform (select_in (chooses j.payload) router parent j.payload) j
    unfolding dispatch_in select_in
    dispatch_in-select_in router parent j =
        let v = resolve_payload_path j.payload router.discriminator in
        elim (Bool-cases (truthy v)) [
          | inl truth ↦ rw truth (found-select router v parent j (find_route_of_value router v))
          | inr falsity ↦ rw falsity (dispatch_value-select_value router v parent j)
        ]

  -- For every depth of calls, heap of routers, chain of parent middlewares and job: dispatching is
  -- performing what `select` chooses from the payload. So the choice does not depend on the
  -- context or the world, a message that no route takes leaves the whole job as it was, and a
  -- handled one runs one handler, once, inside the one chain of middlewares chosen for it.
  pub dispatch-select :
      (depth : ℕ) (heap : List (Router H)) (id : ℕ) (parent : List (Middleware H)) (j : Job H)
      → dispatch depth heap id parent j ≡ perform (select depth heap id parent j.payload) j
  unfolding dispatch select perform
  dispatch-select zero heap id parent j = rw append-nil
  dispatch-select (suc depth) heap id parent j = elim (Option-cases (get_elem? heap id)) [
    | inl e ↦ rw (e, dispatch, select, append-nil)
    | inr (router, e) ↦
        rw (e, dispatch, select)
          (dispatch_in-select_in (dispatch depth heap)
            (λ payload sub mws. select depth heap sub mws payload) (dispatch-select depth heap)
            router parent j)
  ]
