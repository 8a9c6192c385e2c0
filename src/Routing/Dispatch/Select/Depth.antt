-- ===== src/Routing/Dispatch/Select/Depth.antt =====
-- How deep the routers nest bounds the depth of calls.
use fastsqs.Base.{ℕ, zero, suc, ◌<◌, String, ◌<>◌, Option, none, some, List, ◌≡◌}
use fastsqs.Base.{refl, ap, arith, get_elem?, string_eq, Option-cases, inl, inr}
use fastsqs.Base.Dict
use fastsqs.Value.{Value, null, Fields}
use fastsqs.Value.Print.{show}
use fastsqs.Value.Path.{resolve_payload_path}
use fastsqs.Exceptions.{Res, ok, raise}
use fastsqs.Types.{Host}
use fastsqs.Run.{Job}
use fastsqs.Middleware.{Middleware}
use fastsqs.Routing.{Router, RouteEntry, PydanticRoute, find_route_of_value}
use fastsqs.Routing.Dispatch.{dispatch}
use fastsqs.Routing.Dispatch.Select.{
  Selection, perform, under, select_default, select_entry, select_value, select_found, select_in,
  select,
}
use fastsqs.Routing.Dispatch.Select.Refines.{dispatch-select}

module _ {H : Host} where
  -- A subrouter has a lower rank than the routers that lead to it: no router is its own subrouter,
  -- directly or through others.
  pub record IsRanked (heap : List (Router H)) (rank : ℕ → ℕ) : Type 0 where
    pub descends :
        (id sub : ℕ) (key : String) (router : Router H) (entry : RouteEntry H)
        → get_elem? heap id ≡ some router
        → Dict.lookup key router.routes ≡ some entry
        → entry.subrouter ≡ some sub
        → rank sub < rank id

  module _ (f g : ℕ → List (Middleware H) → Selection H) (router : Router H)
      (agree : (sub : ℕ) (key : String) (entry : RouteEntry H) (mws : List (Middleware H))
        → Dict.lookup key router.routes ≡ some entry
        → entry.subrouter ≡ some sub
        → f sub mws ≡ g sub mws) where
    select_entry-agree :
        (key : String) (entry : RouteEntry H) (parent : List (Middleware H))
        → Dict.lookup key router.routes ≡ some entry
        → select_entry f router entry parent ≡ select_entry g router entry parent
    unfolding select_entry
    select_entry-agree key entry parent listed = elim (Option-cases entry.subrouter) [
      | inl e ↦ rw (e, select_entry)
      | inr (sub, e) ↦ rw (e, select_entry) (agree sub key entry _ listed e)
    ]

    select_key-agree :
        (v : Value) (parent : List (Middleware H))
        → under
            (router.discriminator <> ("=" <> show v))
            (elim (Dict.lookup (show v) router.routes) [
              | some entry ↦ select_entry f router entry parent
              | none ↦ select_default router parent
            ])
          ≡ under
              (router.discriminator <> ("=" <> show v))
              (elim (Dict.lookup (show v) router.routes) [
                | some entry ↦ select_entry g router entry parent
                | none ↦ select_default router parent
              ])
    select_key-agree v parent = elim (Option-cases (Dict.lookup (show v) router.routes)) [
      | inl e ↦ rw e
      | inr (entry, e) ↦ rw e (rw (select_entry-agree (show v) entry parent e))
    ]

    select_value-agree :
        (v : Value) (parent : List (Middleware H))
        → select_value f router v parent ≡ select_value g router v parent
    unfolding select_value
    select_value-agree null parent = refl
    select_value-agree v parent = select_key-agree v parent

    select_found-agree :
        (v : Value) (parent : List (Middleware H)) (found : Res (Option (PydanticRoute H)))
        → select_found f router v parent found ≡ select_found g router v parent found
    unfolding select_found
    select_found-agree v parent (raise e) = refl
    select_found-agree v parent (ok none) = select_value-agree v parent
    select_found-agree v parent (ok (some route)) = refl

    select_in-agree :
        (parent : List (Middleware H)) (payload : Fields)
        → select_in f router parent payload ≡ select_in g router parent payload
    unfolding select_in
    select_in-agree parent payload =
        let v = resolve_payload_path payload router.discriminator in
        rw (select_found-agree v parent (find_route_of_value router v), select_value-agree v parent)

  module _ (heap : List (Router H)) (rank : ℕ → ℕ) (ranked : IsRanked heap rank) where
    select-depth :
        (d d' id : ℕ) (parent : List (Middleware H)) (payload : Fields)
        → rank id < d
        → rank id < d'
        → select d heap id parent payload ≡ select d' heap id parent payload
    unfolding select
    select-depth zero d' id parent payload h h' = absurd (omega arith)
    select-depth (suc d) zero id parent payload h h' = absurd (omega arith)
    select-depth (suc d) (suc d') id parent payload h h' = elim (Option-cases (get_elem? heap id)) [
      | inl e ↦ rw (e, select)
      | inr (router, e) ↦
          rw (e, select)
            (select_in-agree (λ sub mws. select d heap sub mws payload)
              (λ sub mws. select d' heap sub mws payload) router
              (λ sub key entry mws listed nested.
                let lower = ranked.descends id sub key router entry e listed nested in
                select-depth d d' sub mws payload (omega arith) (omega arith))
              parent payload)
    ]

    -- Where the routers nest without a cycle, the depth of calls has no effect on a dispatch once it
    -- exceeds the rank of the router.
    pub dispatch-depth :
        (d d' id : ℕ) (parent : List (Middleware H)) (j : Job H)
        → rank id < d
        → rank id < d'
        → dispatch d heap id parent j ≡ dispatch d' heap id parent j
    dispatch-depth d d' id parent j h h' =
        rw (dispatch-select d heap id parent j, dispatch-select d' heap id parent j)
          (ap (λ s. perform s j) (select-depth d d' id parent j.payload h h'))
