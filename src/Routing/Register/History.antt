-- ===== src/Routing/Register/History.antt =====
-- Routers after any history of registrations.
use fastsqs.Base.{ℕ, String, Bool, Option, List, [], ◌∷◌, ◌≡◌}
use fastsqs.Exceptions.{ok}
use fastsqs.Types.{Host}
use fastsqs.Middleware.{Middleware}
use fastsqs.Handlers.{Handler}
use fastsqs.Events.{EventModel}
use fastsqs.Routing.{Router, PydanticRoute, new_router, find_pydantic_route}
use fastsqs.Routing.Register.{
  RouteArg, RouteValue, route, set_default, add_subrouter, add_middleware,
}
use fastsqs.Routing.Register.Sound.{
  IsSound, new_router-IsSound, route-IsSound, add_subrouter-IsSound, find_pydantic_route_total,
}

-- What may be registered with a router.
pub data Registration (H : Host) : Type 0 where
  add_route : RouteArg H → Option (EventModel H) → List (Middleware H) → Handler H → Registration H
  add_default : Handler H → Registration H
  nest_router : List RouteValue → ℕ → Registration H
  wrap_all : Middleware H → Registration H

module _ {H : Host} (fd_inject : Handler H → Handler H) where
  -- The router that a registration leaves behind, whether it succeeds or raises.
  pub register : Registration H → Router H → Router H
  register (add_route value model mws h) router = (route fd_inject router value model mws h).0
  register (add_default h) router = (set_default fd_inject router h).0
  register (nest_router vs sub) router = add_subrouter router sub vs
  register (wrap_all mw) router = add_middleware router mw

  unfoldable pub register_all : List (Registration H) → Router H → Router H
  unfolding register
  register_all [] router = router
  register_all (op ∷ ops) router = register_all ops (register op router)

  register-IsSound :
      (op : Registration H) (router : Router H) → IsSound router → IsSound (register op router)
  unfolding register set_default add_middleware
  register-IsSound (add_route value model mws h) router s =
      route-IsSound fd_inject router value model mws h s
  register-IsSound (add_default h) router s = record {
    targets = s.targets;
    unshadowed = s.unshadowed;
  }
  register-IsSound (nest_router vs sub) router s = add_subrouter-IsSound vs router sub s
  register-IsSound (wrap_all mw) router s = record {
    targets = s.targets;
    unshadowed = s.unshadowed;
  }

  register_all-IsSound :
      (ops : List (Registration H)) (router : Router H)
      → IsSound router
      → IsSound (register_all ops router)
  unfolding register_all
  register_all-IsSound [] router s = s
  register_all-IsSound (op ∷ ops) router s =
      register_all-IsSound ops (register op router) (register-IsSound op router s)

  -- A new router, after any history of registrations with it (routes, defaults, subrouters and
  -- middlewares, those that raise included), is sound: a variant leads to a registered message type,
  -- and a message type with a pydantic route has no key-value handler, which it would shadow.
  pub new_router-registered :
      (ops : List (Registration H)) (base : Option ℕ) (discriminator : String)
      (inherit flexible : Bool)
      → IsSound (register_all ops (new_router base discriminator inherit flexible))
  new_router-registered ops base discriminator inherit flexible =
      register_all-IsSound ops _ (new_router-IsSound base discriminator inherit flexible)

  -- After any history of registrations with a new router, `_find_pydantic_route` raises for no
  -- message type.
  pub find_pydantic_route-registered :
      (ops : List (Registration H)) (base : Option ℕ) (discriminator : String)
      (inherit flexible : Bool) (message_type : String)
      → (found : Option (PydanticRoute H)) × (find_pydantic_route
            (register_all ops (new_router base discriminator inherit flexible))
            message_type
          ≡ ok found)
  find_pydantic_route-registered ops base discriminator inherit flexible message_type =
      find_pydantic_route_total _ message_type
        (new_router-registered ops base discriminator inherit flexible)
