-- ===== src/Routing/Register/Sound.antt =====
-- What registration keeps true of a router, also when it raises.
use fastsqs.Base.{ℕ, String, Bool, true, false, not, Option, none, some, List, [], ◌∷◌, ◌≡◌, refl}
use fastsqs.Base.{
  arith, ◌==◌, ==_refl, string_eq, is_some, if◌then◌else◌, Bool-cases, Option-cases, inl, inr,
}
use fastsqs.Base.Dict
use fastsqs.Exceptions.{ok, Res-cases}
use fastsqs.Types.{Host}
use fastsqs.Middleware.{Middleware}
use fastsqs.Handlers.{Handler}
use fastsqs.Events.{EventModel, is_subclass, sqs_event, get_message_type, get_message_type_variants}
use fastsqs.Routing.{
  Router, RouteEntry, PydanticRoute, new_router, empty_entry, find_pydantic_route,
}
use fastsqs.Routing.Register.{
  Outcome, RouteValue, RouteArg, event_class, nothing, keys, key_of, add_variants, add_pydantic,
  add_value, add_values, set_default, fits_base, route, add_subrouter,
}

module _ {H : Host} where
  -- A variant leads to a registered message type, and a message type with a pydantic route has no
  -- key-value handler, which the pydantic route would shadow.
  pub record IsSound (router : Router H) : Type 0 where
    pub targets :
        (variant primary : String)
        → Dict.lookup variant router.route_lookup ≡ some primary
        → is_some (Dict.lookup primary router.pydantic_routes) ≡ true
    pub unshadowed :
        (k : String) (entry : RouteEntry H)
        → is_some (Dict.lookup k router.pydantic_routes) ≡ true
        → Dict.lookup k router.routes ≡ some entry
        → entry.handler ≡ none

  pub new_router-IsSound :
      (base : Option ℕ) (discriminator : String) (inherit flexible : Bool)
      → IsSound (new_router base discriminator inherit flexible)
  unfolding Dict.lookup
  new_router-IsSound base discriminator inherit flexible = record {
    targets = λ v p e. cc e;
    unshadowed = λ k entry e f. cc f;
  }

  add_variants-IsSound :
      (router : Router H) (primary : String) (variants : List String)
      → is_some (Dict.lookup primary router.pydantic_routes) ≡ true
      → IsSound router
      → IsSound (add_variants router primary variants).0
  unfolding add_variants
  add_variants-IsSound router primary [] h s = s
  add_variants-IsSound router primary (v ∷ vs) h s =
      elim (Option-cases (Dict.lookup v router.route_lookup)) [
        | inl e ↦
            rw (e, add_variants)
              (add_variants-IsSound
                (record router { route_lookup = Dict.insert v primary router.route_lookup }) primary
                vs h
                (record {
                  targets = λ v' p.
                      ground (
                        arith,
                        s.targets v' p,
                        Dict.lookup-insert v' v primary router.route_lookup,
                      );
                  unshadowed = s.unshadowed;
                }))
        | inr (existing, e) ↦ elim (Bool-cases (existing == primary)) [
          | inl same ↦ rw (e, same, add_variants) (add_variants-IsSound router primary vs h s)
          | inr other ↦ rw (e, other, add_variants) s
        ]
      ]

  -- In a sound router `_find_pydantic_route` raises for no message type: the table of the variants
  -- never leads to a route that is not there.
  pub find_pydantic_route_total :
      (router : Router H) (message_type : String)
      → IsSound router
      → (found : Option (PydanticRoute H)) × (find_pydantic_route router message_type ≡ ok found)
  unfolding find_pydantic_route
  find_pydantic_route_total router mt s =
      elim (Option-cases (Dict.lookup mt router.pydantic_routes)) [
        | inr (r, e) ↦ (some r, ground arith)
        | inl e ↦ elim (Bool-cases router.flexible_matching) [
          | inr off ↦ (none, ground arith)
          | inl on ↦ elim (Option-cases (Dict.lookup mt router.route_lookup)) [
            | inl f ↦ (none, ground arith)
            | inr (p, f) ↦ elim (Option-cases (Dict.lookup p router.pydantic_routes)) [
              | inr (r, g) ↦ (some r, ground arith)
              | inl g ↦ absurd (cc (rw g at (s.targets mt p f)))
            ]
          ]
        ]
      ]

  -- The router with a pydantic route that neither registry had.
  added-IsSound :
      (router : Router H) (k : String) (r : PydanticRoute H)
      → Dict.lookup k router.routes ≡ none
      → IsSound router
      → IsSound (record router { pydantic_routes = Dict.insert k r router.pydantic_routes })
  added-IsSound router k r fresh s = record {
    targets =
        λ v p e. ground (arith, s.targets v p e, Dict.lookup-insert p k r router.pydantic_routes);
    unshadowed = λ j entry h f.
        ground (arith, s.unshadowed j entry, Dict.lookup-insert j k r router.pydantic_routes);
  }

  routed-IsSound :
      (router : Router H) (k : String) (entry : RouteEntry H)
      → ((is_some (Dict.lookup k router.pydantic_routes) ≡ true) → entry.handler ≡ none)
      → IsSound router
      → IsSound (record router { routes = Dict.insert k entry router.routes })
  routed-IsSound router k entry free s = record {
    targets = s.targets;
    unshadowed = λ j found h f.
        ground (arith, s.unshadowed j found, free, Dict.lookup-insert j k entry router.routes);
  }

  either-IsSound :
      (b : Bool) (x y : Outcome H) → IsSound x.0 → IsSound y.0 → IsSound (if b then x else y).0
  either-IsSound true x y s t = s
  either-IsSound false x y s t = t

  module _ (fd_inject : Handler H → Handler H) where
    add_pydantic-IsSound :
        (router : Router H) (m : EventModel H) (mws : List (Middleware H)) (h : Handler H)
        → IsSound router
        → IsSound (add_pydantic fd_inject router m mws h).0
    unfolding add_pydantic
    add_pydantic-IsSound router m mws h s =
        let k = get_message_type m in
        elim (Option-cases (Dict.lookup k router.pydantic_routes)) [
          | inr (r, e) ↦ rw (e, add_pydantic) s
          | inl e ↦ elim (Option-cases (Dict.lookup k router.routes)) [
            | inr (r, f) ↦ rw (e, f, add_pydantic) s
            | inl f ↦
                rw (e, f, add_pydantic)
                  (either-IsSound router.flexible_matching _ _
                    (add_variants-IsSound _ k (get_message_type_variants m)
                      (rw (Dict.lookup-insert, ==_refl) refl) (added-IsSound router k _ f s))
                    (added-IsSound router k _ f s))
          ]
        ]

    add_value-IsSound :
        (router : Router H) (model : Option (EventModel H)) (mws : List (Middleware H))
        (h : Handler H) (k : String)
        → IsSound router
        → IsSound (add_value fd_inject router model mws h k).0
    unfolding add_value
    add_value-IsSound router model mws h k s =
        elim (Option-cases (Dict.lookup k router.pydantic_routes)) [
          | inr (r, e) ↦ rw (e, add_value) s
          | inl e ↦ elim (Option-cases (Dict.lookup k router.routes)) [
            | inl f ↦
                rw (e, f, add_value) (routed-IsSound router k _ (λ t. absurd (cc (rw e at t))) s)
            | inr (entry, f) ↦ elim (Option-cases entry.handler) [
              | inr (h', g) ↦ rw (e, f, g, add_value) s
              | inl g ↦
                  rw (e, f, g, add_value)
                    (routed-IsSound router k _ (λ t. absurd (cc (rw e at t))) s)
            ]
          ]
        ]

    add_values-IsSound :
        (vs : List RouteValue) (router : Router H) (model : Option (EventModel H))
        (mws : List (Middleware H)) (h : Handler H)
        → IsSound router
        → IsSound (add_values fd_inject router model mws h vs).0
    unfolding add_values
    add_values-IsSound [] router model mws h s = s
    add_values-IsSound (v ∷ vs) router model mws h s =
        let (router', r) = add_value fd_inject router model mws h (key_of v) in
        let s' = add_value-IsSound router model mws h (key_of v) s in
        elim (Res-cases r) [
          | inl (a, e) ↦ rw (e, add_values) (add_values-IsSound vs router' model mws h s')
          | inr (x, e) ↦ rw (e, add_values) s'
        ]

    -- `route` keeps a router sound: for every argument (an event model, values or nothing), whether
    -- it succeeds or raises half way through. So a discriminator value never has a pydantic route
    -- and a key-value handler at once, and no variant leads to a message type that is not there.
    pub route-IsSound :
        (router : Router H) (value : RouteArg H) (model : Option (EventModel H))
        (mws : List (Middleware H)) (h : Handler H)
        → IsSound router
        → IsSound (route fd_inject router value model mws h).0
    unfolding route
    route-IsSound router (event_class m) model mws h s =
        either-IsSound (not (is_subclass m sqs_event)) _ _ s (
          either-IsSound (not (fits_base m router.base_event_class)) _ _ s
            (add_pydantic-IsSound router m mws h s))
    route-IsSound router nothing model mws h s =
        unfold set_default in record { targets = s.targets; unshadowed = s.unshadowed }
    route-IsSound router (keys vs) model mws h s = add_values-IsSound vs router model mws h s

  -- `subrouter` keeps a router sound.
  pub add_subrouter-IsSound :
      (vs : List RouteValue) (router : Router H) (sub : ℕ)
      → IsSound router
      → IsSound (add_subrouter router sub vs)
  unfolding add_subrouter
  add_subrouter-IsSound [] router sub s = s
  add_subrouter-IsSound (v ∷ vs) router sub s =
      add_subrouter-IsSound vs _ sub (routed-IsSound router (key_of v) _ (λ t. free t) s)
    where
      free :
          is_some (Dict.lookup (key_of v) router.pydantic_routes) ≡ true
          → (Dict.get_or (key_of v) empty_entry router.routes).handler ≡ none
      free t = elim (Option-cases (Dict.lookup (key_of v) router.routes)) [
        | inl e ↦ rw (e, Dict.get_or)
        | inr (entry, f) ↦ rw (f, Dict.get_or) (s.unshadowed (key_of v) entry t f)
      ]
