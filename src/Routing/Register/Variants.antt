-- ===== src/Routing/Register/Variants.antt =====
-- What a registered event model is found by: `route` and `_find_pydantic_route` of `SQSRouter`.
use fastsqs.Base.{String, Bool, true, false, Option, none, some, List, ◌≡◌, refl, arith}
use fastsqs.Base.{
  ◌==◌, string_eq, nat_eq, contains, is_some, if◌then◌else◌, Bool-cases, Option-cases, inl, inr,
}
use fastsqs.Base.{==_differ}
use fastsqs.Base.Dict
use fastsqs.Exceptions.{ok}
use fastsqs.Types.{Host}
use fastsqs.Middleware.{Middleware}
use fastsqs.Handlers.{Handler, maybe_inject}
use fastsqs.Events.{EventModel, is_subclass, sqs_event, get_message_type, get_message_type_variants}
use fastsqs.Events.Listed.{IsNamed, get_message_type-listed}
use fastsqs.Routing.{Router, PydanticRoute, find_pydantic_route}
use fastsqs.Routing.Register.{Outcome, event_class, fits_base, add_pydantic, route}
use fastsqs.Routing.Register.Added.{Succeeds, IsAdded, add_variants-IsAdded}

module _ {H : Host} where
  -- Every message type with a pydantic route is its own entry among the variants.
  pub record IsIndexed (router : Router H) : Type 0 where
    pub own :
        (k : String)
        → is_some (Dict.lookup k router.pydantic_routes) ≡ true
        → Dict.lookup k router.route_lookup ≡ some k

  -- The router with a route for a fresh message type.
  abbrev with_route : Router H → String → PydanticRoute H → Router H
  with_route router k r = record router { pydantic_routes = Dict.insert k r router.pydantic_routes }

  routes-IsAdded :
      (router out : Router H) (k : String) (r : PydanticRoute H) (vs : List String)
      → IsAdded (with_route router k r) k vs out
      → (j : String)
      → Dict.lookup j out.pydantic_routes
        ≡ (if j == k then some r else Dict.lookup j router.pydantic_routes)
  routes-IsAdded router out k r vs a j =
      rw a.same_routes (Dict.lookup-insert j k r router.pydantic_routes)

  -- A registered message type other than the new one is no variant of it.
  unlisted :
      (router out : Router H) (k v : String) (r : PydanticRoute H) (vs : List String)
      → IsIndexed router
      → IsAdded (with_route router k r) k vs out
      → contains vs v ≡ true
      → (v == k) ≡ false
      → Dict.lookup v router.pydantic_routes ≡ none
  unlisted router out k v r vs indexed a listed other =
      elim (Option-cases (Dict.lookup v router.pydantic_routes)) [
        | inl absent ↦ absent
        | inr (r', found) ↦
            absurd (==_differ v k other (a.agreed v v listed (indexed.own v (rw found refl))))
      ]

  find-IsAdded :
      (router out : Router H) (k v : String) (r : PydanticRoute H) (vs : List String)
      → router.flexible_matching ≡ true
      → IsIndexed router
      → IsAdded (with_route router k r) k vs out
      → contains vs v ≡ true
      → find_pydantic_route out v ≡ ok (some r)
  unfolding find_pydantic_route
  find-IsAdded router out k v r vs flexible indexed a listed =
      let routes = routes-IsAdded router out k r vs a in
      elim (Bool-cases (v == k)) [
        | inl same ↦ ground (arith, routes v)
        | inr other ↦ ground (
          arith,
          routes v,
          routes k,
          unlisted router out k v r vs indexed a listed other,
          a.lookups v,
          a.same_matching,
        )
      ]

  IsAdded-IsIndexed :
      (router out : Router H) (k : String) (r : PydanticRoute H) (vs : List String)
      → IsIndexed router
      → IsAdded (with_route router k r) k vs out
      → contains vs k ≡ true
      → IsIndexed out
  IsAdded-IsIndexed router out k r vs indexed a listed = record {
    own = λ j found. ground (
      arith,
      routes-IsAdded router out k r vs a j,
      a.lookups j,
      indexed.own j,
      unlisted router out k j r vs indexed a,
    );
  }

  either-IsAdded :
      (router : Router H) (k : String) (vs : List String) (b : Bool) (x y : Outcome H)
      → b ≡ true
      → (Succeeds x → IsAdded router k vs x.0)
      → Succeeds (if b then x else y)
      → IsAdded router k vs (if b then x else y).0
  either-IsAdded router k vs true x y h added done = added done
  either-IsAdded router k vs false x y h added done = absurd (cc h)

  module _ (fd_inject : Handler H → Handler H) where
    -- The entry of an event model.
    abbrev pub route_of : EventModel H → List (Middleware H) → Handler H → PydanticRoute H
    route_of m mws h = record {
      event_model = m;
      handler = maybe_inject fd_inject h;
      middlewares = mws;
    }

    add_pydantic-IsAdded :
        (router : Router H) (m : EventModel H) (mws : List (Middleware H)) (h : Handler H)
        → router.flexible_matching ≡ true
        → Succeeds (add_pydantic fd_inject router m mws h)
        → IsAdded
            (with_route router (get_message_type m) (route_of m mws h))
            (get_message_type m)
            (get_message_type_variants m)
            (add_pydantic fd_inject router m mws h).0
    unfolding add_pydantic
    add_pydantic-IsAdded router m mws h flexible done =
        let k = get_message_type m in
        elim (Option-cases (Dict.lookup k router.pydantic_routes)) [
          | inr (r, e) ↦ absurd (cc (rw (e, add_pydantic) at done))
          | inl e ↦ elim (Option-cases (Dict.lookup k router.routes)) [
            | inr (r, f) ↦ absurd (cc (rw (e, f, add_pydantic) at done))
            | inl f ↦
                rw (e, f, add_pydantic)
                  (either-IsAdded _ k _ router.flexible_matching _ _ flexible
                    (add_variants-IsAdded (with_route router k (route_of m mws h)) k
                      (get_message_type_variants m))
                    (rw (e, f, add_pydantic) at done))
          ]
        ]

    route-IsAdded :
        (router : Router H) (m : EventModel H) (model : Option (EventModel H))
        (mws : List (Middleware H)) (h : Handler H)
        → router.flexible_matching ≡ true
        → Succeeds (route fd_inject router (event_class m) model mws h)
        → IsAdded
            (with_route router (get_message_type m) (route_of m mws h))
            (get_message_type m)
            (get_message_type_variants m)
            (route fd_inject router (event_class m) model mws h).0
    unfolding route
    route-IsAdded router m model mws h flexible done = elim (Bool-cases (is_subclass m sqs_event)) [
      | inr other ↦ absurd (cc (rw (other, route) at done))
      | inl derived ↦ elim (Bool-cases (fits_base m router.base_event_class)) [
        | inr other ↦ absurd (cc (rw (derived, other, route) at done))
        | inl fits ↦
            rw (derived, fits, route)
              (add_pydantic-IsAdded router m mws h flexible (rw (derived, fits, route) at done))
      ]
    ]

    -- In a router that matches flexibly and has its own message types among the variants: once the
    -- registration of an event model has succeeded, every variant of its message type (the class
    -- name, its snake, camel and kebab case) is resolved to the route of that event model.
    pub find_pydantic_route-route :
        (router : Router H) (m : EventModel H) (model : Option (EventModel H))
        (mws : List (Middleware H)) (h : Handler H) (variant : String)
        → router.flexible_matching ≡ true
        → IsIndexed router
        → (route fd_inject router (event_class m) model mws h).1 ≡ ok tt
        → contains (get_message_type_variants m) variant ≡ true
        → find_pydantic_route (route fd_inject router (event_class m) model mws h).0 variant
          ≡ ok (some (route_of m mws h))
    find_pydantic_route-route router m model mws h variant flexible indexed done listed =
        find-IsAdded router _ (get_message_type m) variant (route_of m mws h)
          (get_message_type_variants m) flexible indexed
          (route-IsAdded router m model mws h flexible done) listed

    -- Such a registration keeps the message types among the variants, if the class has a name or a
    -- message type of its own.
    pub route-IsIndexed :
        (router : Router H) (m : EventModel H) (model : Option (EventModel H))
        (mws : List (Middleware H)) (h : Handler H)
        → router.flexible_matching ≡ true
        → IsIndexed router
        → (route fd_inject router (event_class m) model mws h).1 ≡ ok tt
        → IsNamed m
        → IsIndexed (route fd_inject router (event_class m) model mws h).0
    route-IsIndexed router m model mws h flexible indexed done named =
        IsAdded-IsIndexed router _ (get_message_type m) (route_of m mws h)
          (get_message_type_variants m) indexed (route-IsAdded router m model mws h flexible done)
          (get_message_type-listed m named)
