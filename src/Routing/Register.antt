-- ===== src/Routing/Register.antt =====
-- Registration: `route`, `default`, `subrouter` and `add_middleware` of `SQSRouter`. Each gives
-- the router as it is left behind, also when it raises: a `ValueError` keeps what was registered
-- before it.
pub mod Sound
pub mod Added
pub mod Variants
pub mod History
use fastsqs.Base.{ℕ, String, Bool, true, false, not, ◌&&◌, Option, none, some, List, [], ◌∷◌}
use fastsqs.Base.{◌++◌, ◌==◌, string_eq, is_some, if◌then◌else◌}
use fastsqs.Base.Dict
use fastsqs.Value.{ℤ}
use fastsqs.Value.Print.{show_int}
use fastsqs.Exceptions.{Res, ok, raise, value_error}
use fastsqs.Types.{Host}
use fastsqs.Middleware.{Middleware}
use fastsqs.Handlers.{Handler, maybe_inject}
use fastsqs.Events.{EventModel, is_subclass, sqs_event, get_message_type}
use fastsqs.Events.{get_message_type_variants}
use fastsqs.Routing.{Router, RouteEntry, PydanticRoute, empty_entry}

pub data RouteValue : Type 0 where
  text : String → RouteValue
  number : ℤ → RouteValue

-- `str(v)`
unfoldable pub key_of : RouteValue → String
unfolding show_int
key_of (text s) = s
key_of (number n) = show_int n

-- The argument `value` of `route`. One value is a list of one.
pub data RouteArg (H : Host) : Type 0 where
  event_class : EventModel H → RouteArg H
  nothing : RouteArg H
  keys : List RouteValue → RouteArg H

abbrev pub Outcome : Host → Type 0
Outcome H = Router H × Res (Unit {0})

module _ {H : Host} where
  -- The loop over the variants of a message type.
  unfoldable pub add_variants : Router H → String → List String → Outcome H
  add_variants router primary_type [] = (router, ok tt)
  add_variants router primary_type (variant ∷ variants) =
      let added = record router {
        route_lookup = Dict.insert variant primary_type router.route_lookup;
      } in
      elim (Dict.lookup variant router.route_lookup) [
        | none ↦ add_variants added primary_type variants
        | some existing ↦
            let rest = add_variants router primary_type variants in
            if existing == primary_type then rest else (router, raise value_error)
      ]

  abbrev pub fits_base : EventModel H → Option ℕ → Bool
  fits_base model none = true
  fits_base model (some c) = is_subclass model c

  module _ (fd_inject : Handler H → Handler H) where
    -- `pydantic_decorator`
    unfoldable pub add_pydantic :
        Router H → EventModel H → List (Middleware H) → Handler H → Outcome H
    add_pydantic router model middlewares handler =
        let primary_type = get_message_type model in
        let added = record router {
          pydantic_routes =
              Dict.insert primary_type
                (record {
                  event_model = model;
                  handler = maybe_inject fd_inject handler;
                  middlewares = middlewares;
                })
                router.pydantic_routes;
        } in
        if is_some (Dict.lookup primary_type router.pydantic_routes)
        then (router, raise value_error)
        else if is_some (Dict.lookup primary_type router.routes)
        then (router, raise value_error)
        else if router.flexible_matching
        then add_variants added primary_type (get_message_type_variants model)
        else (added, ok tt)

    -- A round of the loop of `value_decorator`, for the key `k`.
    unfoldable pub add_value :
        Router H → Option (EventModel H) → List (Middleware H) → Handler H → String → Outcome H
    add_value router model middlewares handler k =
        let entry = λ (subrouter : Option ℕ). record router {
          routes =
              Dict.insert k
                (record {
                  handler = some (maybe_inject fd_inject handler);
                  model = model;
                  middlewares = middlewares;
                  subrouter = subrouter;
                })
                router.routes;
        } in
        if is_some (Dict.lookup k router.pydantic_routes)
        then (router, raise value_error)
        else elim (Dict.lookup k router.routes) [
          | none ↦ (entry none, ok tt)
          | some existing ↦
              if is_some existing.handler
              then (router, raise value_error)
              else (entry existing.subrouter, ok tt)
        ]

    -- `value_decorator`
    unfoldable pub add_values :
        Router H
        → Option (EventModel H)
        → List (Middleware H)
        → Handler H
        → List RouteValue
        → Outcome H
    add_values router model middlewares handler [] = (router, ok tt)
    add_values router model middlewares handler (v ∷ vs) =
        let (router', r) = add_value router model middlewares handler (key_of v) in
        elim r [
          | raise e ↦ (router', raise e)
          | ok _ ↦ add_values router' model middlewares handler vs
        ]

    -- `default(…)(handler)`
    unfoldable pub set_default : Router H → Handler H → Outcome H
    set_default router handler =
        (record router { default_handler = some (maybe_inject fd_inject handler) }, ok tt)

    -- `route(value, model, middlewares)(handler)`
    unfoldable pub route :
        Router H → RouteArg H → Option (EventModel H) → List (Middleware H) → Handler H → Outcome H
    unfolding add_pydantic add_values set_default
    route router (event_class m) _ middlewares handler =
        if not (is_subclass m sqs_event)
        then (router, raise value_error)
        else if not (fits_base m router.base_event_class)
        then (router, raise value_error)
        else add_pydantic router m middlewares handler
    route router nothing _ middlewares handler = set_default router handler
    route router (keys vs) model middlewares handler =
        add_values router model middlewares handler vs

  -- `subrouter(values, router)`, for the keys.
  unfoldable pub add_subrouter : Router H → ℕ → List RouteValue → Router H
  add_subrouter router sub [] = router
  add_subrouter router sub (v ∷ vs) =
      let k = key_of v in
      let entry = Dict.get_or k empty_entry router.routes in
      add_subrouter
        (record router {
          routes = Dict.insert k (record entry { subrouter = some sub }) router.routes;
        })
        sub vs

  unfoldable pub add_middleware : Router H → Middleware H → Router H
  add_middleware router mw = record router { middlewares = router.middlewares ++ (mw ∷ []) }
