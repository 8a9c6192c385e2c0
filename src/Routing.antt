-- ===== src/Routing.antt =====
-- fastsqs/routing: a router's state. Routers are shared objects: they stand in a heap, and a route
-- entry names its subrouter by its place there.
pub mod Register
pub mod Dispatch
use fastsqs.Base.{ℕ, String, Bool, true, false, Option, none, some, List, []}
use fastsqs.Base.{◌==◌, string_eq, is_some, if◌then◌else◌}
use fastsqs.Base.Dict
use fastsqs.Base.Dict.{Dict}
use fastsqs.Value.{Value, null, bool, int, float, str, arr, obj}
use fastsqs.Exceptions.{Res, ok, raise, key_error, type_error}
use fastsqs.Types.{Host}
use fastsqs.Middleware.{Middleware}
use fastsqs.Handlers.{Handler}
use fastsqs.Events.{EventModel}

pub record RouteEntry (H : Host) : Type 0 where
  pub handler : Option (Handler H)
  pub model : Option (EventModel H)
  pub middlewares : List (Middleware H)
  pub subrouter : Option ℕ

pub record PydanticRoute (H : Host) : Type 0 where
  pub event_model : EventModel H
  pub handler : Handler H
  pub middlewares : List (Middleware H)

pub record Router (H : Host) : Type 0 where
  pub base_event_class : Option ℕ
  pub discriminator : String
  pub inherit_middlewares : Bool
  pub flexible_matching : Bool
  pub routes : Dict String (RouteEntry H)
  pub middlewares : List (Middleware H)
  pub default_handler : Option (Handler H)
  pub pydantic_routes : Dict String (PydanticRoute H)
  pub route_lookup : Dict String String

module _ {H : Host} where
  -- `SQSRouter(…)`
  abbrev pub new_router : Option ℕ → String → Bool → Bool → Router H
  new_router base_event_class discriminator inherit_middlewares flexible_matching = record {
    base_event_class = base_event_class;
    discriminator = discriminator;
    inherit_middlewares = inherit_middlewares;
    flexible_matching = flexible_matching;
    routes = [];
    middlewares = [];
    default_handler = none;
    pydantic_routes = [];
    route_lookup = [];
  }

  -- `_RouteEntry()`
  abbrev pub empty_entry : RouteEntry H
  empty_entry = record { handler = none; model = none; middlewares = []; subrouter = none }

  abbrev pub is_nested : RouteEntry H → Bool
  is_nested entry = is_some entry.subrouter

  -- `_find_pydantic_route` for a text.
  unfoldable pub find_pydantic_route : Router H → String → Res (Option (PydanticRoute H))
  find_pydantic_route router message_type = elim (Dict.lookup message_type router.pydantic_routes) [
    | some route ↦ ok (some route)
    | none ↦
        if router.flexible_matching
        then elim (Dict.lookup message_type router.route_lookup) [
          | none ↦ ok none
          | some primary_type ↦ elim (Dict.lookup primary_type router.pydantic_routes) [
            | none ↦ raise key_error
            | some route ↦ ok (some route)
          ]
        ]
        else ok none
  ]

  -- `_find_pydantic_route` for any value: the keys of the dicts are texts, and a list or a dict
  -- cannot be hashed.
  unfoldable pub find_route_of_value : Router H → Value → Res (Option (PydanticRoute H))
  unfolding find_pydantic_route
  find_route_of_value router (str message_type) = find_pydantic_route router message_type
  find_route_of_value router (arr _) = raise type_error
  find_route_of_value router (obj _) = raise type_error
  find_route_of_value router _ = ok none
