-- ===== src/Tests/Routes.antt =====
-- Registration and dispatch.
use fastsqs.Base.{
  ℕ, zero, suc, ◌<◌, String, true, Option, none, some, List, [], ◌∷◌, ◌≡◌, refl, arith,
}
use fastsqs.Base.{◌≢◌, string_eq, nat_eq, get_elem?}
use fastsqs.Base.Dict
use fastsqs.Value.{Value, null, str, obj, find, Fields, end, field}
use fastsqs.Value.Path.{resolve_payload_path, has_dot}
use fastsqs.Value.Path.Laws.{
  IsSegment, StandsUnder, itself, inside, join, resolve_payload_path-join,
}
use fastsqs.Value.Print.{show}
use fastsqs.Exceptions.{ok}
use fastsqs.Types.{standard}
use fastsqs.Handlers.{Handler}
use fastsqs.Routing.{Router, RouteEntry, PydanticRoute, find_pydantic_route, new_router}
use fastsqs.Routing.Register.{text, event_class, keys, route}
use fastsqs.Routing.Register.Sound.{IsSound, new_router-IsSound, route-IsSound}
use fastsqs.Routing.Dispatch.{dispatch}
use fastsqs.Routing.Dispatch.Select.{perform, select}
use fastsqs.Routing.Register.{add_pydantic, add_variants}
use fastsqs.Routing.Register.History.{
  Registration, add_route, nest_router, register_all, new_router-registered,
  find_pydantic_route-registered,
}
use fastsqs.Routing.Register.Variants.{IsIndexed, route_of, find_pydantic_route-route}
use fastsqs.Events.{is_subclass, get_message_type, get_message_type_variants}
use fastsqs.Events.Names.{separated, lower, lower_first}
use fastsqs.Events.Listed.{IsNamed}
use fastsqs.Base.{contains, ==_differ}
use fastsqs.Routing.Dispatch.Select.Refines.{dispatch-select}
use fastsqs.Routing.Dispatch.Select.Depth.{IsRanked, dispatch-depth}
use fastsqs.App.{App}
use fastsqs.Processing.Served.{answer, select_first, route-select_first}
use fastsqs.Processing.Default.{route_default_shadows}
use fastsqs.Tests.Fixture.{
  toy, idle, order, ping, job_of, succeeding, failing, order_created, main, outer, app_of, order,
  ping,
}

abbrev inject : Handler toy → Handler toy
inject h = h

abbrev fresh : Router toy
fresh = new_router none "type" true true

fresh-IsSound : IsSound fresh
fresh-IsSound = new_router-IsSound none "type" true true

-- With the route of an event model.
abbrev ordered : Router toy
ordered = (route inject fresh (event_class order_created) none [] succeeding).0

ordered-IsSound : IsSound ordered
ordered-IsSound =
    route-IsSound inject fresh (event_class order_created) none [] succeeding fresh-IsSound

-- An event model, two subrouters and a route that the event model has already.
abbrev history : List (Registration toy)
history =
    add_route (event_class order_created) none [] succeeding
    ∷ nest_router (text "ping" ∷ text "order_created" ∷ []) 1
    ∷ add_route (keys (text "order_created" ∷ [])) none [] failing
    ∷ []

new_router-registered_example : IsSound (register_all inject history fresh)
new_router-registered_example = new_router-registered inject history none "type" true true

order_found :
    (found : Option (PydanticRoute toy)) × (find_pydantic_route
        (register_all inject history fresh)
        "OrderCreated"
      ≡ ok found)
order_found = find_pydantic_route-registered inject history none "type" true true "OrderCreated"

-- A router that leads to another one.
abbrev heap : List (Router toy)
heap = outer ∷ main none ∷ []

abbrev rank : ℕ → ℕ
rank zero = 1
rank (suc n) = 0

outer_leads :
    (sub : ℕ) (key : String) (entry : RouteEntry toy)
    → Dict.lookup key outer.routes ≡ some entry
    → entry.subrouter ≡ some sub
    → sub ≡ 1
unfolding Dict.lookup
outer_leads sub key entry listed nested = ground arith

main_leads :
    (sub : ℕ) (key : String) (entry : RouteEntry toy)
    → Dict.lookup key (main none).routes ≡ some entry
    → entry.subrouter ≢ some sub
unfolding Dict.lookup
main_leads sub key entry listed nested = ground arith

heap_descends :
    (id sub : ℕ) (key : String) (router : Router toy) (entry : RouteEntry toy)
    → get_elem? heap id ≡ some router
    → Dict.lookup key router.routes ≡ some entry
    → entry.subrouter ≡ some sub
    → rank sub < rank id
heap_descends zero sub key router entry found listed nested =
    let same : outer ≡ router = cc found in
    rw (outer_leads sub key entry (rw (← same) at listed) nested) (omega arith)
heap_descends (suc zero) sub key router entry found listed nested =
    let same : main none ≡ router = cc found in
    absurd (main_leads sub key entry (rw (← same) at listed) nested)
heap_descends (suc (suc id)) sub key router entry found listed nested = absurd (cc found)

heap-IsRanked : IsRanked heap rank
heap-IsRanked = record { descends = heap_descends }

dispatch-select_example :
    dispatch 3 heap 0 [] (job_of ping idle) ≡ perform (select 3 heap 0 [] ping) (job_of ping idle)
dispatch-select_example = dispatch-select 3 heap 0 [] (job_of ping idle)

dispatch-depth_example :
    dispatch 2 heap 0 [] (job_of ping idle) ≡ dispatch 1000 heap 0 [] (job_of ping idle)
dispatch-depth_example =
    dispatch-depth heap rank heap-IsRanked 2 1000 0 [] (job_of ping idle) (omega arith)
      (omega arith)

-- An application with a default handler, and an included router for orders.
abbrev shadowing : App toy
shadowing = record (app_of standard true "isolate_groups") {
  heap = main (some failing) ∷ outer ∷ [];
  routers = 1 ∷ [];
}

abbrev refund : Fields
refund = field "type" (str "refund") end

refund_absent :
    Dict.lookup (show (resolve_payload_path refund "type")) (main (some failing)).routes ≡ none
unfolding Dict.lookup show resolve_payload_path find string_eq nat_eq
refund_absent = refl

route_default_shadows_example :
    fastsqs.Processing.route shadowing (job_of refund idle)
    ≡ fastsqs.Processing.route (record shadowing { routers = [] }) (job_of refund idle)
route_default_shadows_example =
    route_default_shadows shadowing (main (some failing)) failing 2 (job_of refund idle) refl refl
      refund_absent refl

abbrev nested : Fields
nested = field "detail" (obj order) end

detail-IsSegment : IsSegment "detail"
unfolding has_dot nat_eq
detail-IsSegment = refl

type-IsSegment : IsSegment "type"
unfolding has_dot nat_eq
type-IsSegment = refl

resolve_payload_path-join_example :
    ((v : Value)
      → StandsUnder ("detail" ∷ "type" ∷ []) (obj nested) v
      → resolve_payload_path nested (join "detail" ("type" ∷ [])) ≡ v)
    × (((v : Value) → ¬ StandsUnder ("detail" ∷ "type" ∷ []) (obj nested) v)
        → resolve_payload_path nested (join "detail" ("type" ∷ [])) ≡ null)
resolve_payload_path-join_example =
    resolve_payload_path-join nested "detail" ("type" ∷ []) detail-IsSegment (type-IsSegment, tt)

nested_type : StandsUnder ("detail" ∷ "type" ∷ []) (obj nested) (str "order_created")
unfolding find string_eq
nested_type = inside "detail" nested refl (inside "type" order refl itself)

-- The path ends at the text that stands there.
nested_path : resolve_payload_path nested (join "detail" ("type" ∷ [])) ≡ str "order_created"
nested_path =
    (resolve_payload_path-join nested "detail" ("type" ∷ []) detail-IsSegment
        (type-IsSegment, tt)).0
      (str "order_created") nested_type

fresh-IsIndexed : IsIndexed fresh
unfolding Dict.lookup
fresh-IsIndexed = record { own = λ k h. absurd (cc h) }

order_created-IsNamed : IsNamed order_created
unfolding string_eq
order_created-IsNamed = λ h. ==_differ "OrderCreated" "" refl

ordered_done : (route inject fresh (event_class order_created) none [] succeeding).1 ≡ ok tt
unfolding route add_pydantic add_variants is_subclass get_message_type get_message_type_variants
    separated lower lower_first Dict.lookup Dict.insert string_eq nat_eq
ordered_done = refl

kebab_listed : contains (get_message_type_variants order_created) "order-created" ≡ true
unfolding get_message_type_variants separated lower lower_first string_eq
kebab_listed = refl

find_pydantic_route-route_example :
    find_pydantic_route ordered "order-created"
    ≡ ok (some (route_of inject order_created [] succeeding))
find_pydantic_route-route_example =
    find_pydantic_route-route inject fresh order_created none [] succeeding "order-created" refl
      fresh-IsIndexed ordered_done kebab_listed

route-select_first_example :
    fastsqs.Processing.route shadowing (job_of refund idle)
    ≡ answer (select_first shadowing (0 ∷ 1 ∷ []) refund) (job_of refund idle)
route-select_first_example = route-select_first shadowing (job_of refund idle)
