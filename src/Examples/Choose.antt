-- ===== src/Examples/Choose.antt =====
-- Which router takes a payload with a known value of the discriminator.
use fastsqs.Base.{ℕ, suc, String, List, [], ◌∷◌, ◌≡◌, refl, if◌then◌else◌, get_elem?, none, some}
use fastsqs.Base.{Option, false, arith, string_eq}
use fastsqs.Base.Dict
use fastsqs.Value.{Value, str, Fields, truthy}
use fastsqs.Value.Print.{show}
use fastsqs.Value.Path.{resolve_payload_path}
use fastsqs.Exceptions.{attribute_error}
use fastsqs.Types.{Host}
use fastsqs.Middleware.{Middleware}
use fastsqs.Routing.{Router, find_route_of_value, find_pydantic_route}
use fastsqs.Routing.Dispatch.Select.{Selection, failed, unhandled, select, select_in, select_found}
use fastsqs.Routing.Dispatch.Select.{select_value}
use fastsqs.App.{App}
use fastsqs.Processing.Served.{select_first, or_else}

module _ {H : Host} where
  -- `select_in`, from the value of the discriminator.
  unfoldable pub choose :
      (ℕ → List (Middleware H) → Selection H) → Option (Router H) → Value → Selection H
  choose recur none v = failed [] attribute_error
  choose recur (some router) v =
      if truthy v
      then select_found recur router v [] (find_route_of_value router v)
      else select_value recur router v []

  abbrev pub SameKey : String → Option (Router H) → Type 0
  SameKey key none = Unit {0}
  SameKey key (some router) = router.discriminator ≡ key

  unfoldable pub choose_first :
      (ℕ → List (Middleware H) → Selection H) → List (Router H) → List ℕ → Value → Selection H
  choose_first recur heap [] v = unhandled
  choose_first recur heap (id ∷ ids) v =
      or_else (choose recur (get_elem? heap id) v) (choose_first recur heap ids v)

  abbrev pub AllSameKey : String → List (Router H) → List ℕ → Type 0
  AllSameKey key heap [] = Unit {0}
  AllSameKey key heap (id ∷ ids) = SameKey key (get_elem? heap id) × AllSameKey key heap ids

  pub choose-select :
      (depth : ℕ) (heap : List (Router H)) (id : ℕ) (payload : Fields) (key : String) (v : Value)
      → SameKey key (get_elem? heap id)
      → resolve_payload_path payload key ≡ v
      → select (suc depth) heap id [] payload
        ≡ choose (λ sub mws. select depth heap sub mws payload) (get_elem? heap id) v
  unfolding select select_in choose
  choose-select depth heap id payload key v same h = by_router (get_elem? heap id) same
    where
      recur : ℕ → List (Middleware H) → Selection H
      recur sub mws = select depth heap sub mws payload

      by_router :
          (o : Option (Router H))
          → SameKey key o
          → elim o [ none ↦ failed [] attribute_error | some r ↦ select_in recur r [] payload ]
            ≡ choose recur o v
      by_router none same' = refl
      by_router (some r) same' = rw (same', h) refl

  -- The first router that takes a payload, from the value of the discriminator that all have.
  pub select_first-choose_first :
      (app : App H) (depth : ℕ) (ids : List ℕ) (payload : Fields) (key : String) (v : Value)
      → app.depth ≡ suc depth
      → AllSameKey key app.heap ids
      → resolve_payload_path payload key ≡ v
      → select_first app ids payload
        ≡ choose_first (λ sub mws. select depth app.heap sub mws payload) app.heap ids v
  unfolding select_first choose_first
  select_first-choose_first app depth [] payload key v deep same h = refl
  select_first-choose_first app depth (id ∷ ids) payload key v deep (same, sames) h =
      rw
        (
          deep,
          choose-select depth app.heap id payload key v same h,
          select_first-choose_first app depth ids payload key v deep sames h,
        )
        refl

  -- A router without a route for a text and without a default handler.
  pub choose_missed :
      (recur : ℕ → List (Middleware H) → Selection H) (router : Router H) (v : String)
      → Dict.lookup v router.pydantic_routes ≡ none
      → router.flexible_matching ≡ false
      → Dict.lookup v router.routes ≡ none
      → router.default_handler ≡ none
      → choose recur (some router) (str v) ≡ unhandled
  unfolding choose select_value select_found find_route_of_value find_pydantic_route show truthy
  choose_missed recur router v h k l m = ground arith
