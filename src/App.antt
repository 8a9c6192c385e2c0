-- ===== src/App.antt =====
-- fastsqs/app.py: the application, its configuration and registration. All routers of the process
-- stand in one heap; the application's own router is the first.
use Prim.Native.String.{[], ◌∷◌}
use fastsqs.Base.{ℕ, String, Bool, true, ◌||◌, none, some, List, ◌++◌}
use fastsqs.Base.{◌==◌, string_eq, get_elem?, set, if◌then◌else◌}
use fastsqs.Value.{Value, str, obj, get_or, or_value}
use fastsqs.Exceptions.{Res, ok, raise, attribute_error}
use fastsqs.Types.{Host, QueueType, auto, standard, fifo}
use fastsqs.Middleware.{Middleware}
use fastsqs.Handlers.{Handler}
use fastsqs.Routing.{Router, new_router}
use fastsqs.Routing.Register.{RouteArg, Outcome, route, set_default}

-- `depth` bounds the depth of calls of `dispatch`, as the Python interpreter does.
pub record App (H : Host) : Type 0 where
  pub queue_type : QueueType
  pub discriminator : String
  pub max_concurrent_messages : ℕ
  pub partial_batch_failure : Bool
  pub fifo_failure_mode : String
  pub heap : List (Router H)
  pub routers : List ℕ
  pub middlewares : List (Middleware H)
  pub depth : ℕ

-- The place of `_main_router`.
abbrev pub main_router : ℕ
main_router = 0

-- `s.endswith(suffix)`
unfoldable pub ends_with : String → String → Bool
ends_with [] suffix = suffix == ""
ends_with (c ∷ s) suffix = (c ∷ s) == suffix || ends_with s suffix

-- The queue type that a source ARN tells. A text is all that has `endswith`.
abbrev pub arn_queue_type : Value → Res QueueType
arn_queue_type (str arn) = ok (if ends_with arn ".fifo" then fifo else standard)
arn_queue_type _ = raise attribute_error

-- The type that the first record tells.
abbrev pub inferred : List Value → Res QueueType
inferred (List.[]) = ok standard
inferred (List.◌∷◌ (obj d) _) =
    arn_queue_type (or_value (get_or "eventSourceARN" (str "") d) (str ""))
inferred (List.◌∷◌ _ _) = raise attribute_error

module _ {H : Host} where
  -- `FastSQS(…)`, beside the routers that are there already.
  abbrev pub new_app : QueueType → String → Bool → ℕ → Bool → String → List (Router H) → ℕ → App H
  new_app queue_type discriminator flexible max_concurrent partial mode others depth = record {
    queue_type = queue_type;
    discriminator = discriminator;
    max_concurrent_messages = max_concurrent;
    partial_batch_failure = partial;
    fifo_failure_mode = mode;
    heap = List.◌∷◌ (new_router none discriminator true flexible) others;
    routers = List.[];
    middlewares = List.[];
    depth = depth;
  }

  -- An operation on the main router.
  abbrev on_main : App H → (Router H → Outcome H) → App H × Res (Unit {0})
  on_main app f = elim (get_elem? app.heap main_router) [
    | none ↦ (app, raise attribute_error)
    | some router ↦
        let (router', r) = f router in (record app { heap = set app.heap main_router router' }, r)
  ]

  -- `app.route(event_model, middlewares)(handler)`
  unfoldable pub app_route :
      (Handler H → Handler H)
      → App H
      → RouteArg H
      → List (Middleware H)
      → Handler H
      → App H × Res (Unit {0})
  app_route fd_inject app event_model middlewares handler =
      on_main app (λ router. route fd_inject router event_model none middlewares handler)

  -- `app.default()(handler)`
  unfoldable pub app_default : (Handler H → Handler H) → App H → Handler H → App H × Res (Unit {0})
  app_default fd_inject app handler = on_main app (λ router. set_default fd_inject router handler)

  unfoldable pub include_router : App H → ℕ → App H
  include_router app id = record app { routers = app.routers ++ List.◌∷◌ id List.[] }

  unfoldable pub add_middleware : App H → Middleware H → App H
  add_middleware app mw = record app { middlewares = app.middlewares ++ List.◌∷◌ mw List.[] }

  -- `_resolve_queue_type`
  unfoldable pub resolve_queue_type : App H → List Value → Res QueueType
  unfolding ends_with
  resolve_queue_type app records = elim app.queue_type [
    | standard ↦ ok standard
    | fifo ↦ ok fifo
    | auto ↦ inferred records
  ]
