-- ===== src/Examples/Ordering.antt =====
-- examples/ordering_with_standard_queues/lambda_function.py: handlers under a lock for each order,
-- account and user. The functions that only sleep are left out.
pub mod Exclusion
pub mod Progress
use fastsqs.Base.{ℕ, zero, suc, String, ◌<>◌, Bool, true, false, Option, none, some, List, []}
use fastsqs.Base.{◌∷◌, ◌++◌, ◌≡◌, string_eq}
use fastsqs.Base.Dict
use fastsqs.Base.Dict.{Dict}
use fastsqs.Value.{Value, str, obj, Fields, end, field, get}
use fastsqs.Exceptions.{Res, ok, raise, value_error}
use fastsqs.Examples.{shown}

-- `datetime.now().isoformat()` of a time, and the order of the times that `fromisoformat` reads.
pub record Times : Type 0 where
  pub now : List String → String
  pub fromisoformat : Value → Option ℕ
  pub is_newer : ℕ → ℕ → Bool

-- `entity_locks`: the locks by their entities, locked or not.
abbrev pub Locks : Type 0
Locks = Dict String Bool

-- `get_entity_lock`
unfoldable pub get_entity_lock : String → Locks → Locks
get_entity_lock entity locks = elim (Dict.lookup entity locks) [
  | none ↦ Dict.insert entity false locks
  | some _ ↦ locks
]

-- The entities that the handlers lock.
abbrev pub order_entity : Fields → String
order_entity m = "order_" <> shown "order_id" m

abbrev pub account_entity : Fields → String
account_entity m = "account_" <> shown "account_id" m

abbrev pub user_entity : Fields → String
user_entity m = "user_" <> shown "user_id" m

-- What the handlers do under their locks.
abbrev pub Locked : Type 0
Locked = List String → Res Value × List String

module _ (t : Times) where
  unfoldable pub handle_order_event : Fields → Locked
  handle_order_event m w =
      let w' =
        w
        ++ (("Processing order " <> (shown "order_id" m <> (" event: " <> shown "event_type" m)))
            ∷ []) in
      (
        ok (
            obj (
              field "order_id" (get "order_id" m) (
                field "event_type" (get "event_type" m)
                  (field "status" (str "processed") (field "processed_at" (str (t.now w')) end))))),
        w',
      )

  unfoldable pub handle_payment_event : Fields → Locked
  handle_payment_event m w = (
    ok (
        obj (
          field "account_id" (get "account_id" m) (
            field "transaction_id" (get "transaction_id" m)
              (field "status" (str "processed") end)))),
    w
        ++ (("Processing payment for account "
              <> (shown "account_id" m <> (": " <> shown "event_type" m)))
            ∷ []),
  )

  abbrev answer : String → Fields → Value
  answer status m = obj (field "status" (str status) (field "user_id" (get "user_id" m) end))

  abbrev processed : Fields → Locked
  processed m w = (
    ok (answer "processed" m),
    w ++ (("Processing user " <> (shown "user_id" m <> (" event: " <> shown "event_type" m))) ∷ []),
  )

  abbrev skipped : Fields → Locked
  skipped m w = (
    ok (answer "skipped_old_event" m),
    w ++ (("Skipping old event for user " <> shown "user_id" m) ∷ []),
  )

  -- `get_last_processed_timestamp`
  abbrev pub get_last_processed_timestamp : Fields → Option ℕ
  get_last_processed_timestamp m = none

  -- Only a message that is newer than the last one is processed.
  abbrev pub by_timestamp : Option ℕ → Option ℕ → Fields → Locked
  by_timestamp last none m w = (raise value_error, w)
  by_timestamp none (some timestamp) m w = processed m w
  by_timestamp (some last) (some timestamp) m w = elim (t.is_newer timestamp last) [
    | true ↦ processed m w
    | false ↦ skipped m w
  ]

  unfoldable pub handle_user_event : Fields → Locked
  handle_user_event m =
      by_timestamp (get_last_processed_timestamp m) (t.fromisoformat (get "timestamp" m)) m

-- A handler of an entity: before `get_entity_lock`, before `async with lock`, inside, or done.
pub data Task : Type 0 where
  arrived waiting holding done : String → Task

-- The handlers of a batch and the locks.
pub data Crowd : Type 0 where
  crowd : List Task → Locks → Crowd

-- One handler goes on. A lock that is free may go to any that waits for it.
pub data Step : Crowd → Crowd → Type 0 where
  arrive :
      (entity : String) (ts : List Task) (locks : Locks)
      → Step
          (crowd (arrived entity ∷ ts) locks)
          (crowd (waiting entity ∷ ts) (get_entity_lock entity locks))
  acquire :
      (entity : String) (ts : List Task) (locks : Locks)
      → Dict.lookup entity locks ≡ some false
      → Step
          (crowd (waiting entity ∷ ts) locks)
          (crowd (holding entity ∷ ts) (Dict.insert entity true locks))
  leave :
      (entity : String) (ts : List Task) (locks : Locks)
      → Step
          (crowd (holding entity ∷ ts) locks)
          (crowd (done entity ∷ ts) (Dict.insert entity false locks))
  there :
      (t : Task) {ts ts' : List Task} {locks locks' : Locks}
      → Step (crowd ts locks) (crowd ts' locks')
      → Step (crowd (t ∷ ts) locks) (crowd (t ∷ ts') locks')

pub data Steps : Crowd → Crowd → Type 0 where
  stay : {s : Crowd} → Steps s s
  next : {s s' s'' : Crowd} → Step s s' → Steps s' s'' → Steps s s''
