-- ===== src/Tests/Stores.antt =====
-- The store in memory, and the middleware over it.
use fastsqs.Base.{String, true, none, List, [], ◌∷◌, ◌≡◌, ◌≢◌, refl, arith}
use fastsqs.Base.{◌+◌, ◌<◌, ◌≤◌, string_eq, nat_eq, ==_differ}
use fastsqs.Base.Dict
use fastsqs.Value.{Value, null, str}
use fastsqs.Value.Path.{resolve_payload_path}
use fastsqs.Exceptions.{ok, raise, other, skip_message, type_error}
use fastsqs.Idempotency.{new_idempotency_middleware}
use fastsqs.Run.{Job, M}
use fastsqs.Middleware.{run_middleware_stack}
use fastsqs.Idempotency.Protocol.{acquired, in_progress, completed}
use fastsqs.Idempotency.Memory.{Memory, try_acquire, mark_complete}
use fastsqs.Idempotency.Memory.History.{
  Op, acquire, complete, release, wait, run, apply, elapsed, after_history,
}
use fastsqs.Idempotency.Memory.Lease.{try_acquire_exclusive}
use fastsqs.Idempotency.Memory.Expiry.{try_acquire_expires}
use fastsqs.Idempotency.Once.{
  HasClaim, claimed_state, claimed_state-HasClaim, mw, asked, stack_duplicate, stack_retry,
}
use fastsqs.Value.{obj, Fields, field, end, truthy}
use fastsqs.Types.{standard}
use fastsqs.App.{App, resolve_queue_type}
use fastsqs.Processing.{new_context, prepare, parse_body, message_id, handle_record}
use fastsqs.Processing.Duplicate.{handle_record_duplicate}
use fastsqs.Tests.Fixture.{app_of, toy, place, idle, order, job_of}

-- A key that is claimed and completed, for windows that pass.
abbrev past : List Op
past = acquire "7" 2 ∷ complete "7" 2 ∷ wait 5 ∷ []

-- A second claim of the key, another key, and time.
abbrev busy : List Op
busy = acquire "7" 5 ∷ complete "8" 9 ∷ release "8" ∷ wait 3 ∷ []

abbrev calm : List Op
calm = acquire "8" 5 ∷ wait 30 ∷ []

past_claim : (try_acquire "7" 30 (after_history past)).0 ≡ acquired
unfolding try_acquire run apply mark_complete Dict.lookup Dict.insert string_eq
past_claim = refl

eight_seven : ◌≢◌ {A = String} "8" "7"
unfolding string_eq
eight_seven = ==_differ "8" "7" refl

elapsed-busy : elapsed busy < 30
unfolding elapsed
elapsed-busy = omega arith

elapsed-calm : 30 ≤ elapsed calm
unfolding elapsed
elapsed-calm = omega arith

try_acquire_exclusive_example :
    (try_acquire "7" 5 (run busy (try_acquire "7" 30 (after_history past)).1)).0 ≡ in_progress
try_acquire_exclusive_example =
    try_acquire_exclusive past busy "7" 30 5 past_claim (tt, (eight_seven, (eight_seven, (tt, tt))))
      elapsed-busy

try_acquire_expires_example :
    (try_acquire "7" 5 (run calm (try_acquire "7" 30 (after_history past)).1)).0 ≡ acquired
try_acquire_expires_example =
    try_acquire_expires past calm "7" 30 5 past_claim (eight_seven, (tt, tt)) elapsed-calm

-- Handlers that take seven seconds.
abbrev succeeds : M toy Value
succeeds j = (ok (str "done"), record j { world = record j.world { now = 7 + j.world.now } })

abbrev fails : M toy Value
fails j = (raise (other 1), record j { world = record j.world { now = 7 + j.world.now } })

no_skip : other 1 ≢ skip_message
no_skip h = absurd (cc h)

abbrev first_job : Job toy
first_job = job_of order idle

still_claimed : HasClaim "7" (claimed_state "7" first_job.ctx.state)
still_claimed = claimed_state-HasClaim "7" first_job.ctx.state

-- The job of the same message after another one.
abbrev later_job : M toy Value → List Op → Job toy
later_job inner ops = job_of order (
    run ops
      (run_middleware_stack (mw place (λ m w. refl) "id" 30 60 true ∷ []) inner first_job).1.world)

order_key : resolve_payload_path order "id" ≡ str "7"
unfolding resolve_payload_path fastsqs.Value.find string_eq nat_eq
order_key = refl

idle_claim : (try_acquire "7" 30 idle).0 ≡ acquired
unfolding try_acquire Dict.lookup
idle_claim = refl

stack_duplicate_example :
    run_middleware_stack
      (mw place (λ m w. refl) "id" 30 60 true ∷ [])
      fails
      (later_job succeeds busy)
    ≡ (raise skip_message, asked place (λ m w. refl) "id" 30 60 true "7" (later_job succeeds busy))
stack_duplicate_example =
    stack_duplicate place (λ m w. refl) "id" 30 60 true "7" first_job (later_job succeeds busy)
      succeeds [] fails busy order_key order_key idle_claim still_claimed tt
      (tt, (eight_seven, (eight_seven, (tt, tt)))) (unfold elapsed in omega arith) refl

stack_retry_example :
    (run_middleware_stack
      (mw place (λ m w. refl) "id" 30 60 true ∷ [])
      succeeds
      (later_job fails [])).0
    ≡ ok (str "done")
stack_retry_example =
    stack_retry place (λ m w. refl) "id" 30 60 true "7" first_job (later_job fails []) fails
      succeeds [] (other 1) order_key order_key idle_claim still_claimed refl no_skip tt refl

-- The store has the key of the order as completed.
abbrev processed : Memory
processed = record { now = 100; entries = ("7", (completed, 500)) ∷ [] }

abbrev dedup_app : App toy
dedup_app = record (app_of standard true "isolate_groups") {
  middlewares = mw place (λ m w. refl) "id" 30 60 true ∷ [];
}

abbrev order_record : Fields
order_record = field "messageId" (str "1") (field "body" (str "order") end)

abbrev order_job : Job toy
order_job = record {
  payload = order;
  ctx = new_context (str "1") (obj order_record) 0 standard none;
  world = processed;
}

order_prepared : prepare dedup_app order_record 0 processed ≡ ok order_job
unfolding prepare parse_body resolve_queue_type message_id truthy fastsqs.Value.find string_eq
order_prepared = refl

processed_claim : (try_acquire "7" 30 processed).0 ≡ completed
unfolding try_acquire Dict.lookup string_eq
processed_claim = refl

handle_record_duplicate_example :
    handle_record dedup_app (obj order_record) 0 processed
    ≡ (ok null, (try_acquire "7" 30 processed).1)
handle_record_duplicate_example =
    handle_record_duplicate place (λ m w. refl) "id" 30 60 true dedup_app [] order_record 0
      processed order_job "7" refl order_prepared order_key processed_claim

-- What is no store is refused.
no_store : new_idempotency_middleware {H = toy} none "id" 30 60 true ≡ raise type_error
unfolding new_idempotency_middleware
no_store = refl
