-- ===== src/Tests/Hooks.antt =====
-- Middlewares around a call.
use fastsqs.Base.{ℕ, suc, ◌-◌, some, [], ◌∷◌, ◌≡◌, refl}
use fastsqs.Value.{Value, str}
use fastsqs.Exceptions.{ok, raise, other}
use fastsqs.Run.{Job, M}
use fastsqs.Middleware.{Middleware, call_before, call_after, unwind, enter, run_middleware_stack}
use fastsqs.Middleware.Stack.{nest, run_middleware_stack-nest}
use fastsqs.Middleware.Release.{Acquires, run_middleware_stack-held}
use fastsqs.Tests.Fixture.{toy, idle, order, job_of}

-- The clock of the world counts what is held.
abbrev at_clock : (ℕ → ℕ) → Job toy → Job toy
at_clock f j = record j { world = record j.world { now = f j.world.now } }

abbrev held : Job toy → ℕ
held j = j.world.now

-- It takes a unit, and gives it back though its `after` hook raises.
abbrev counter : Middleware toy
counter = record {
  before = some (λ j. (ok tt, at_clock suc j));
  after = some (λ error j. (raise (other 3), at_clock (λ n. n - 1) j));
}

-- Its `before` hook raises.
abbrev refusing : Middleware toy
refusing = record {
  before = some (λ j. (raise (other 2), j));
  after = some (λ error j. (ok tt, at_clock (λ n. n - 1) j));
}

abbrev inner : M toy Value
inner j = (ok (str "done"), j)

counter-Acquires : Acquires held counter
unfolding call_before call_after
counter-Acquires = record { on_enter = λ j. refl; on_leave = λ error j. refl }

refusing-Acquires : Acquires held refusing
unfolding call_before call_after
refusing-Acquires = record { on_enter = λ j. refl; on_leave = λ error j. refl }

-- The third middleware refuses: the two that were entered are left.
refused_stack :
    run_middleware_stack (counter ∷ counter ∷ refusing ∷ counter ∷ []) inner (job_of order idle)
    ≡ (raise (other 2), job_of order idle)
unfolding run_middleware_stack enter unwind call_before call_after
refused_stack = refl

run_middleware_stack-held_example :
    held (run_middleware_stack (counter ∷ refusing ∷ []) inner (job_of order idle)).1 ≡ 100
run_middleware_stack-held_example =
    run_middleware_stack-held held (counter ∷ refusing ∷ []) inner
      (counter-Acquires, (refusing-Acquires, tt)) (λ j. refl) (job_of order idle)

run_middleware_stack-nest_example :
    run_middleware_stack (counter ∷ refusing ∷ []) inner ≡ nest (counter ∷ refusing ∷ []) inner
run_middleware_stack-nest_example = run_middleware_stack-nest (counter ∷ refusing ∷ []) inner
