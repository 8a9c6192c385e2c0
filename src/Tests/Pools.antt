-- ===== src/Tests/Pools.antt =====
-- The tasks of a standard batch.
use fastsqs.Base.{true, List, [], ◌∷◌, arith, All}
use fastsqs.Value.{Value}
use fastsqs.Types.{standard}
use fastsqs.App.{App}
use fastsqs.Processing.Batch.{run_all}
use fastsqs.Processing.Batch.Pool.{
  waiting, running, Pool, pool, start, there, Runs, stay, next, created,
}
use fastsqs.Processing.Batch.Pool.Orders.{IsFair, Runs-IsFair, tasks_of}
use fastsqs.Processing.Batch.Pool.Ends.{IsFinished, outcomes, Runs-finish, created-run_all}
use fastsqs.Tests.Fixture.{toy, idle, app_of, m1, m2}

abbrev app : App toy
app = app_of standard true "isolate_groups"

abbrev two : List Value
two = m1 ∷ m2 ∷ []

-- Both tasks hold a permit, the second one since before the first.
abbrev both : Pool toy
both = pool (running m1 ∷ running m2 ∷ []) 8 idle

crossed : Runs app 0 (created app 0 two idle) both
crossed =
    next (there (waiting m1) (start m2 [] 9 idle)) (next (start m1 (running m2 ∷ []) 8 idle) stay)

Runs-IsFair_example : IsFair app 0 two 10 both
Runs-IsFair_example = Runs-IsFair app 0 two idle both crossed

Runs-finish_example : (s : Pool toy) × Runs app 0 both s × All IsFinished (tasks_of app 0 s)
Runs-finish_example = Runs-finish app 0 two idle both (omega arith) crossed

created-run_all_example :
    Runs app 0
      (created app 0 two idle)
      (pool (outcomes two (run_all app 0 two idle).0) 10 (run_all app 0 two idle).1)
created-run_all_example = created-run_all app 0 two idle (omega arith)
