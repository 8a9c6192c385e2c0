-- ===== src/Tests/Locks.antt =====
-- Three handlers of examples/ordering_with_standard_queues, two of them for one order.
use fastsqs.Base.{◌≤◌, String, true, false, List, [], ◌∷◌, refl, string_eq, ◌⊎◌}
use fastsqs.Base.Dict
use fastsqs.Examples.Ordering.{
  Locks, get_entity_lock, Task, arrived, waiting, holding, crowd, arrive, acquire, there, Steps,
  stay, next,
}
use fastsqs.Examples.Ordering.Exclusion.{inside, Steps-exclusive}
use fastsqs.Examples.Ordering.Progress.{Goes, AllDone, Steps-progress}

abbrev entities : List String
entities = "order_1" ∷ "order_2" ∷ "order_1" ∷ []

-- The first has the lock of its order, which the third waits for.
abbrev one_inside : List Task
one_inside = holding "order_1" ∷ arrived "order_2" ∷ waiting "order_1" ∷ []

abbrev taken : Locks
taken = ("order_1", true) ∷ []

one_enters :
    Steps
      (crowd (arrived "order_1" ∷ arrived "order_2" ∷ arrived "order_1" ∷ []) [])
      (crowd one_inside taken)
unfolding get_entity_lock Dict.lookup Dict.insert string_eq
one_enters = next (arrive "order_1" (arrived "order_2" ∷ arrived "order_1" ∷ []) []) (
    next
      (there (waiting "order_1")
        (there (arrived "order_2") (arrive "order_1" [] (("order_1", false) ∷ []))))
      (next
        (acquire "order_1" (arrived "order_2" ∷ waiting "order_1" ∷ []) (("order_1", false) ∷ [])
          refl)
        stay))

Steps-exclusive_example : inside "order_1" one_inside ≤ 1
Steps-exclusive_example = Steps-exclusive entities one_inside taken "order_1" one_enters

Steps-progress_example : Goes (crowd one_inside taken) ⊎ AllDone (crowd one_inside taken)
Steps-progress_example = Steps-progress entities one_inside taken one_enters
