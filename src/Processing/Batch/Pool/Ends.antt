-- ===== src/Processing/Batch/Pool/Ends.antt =====
-- The tasks of a standard batch come to an end, and one of their orders is the sequence of the batch.
use fastsqs.Base.{
  ℕ, zero, suc, ◌+◌, ◌*◌, ◌≤◌, ◌<◌, List, [], ◌∷◌, map, length, ◌≡◌, refl, ◌⊎◌, inl, inr, arith,
  All,
}
use fastsqs.Value.{Value}
use fastsqs.Exceptions.{Res}
use fastsqs.Types.{Host}
use fastsqs.App.{App}
use fastsqs.Processing.{handle_record}
use fastsqs.Processing.Batch.{run_all}
use fastsqs.Processing.Batch.Pool.{
  Task, waiting, running, finished, Pool, pool, Step, start, finish, there, Runs, stay, next,
  created,
}
use fastsqs.Processing.Batch.Pool.Orders.{
  holding, work, tasks_of, permits_of, Step-bounded, Runs-IsFair,
}

abbrev pub IsFinished : Task → Type 0
IsFinished (finished r q) = Unit
IsFinished _ = ⊥

-- The finished tasks of a batch with their results.
abbrev pub outcomes : List Value → List (Res Value) → List Task
outcomes (r ∷ rs) (q ∷ qs) = finished r q ∷ outcomes rs qs
outcomes _ _ = []

finished-holding : (ts : List Task) → All IsFinished ts → holding ts ≡ 0
unfolding holding
finished-holding [] h = refl
finished-holding (waiting r ∷ ts) h = absurd h.0
finished-holding (running r ∷ ts) h = absurd h.0
finished-holding (finished r q ∷ ts) h = finished-holding ts h.1

work-created : (rs : List Value) → work (map (λ r. waiting r) rs) ≡ 2 * length rs
unfolding work
work-created [] = refl
work-created (r ∷ rs) = omega (arith, work-created rs)

module _ {H : Host} (app : App H) (context : H.LambdaContext) where
  Step-work :
      {s s' : Pool H}
      → Step app context s s'
      → work (tasks_of app context s) ≡ suc (work (tasks_of app context s'))
  unfolding work
  Step-work (start r ts p w) = refl
  Step-work (finish r ts p w w' q e) = refl
  Step-work (there (waiting r) step) = let less = Step-work step in omega arith
  Step-work (there (running r) step) = let less = Step-work step in omega arith
  Step-work (there (finished r q) step) = Step-work step

  -- A pool that has a permit, free or held, is at its end or has a next step.
  progress :
      (ts : List Task) (permits : ℕ) (w : H.World)
      → 0 < permits + holding ts
      → All IsFinished ts ⊎ ((s : Pool H) × Step app context (pool ts permits w) s)
  unfolding holding
  progress [] permits w h = inl tt
  progress (waiting r ∷ ts) (suc permits) w h =
      inr (pool (running r ∷ ts) permits w, start r ts permits w)
  progress (waiting r ∷ ts) zero w h = elim (progress ts zero w h) [
    | inl ends ↦ absurd (omega (arith, finished-holding ts ends))
    | inr (pool ts' permits' w', step) ↦
        inr (pool (waiting r ∷ ts') permits' w', there (waiting r) step)
  ]
  progress (running r ∷ ts) permits w h =
      let (q, w') = handle_record app r context w in
      inr (pool (finished r q ∷ ts) (suc permits) w', finish r ts permits w w' q refl)
  progress (finished r q ∷ ts) permits w h = elim (progress ts permits w h) [
    | inl ends ↦ inl (tt, ends)
    | inr (pool ts' permits' w', step) ↦
        inr (pool (finished r q ∷ ts') permits' w', there (finished r q) step)
  ]

  Runs-trans :
      {s s' s'' : Pool H} → Runs app context s s' → Runs app context s' s'' → Runs app context s s''
  Runs-trans stay later = later
  Runs-trans (next step rest) later = next step (Runs-trans rest later)

  Runs-there :
      (t : Task) {ts ts' : List Task} {p p' : ℕ} {w w' : H.World}
      → Runs app context (pool ts p w) (pool ts' p' w')
      → Runs app context (pool (t ∷ ts) p w) (pool (t ∷ ts') p' w')
  Runs-there t stay = stay
  Runs-there t (next {s' = pool us q v} step rest) = next (there t step) (Runs-there t rest)

  -- The steps of a run.
  pub steps : {s s' : Pool H} → Runs app context s s' → ℕ
  steps stay = 0
  steps (next step rest) = suc (steps rest)

  Runs-work :
      {s s' : Pool H} (runs : Runs app context s s')
      → steps runs + work (tasks_of app context s') ≡ work (tasks_of app context s)
  unfolding steps
  Runs-work stay = omega arith
  Runs-work (next step rest) = omega (arith, Step-work step, Runs-work rest)

  -- No order goes on for ever: for a batch of `n` records, the tasks make at most `2 * n` steps,
  -- whichever is chosen each time.
  pub steps-bounded :
      (records : List Value) (w : H.World) (s : Pool H)
      (runs : Runs app context (created app context records w) s)
      → steps runs ≤ 2 * length records
  steps-bounded records w s runs = omega (arith, Runs-work runs, work-created records)

  run_to_end :
      (n : ℕ) (s : Pool H)
      → 0 < permits_of app context s + holding (tasks_of app context s)
      → work (tasks_of app context s) ≤ n
      → (s' : Pool H) × Runs app context s s' × All IsFinished (tasks_of app context s')
  run_to_end zero (pool ts p w) h e = elim (progress ts p w h) [
    | inl ends ↦ (pool ts p w, stay, ends)
    | inr (s', step) ↦ absurd (omega (arith, Step-work step))
  ]
  run_to_end (suc n) (pool ts p w) h e = elim (progress ts p w h) [
    | inl ends ↦ (pool ts p w, stay, ends)
    | inr (s', step) ↦
        let (s'', rest, ends) =
          run_to_end n s' (omega (arith, Step-bounded app context step))
            (omega (arith, Step-work step)) in
        (s'', next step rest, ends)
  ]

  -- The tasks never lock each other out: with at least one permit, from every state that the tasks
  -- of a batch can reach, in whatever order, they can go on until each has a result.
  pub Runs-finish :
      (records : List Value) (w : H.World) (s : Pool H)
      → 0 < app.max_concurrent_messages
      → Runs app context (created app context records w) s
      → (s' : Pool H) × Runs app context s s' × All IsFinished (tasks_of app context s')
  Runs-finish records w s h runs =
      let fair = Runs-IsFair app context records w s runs in
      run_to_end (work (tasks_of app context s)) s (omega (arith, fair.bounded)) (omega arith)

  run_all-Runs :
      (records : List Value) (permits : ℕ) (w : H.World)
      → 0 < permits
      → Runs app context (pool (map (λ r. waiting r) records) permits w) (
          pool
            (outcomes records (run_all app context records w).0)
            permits
            (run_all app context records w).1)
  unfolding run_all
  run_all-Runs [] permits w h = stay
  run_all-Runs (r ∷ rs) zero w h = absurd (omega arith)
  run_all-Runs (r ∷ rs) (suc permits) w h =
      let (q, w') = handle_record app r context w in
      next (start r (map (λ r. waiting r) rs) permits w) (
        next (finish r (map (λ r. waiting r) rs) permits w w' q refl)
          (Runs-there (finished r q) (run_all-Runs rs (suc permits) w' h)))

  -- The sequence of `run_all` is one of the orders: with at least one permit, the tasks of a batch can
  -- reach the results and the world that it gives, with every permit free again.
  pub created-run_all :
      (records : List Value) (w : H.World)
      → 0 < app.max_concurrent_messages
      → Runs app context (created app context records w) (
          pool
            (outcomes records (run_all app context records w).0)
            app.max_concurrent_messages
            (run_all app context records w).1)
  created-run_all records w h = run_all-Runs records app.max_concurrent_messages w h
