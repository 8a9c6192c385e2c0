-- ===== src/Processing/Batch/Pool/Orders.antt =====
-- What holds of the tasks in every order.
use fastsqs.Base.{ℕ, suc, ◌+◌, List, [], ◌∷◌, map, ◌≡◌, refl, sym, ◌∙◌, ap, arith, All}
use fastsqs.Value.{Value}
use fastsqs.Types.{Host}
use fastsqs.App.{App}
use fastsqs.Processing.{handle_record}
use fastsqs.Processing.Batch.Pool.{
  Task, waiting, running, finished, record_of, Pool, pool, Step, start, finish, there, Runs, stay,
  next, created,
}

-- The tasks that hold a permit.
unfoldable pub holding : List Task → ℕ
holding [] = 0
holding (running r ∷ ts) = suc (holding ts)
holding (_ ∷ ts) = holding ts

-- The steps that are still to be made.
unfoldable pub work : List Task → ℕ
work [] = 0
work (waiting r ∷ ts) = suc (suc (work ts))
work (running r ∷ ts) = suc (work ts)
work (finished r q ∷ ts) = work ts

waiting_tasks : (rs : List Value) → map record_of (map (λ r. waiting r) rs) ≡ rs
waiting_tasks [] = refl
waiting_tasks (r ∷ rs) = ap (λ qs. r ∷ qs) (waiting_tasks rs)

held_by_none : (rs : List Value) → holding (map (λ r. waiting r) rs) ≡ 0
unfolding holding
held_by_none [] = refl
held_by_none (r ∷ rs) = held_by_none rs

module _ {H : Host} (app : App H) (context : H.LambdaContext) where
  abbrev pub tasks_of : Pool H → List Task
  tasks_of (pool ts permits w) = ts

  abbrev pub permits_of : Pool H → ℕ
  permits_of (pool ts permits w) = permits

  -- The result of a finished task is what handling its record gave.
  abbrev pub HasResult : Task → Type 0
  HasResult (finished r q) = (w : H.World) × ((handle_record app r context w).0 ≡ q)
  HasResult _ = Unit

  -- What the tasks of a batch keep, with a number of permits: none is lost or takes the place of
  -- another, no more of them are under way than there are permits, and results are their own.
  pub record IsFair (records : List Value) (permits : ℕ) (s : Pool H) : Type 0 where
    pub places : map record_of (tasks_of s) ≡ records
    pub bounded : permits_of s + holding (tasks_of s) ≡ permits
    pub results : All HasResult (tasks_of s)

  Step-places :
      {s s' : Pool H}
      → Step app context s s'
      → map record_of (tasks_of s) ≡ map record_of (tasks_of s')
  Step-places (start r ts p w) = refl
  Step-places (finish r ts p w w' q e) = refl
  Step-places (there t step) = ap (λ rs. record_of t ∷ rs) (Step-places step)

  pub Step-bounded :
      {s s' : Pool H}
      → Step app context s s'
      → permits_of s + holding (tasks_of s) ≡ permits_of s' + holding (tasks_of s')
  unfolding holding
  Step-bounded (start r ts p w) = omega arith
  Step-bounded (finish r ts p w w' q e) = omega arith
  Step-bounded (there (waiting r) step) = Step-bounded step
  Step-bounded (there (running r) step) = let same = Step-bounded step in omega arith
  Step-bounded (there (finished r q) step) = Step-bounded step

  Step-results :
      {s s' : Pool H}
      → Step app context s s'
      → All HasResult (tasks_of s)
      → All HasResult (tasks_of s')
  Step-results (start r ts p w) h = (tt, h.1)
  Step-results (finish r ts p w w' q e) h = ((w, ap (λ x. x.0) e), h.1)
  Step-results (there t step) h = (h.0, Step-results step h.1)

  Step-IsFair :
      {s s' : Pool H} (records : List Value) (permits : ℕ)
      → Step app context s s'
      → IsFair records permits s
      → IsFair records permits s'
  Step-IsFair records permits step f = record {
    places = sym (Step-places step) ∙ f.places;
    bounded = sym (Step-bounded step) ∙ f.bounded;
    results = Step-results step f.results;
  }

  Runs-keeps :
      {s s' : Pool H} (records : List Value) (permits : ℕ)
      → Runs app context s s'
      → IsFair records permits s
      → IsFair records permits s'
  Runs-keeps records permits stay f = f
  Runs-keeps records permits (next step rest) f =
      Runs-keeps records permits rest (Step-IsFair records permits step f)

  waiting-HasResult : (rs : List Value) → All HasResult (map (λ r. waiting r) rs)
  waiting-HasResult [] = tt
  waiting-HasResult (r ∷ rs) = (tt, waiting-HasResult rs)

  created-IsFair :
      (records : List Value) (w : H.World)
      → IsFair records app.max_concurrent_messages (created app context records w)
  created-IsFair records w = record {
    places = waiting_tasks records;
    bounded = omega (arith, held_by_none records);
    results = waiting-HasResult records;
  }

  -- However the tasks of a standard batch are interleaved: each stands for its own record, in the
  -- order of the batch, no more than `max_concurrent_messages` are under way at a time, and the
  -- result of a finished task is what handling its own record gave.
  pub Runs-IsFair :
      (records : List Value) (w : H.World) (s : Pool H)
      → Runs app context (created app context records w) s
      → IsFair records app.max_concurrent_messages s
  Runs-IsFair records w s runs =
      Runs-keeps records app.max_concurrent_messages runs (created-IsFair records w)
