-- ===== src/Examples/Ordering/Progress.antt =====
-- The handlers of a batch never wait for each other for ever.
use fastsqs.Base.{◌≤◌, String, true, false, List, [], ◌∷◌, ◌≡◌}
use fastsqs.Base.{arith, string_eq, map, All, inl, inr, ◌⊎◌}
use fastsqs.Base.Dict
use fastsqs.Examples.Ordering.{
  Locks, Task, arrived, waiting, holding, done, Crowd, crowd, Step, arrive, acquire, leave, there,
  Steps, stay, next,
}
use fastsqs.Examples.Ordering.Exclusion.{
  inside, locked, Steps-Fits, nobody_inside, Known, Step-Known,
}

-- One of the handlers can go on.
abbrev pub Goes : Crowd → Type 0
Goes s = (s' : Crowd) × Step s s'

abbrev IsDone : Task → Type 0
IsDone (done e) = Unit {0}
IsDone _ = ⊥

abbrev pub AllDone : Crowd → Type 0
AllDone (crowd ts locks) = All IsDone ts

Goes-there :
    (t : Task) (ts : List Task) (locks : Locks)
    → Goes (crowd ts locks)
    → Goes (crowd (t ∷ ts) locks)
Goes-there t ts locks (crowd ts' locks', step) = (crowd (t ∷ ts') locks', there t step)

-- A handler that is inside can leave.
inside-Goes :
    (entity : String) (ts : List Task) (locks : Locks)
    → 1 ≤ inside entity ts
    → Goes (crowd ts locks)
unfolding inside
inside-Goes entity [] locks h = absurd (omega arith)
inside-Goes entity (holding e ∷ ts) locks h = (_, leave e ts locks)
inside-Goes entity (arrived e ∷ ts) locks h =
    Goes-there (arrived e) ts locks (inside-Goes entity ts locks h)
inside-Goes entity (waiting e ∷ ts) locks h =
    Goes-there (waiting e) ts locks (inside-Goes entity ts locks h)
inside-Goes entity (done e ∷ ts) locks h =
    Goes-there (done e) ts locks (inside-Goes entity ts locks h)

-- A task goes on, all are done, or a lock is locked.
scan :
    (ts : List Task) (locks : Locks)
    → All (Known locks) ts
    → Goes (crowd ts locks) ⊎ (All IsDone ts ⊎ ((e : String) × (locked e locks ≡ 1)))
scan [] locks h = inr (inl tt)
scan (arrived e ∷ ts) locks h = inl (_, arrive e ts locks)
scan (holding e ∷ ts) locks h = inl (_, leave e ts locks)
scan (waiting e ∷ ts) locks ((false, free), h) = inl (_, acquire e ts locks free)
scan (waiting e ∷ ts) locks ((true, taken), h) = inr (inr (e, ground (arith, taken)))
scan (done e ∷ ts) locks (_, h) = elim (scan ts locks h) [
  | inl goes ↦ inl (Goes-there (done e) ts locks goes)
  | inr (inl all) ↦ inr (inl (tt, all))
  | inr (inr held) ↦ inr (inr held)
]

abbrev KnownIn : Crowd → Type 0
KnownIn (crowd ts locks) = All (Known locks) ts

Step-KnownIn : (s s' : Crowd) → Step s s' → KnownIn s → KnownIn s'
Step-KnownIn (crowd ts locks) (crowd ts' locks') step h = (Step-Known ts ts' locks locks' step h).1

Steps-KnownIn : (s s' : Crowd) → Steps s s' → KnownIn s → KnownIn s'
Steps-KnownIn _ _ stay h = h
Steps-KnownIn _ _ (next {s} {s'} {s''} step steps) h =
    Steps-KnownIn s' s'' steps (Step-KnownIn s s' step h)

arrived-Known : (entities : List String) → All (Known []) (map (λ e. arrived e) entities)
arrived-Known [] = tt
arrived-Known (e ∷ es) = (tt, arrived-Known es)

-- From every state that the handlers of a batch can reach, one of them can go on, until all are done:
-- a handler waits only for a lock that a handler holds, and that one can leave.
pub Steps-progress :
    (entities : List String) (ts : List Task) (locks : Locks)
    → Steps (crowd (map (λ e. arrived e) entities) []) (crowd ts locks)
    → Goes (crowd ts locks) ⊎ AllDone (crowd ts locks)
unfolding Dict.lookup
Steps-progress entities ts locks steps =
    elim (scan ts locks (
      Steps-KnownIn (crowd (map (λ e. arrived e) entities) []) (crowd ts locks) steps
        (arrived-Known entities))) [
          | inl goes ↦ inl goes
          | inr (inl all) ↦ inr all
          | inr (inr (e, held)) ↦
              let fits =
                Steps-Fits e (crowd (map (λ x. arrived x) entities) []) (crowd ts locks) steps
                  (nobody_inside e entities) in
              inl (inside-Goes e ts locks (omega arith))
        ]
