-- ===== src/Examples/Ordering/Exclusion.antt =====
-- One handler of an entity at a time.
use fastsqs.Base.{ℕ, suc, ◌+◌, ◌≤◌, String, Bool, true, false, Option, some, List, []}
use fastsqs.Base.{◌∷◌, ◌≡◌, refl, arith, ◌==◌, string_eq, if◌then◌else◌, map, All, inl, inr}
use fastsqs.Base.{Bool-cases, Option-cases}
use fastsqs.Base.Dict
use fastsqs.Examples.Ordering.{
  Locks, get_entity_lock, Task, arrived, waiting, holding, done, Crowd, crowd, Step, arrive,
  acquire, leave, there, Steps, stay, next,
}

abbrev pub holds : String → Task → Bool
holds entity (holding e) = entity == e
holds entity _ = false

-- The handlers that are inside the lock of an entity.
unfoldable pub inside : String → List Task → ℕ
inside entity [] = 0
inside entity (t ∷ ts) = let rest = inside entity ts in if holds entity t then suc rest else rest

abbrev bit_of : Option Bool → ℕ
bit_of (some true) = 1
bit_of _ = 0

-- 1 if the lock of the entity is locked, else 0.
abbrev pub locked : String → Locks → ℕ
locked entity locks = bit_of (Dict.lookup entity locks)

locked-get_entity_lock :
    (entity e : String) (locks : Locks)
    → locked entity (get_entity_lock e locks) ≡ locked entity locks
unfolding get_entity_lock
locked-get_entity_lock entity e locks = ground (arith, Dict.lookup-insert entity e false locks)

-- What is inside and what is locked change together, where no more are inside than are locked.
Step-conserves :
    (entity : String) (ts ts' : List Task) (locks locks' : Locks)
    → Step (crowd ts locks) (crowd ts' locks')
    → inside entity ts ≤ locked entity locks
    → inside entity ts + locked entity locks' ≡ inside entity ts' + locked entity locks
unfolding inside
Step-conserves entity _ _ _ _ (arrive e ts locks) h =
    omega (arith, locked-get_entity_lock entity e locks)
Step-conserves entity _ _ _ _ (acquire e ts locks free) h =
    grind (arith, free, Dict.lookup-insert entity e true locks)
Step-conserves entity _ _ _ _ (leave e ts locks) h =
    grind (arith, Dict.lookup-insert entity e false locks)
Step-conserves entity _ _ _ _ (there t {ts} {ts'} {locks} {locks'} step) h =
    grind (arith, Step-conserves entity ts ts' locks locks' step)

-- Exactly so many handlers are inside as the lock is locked: none or one.
abbrev pub Fits : String → Crowd → Type 0
Fits entity (crowd ts locks) = inside entity ts ≡ locked entity locks

Step-Fits : (entity : String) (s s' : Crowd) → Step s s' → Fits entity s → Fits entity s'
Step-Fits entity (crowd ts locks) (crowd ts' locks') step h =
    omega (arith, Step-conserves entity ts ts' locks locks' step (omega arith))

pub Steps-Fits : (entity : String) (s s' : Crowd) → Steps s s' → Fits entity s → Fits entity s'
Steps-Fits entity _ _ stay h = h
Steps-Fits entity _ _ (next {s} {s'} {s''} step steps) h =
    Steps-Fits entity s' s'' steps (Step-Fits entity s s' step h)

pub nobody_inside :
    (entity : String) (entities : List String) → inside entity (map (λ e. arrived e) entities) ≡ 0
unfolding inside
nobody_inside entity [] = refl
nobody_inside entity (e ∷ es) = nobody_inside entity es

locked-bounded : (entity : String) (locks : Locks) → locked entity locks ≤ 1
locked-bounded entity locks = ground arith

-- The handlers of a batch start with no lock, and go on in any order: at no time are two of them
-- inside the lock of one order, account or user, whatever messages the batch has.
pub Steps-exclusive :
    (entities : List String) (ts : List Task) (locks : Locks) (entity : String)
    → Steps (crowd (map (λ e. arrived e) entities) []) (crowd ts locks)
    → inside entity ts ≤ 1
unfolding Dict.lookup
Steps-exclusive entities ts locks entity steps =
    let fits =
      Steps-Fits entity (crowd (map (λ e. arrived e) entities) []) (crowd ts locks) steps
        (nobody_inside entity entities) in
    omega (arith, fits, locked-bounded entity locks)

-- The lock of a handler that waits or is inside is there.
abbrev pub Known : Locks → Task → Type 0
Known locks (waiting e) = (b : Bool) × (Dict.lookup e locks ≡ some b)
Known locks (holding e) = (b : Bool) × (Dict.lookup e locks ≡ some b)
Known locks _ = Unit {0}

-- No lock is lost.
abbrev Extends : Locks → Locks → Type 0
Extends locks locks' =
    (e : String) (b : Bool)
    → Dict.lookup e locks ≡ some b
    → (b' : Bool) × (Dict.lookup e locks' ≡ some b')

insert-Extends : (e : String) (b : Bool) (locks : Locks) → Extends locks (Dict.insert e b locks)
insert-Extends e b locks d c h = elim (Bool-cases (d == e)) [
  | inl same ↦ (b, rw (Dict.lookup-insert d e b locks, same) refl)
  | inr differ ↦ (c, rw (Dict.lookup-insert d e b locks, differ) h)
]

get_entity_lock-Extends : (e : String) (locks : Locks) → Extends locks (get_entity_lock e locks)
unfolding get_entity_lock
get_entity_lock-Extends e locks = elim (Option-cases (Dict.lookup e locks)) [
  | inl missing ↦ rw (missing, get_entity_lock) (insert-Extends e false locks)
  | inr (b, found) ↦ rw (found, get_entity_lock) (λ d c h. (c, h))
]

Known-Extends :
    (t : Task) (locks locks' : Locks) → Extends locks locks' → Known locks t → Known locks' t
Known-Extends (arrived e) locks locks' more h = tt
Known-Extends (waiting e) locks locks' more (b, h) = more e b h
Known-Extends (holding e) locks locks' more (b, h) = more e b h
Known-Extends (done e) locks locks' more h = tt

All-Known-Extends :
    (ts : List Task) (locks locks' : Locks)
    → Extends locks locks'
    → All (Known locks) ts
    → All (Known locks') ts
All-Known-Extends [] locks locks' more h = tt
All-Known-Extends (t ∷ ts) locks locks' more (k, h) =
    (Known-Extends t locks locks' more k, All-Known-Extends ts locks locks' more h)

inserted : (e : String) (b : Bool) (locks : Locks) → Dict.lookup e (Dict.insert e b locks) ≡ some b
inserted e b locks = ground (arith, Dict.lookup-insert e e b locks)

lock_there :
    (e : String) (locks : Locks) → (b : Bool) × (Dict.lookup e (get_entity_lock e locks) ≡ some b)
unfolding get_entity_lock
lock_there e locks = elim (Option-cases (Dict.lookup e locks)) [
  | inl missing ↦ rw (missing, get_entity_lock) (false, inserted e false locks)
  | inr (b, found) ↦ rw (found, get_entity_lock) (b, found)
]

pub Step-Known :
    (ts ts' : List Task) (locks locks' : Locks)
    → Step (crowd ts locks) (crowd ts' locks')
    → All (Known locks) ts
    → Extends locks locks' × All (Known locks') ts'
Step-Known _ _ _ _ (arrive e ts locks) (_, h) =
    let more = get_entity_lock-Extends e locks in
    (more, (lock_there e locks, All-Known-Extends ts locks _ more h))
Step-Known _ _ _ _ (acquire e ts locks free) (_, h) =
    let more = insert-Extends e true locks in
    (more, ((true, inserted e true locks), All-Known-Extends ts locks _ more h))
Step-Known _ _ _ _ (leave e ts locks) (_, h) =
    let more = insert-Extends e false locks in (more, (tt, All-Known-Extends ts locks _ more h))
Step-Known _ _ _ _ (there t {ts} {ts'} {locks} {locks'} step) (k, h) =
    let (more, h') = Step-Known ts ts' locks locks' step h in
    (more, (Known-Extends t locks locks' more k, h'))
