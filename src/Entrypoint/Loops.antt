-- ===== src/Entrypoint/Loops.antt =====
-- The event loops of the threads, over every history of a process.
use fastsqs.Base.{ℕ, suc, ◌<◌, Bool, true, false, some, List, [], ◌∷◌, ◌≡◌, refl}
use fastsqs.Base.{
  arith, contains, nat_eq, if◌then◌else◌, ltb, All, ◌≢◌, ◌⊎◌, inl, inr, Option-cases, Bool-cases,
}
use mathlib.Core.Path.{subst}
use fastsqs.Base.Dict
use fastsqs.Base.Dict.{Dict}
use fastsqs.Entrypoint.{
  Threads, new_loop, own_loop, thread_loop, Event, calls, closes, unregisters, registers, step,
  steps, no_loops,
}

-- Each loop that is kept was made before, and no two threads have one.
abbrev pub Private : Dict ℕ ℕ → ℕ → Type 0
Private owned next =
    ((t loop : ℕ) → Dict.lookup t owned ≡ some loop → loop < next)
    × ((t u loop : ℕ) → Dict.lookup t owned ≡ some loop → Dict.lookup u owned ≡ some loop → t ≡ u)

-- Loops that were closed were made before.
abbrev pub IsSound : Threads → Type 0
IsSound s = Private s.owned s.next × All (λ loop. loop < s.next) s.closed

All-suc : (n : ℕ) (xs : List ℕ) → All (λ x. x < n) xs → All (λ x. x < suc n) xs
All-suc n [] h = tt
All-suc n (x ∷ xs) (p, h) = (omega arith, All-suc n xs h)

-- A loop under the bound is none of the later ones.
contains_made : (n : ℕ) (xs : List ℕ) → All (λ x. x < n) xs → contains xs n ≡ false
contains_made n [] h = refl
contains_made n (x ∷ xs) (p, h) = ground (arith, contains_made n xs h)

Private-insert :
    (t next : ℕ) (owned : Dict ℕ ℕ)
    → Private owned next
    → Private (Dict.insert t next owned) (suc next)
Private-insert t next owned (made, apart) = (
  λ u loop h. grind (arith, Dict.lookup-insert u t next owned, made u loop),
  λ u v loop h k. grind (
    arith,
    Dict.lookup-insert u t next owned,
    Dict.lookup-insert v t next owned,
    made u loop,
    made v loop,
    apart u v loop,
  ),
)

Private-suc : (next : ℕ) (owned : Dict ℕ ℕ) → Private owned next → Private owned (suc next)
Private-suc next owned (made, apart) = (λ t loop h. (let p = made t loop h in omega arith), apart)

own_loop-cases :
    (t : ℕ) (s : Threads)
    → ((loop : ℕ) × ((Dict.lookup t s.owned ≡ some loop)
          × ((contains s.closed loop ≡ false) × (own_loop t s ≡ (loop, s)))))
      ⊎ (own_loop t s ≡ new_loop t s)
unfolding own_loop
own_loop-cases t s = elim (Option-cases (Dict.lookup t s.owned)) [
  | inl h ↦ inr (rw (h, own_loop) refl)
  | inr (loop, h) ↦ elim (Bool-cases (contains s.closed loop)) [
    | inl c ↦ inr (rw (h, own_loop, c) refl)
    | inr c ↦ inl (loop, (h, (c, rw (h, own_loop, c) refl)))
  ]
]

new_loop-IsSound : (t : ℕ) (s : Threads) → IsSound s → IsSound (new_loop t s).1
new_loop-IsSound t s (p, closed) =
    (Private-insert t s.next s.owned p, All-suc s.next s.closed closed)

thread_loop-IsSound : (t : ℕ) (s : Threads) → IsSound s → IsSound (thread_loop t s).1
unfolding thread_loop
thread_loop-IsSound t s h = elim (own_loop-cases t s) [
  | inl (loop, (_, (_, e))) ↦ rw (e, own_loop) h
  | inr e ↦ rw (e, own_loop) (new_loop-IsSound t s h)
]

step-IsSound : (e : Event) (s : Threads) → IsSound s → IsSound (step e s)
unfolding step
step-IsSound (calls t) s h = thread_loop-IsSound t s h
step-IsSound (closes loop) s (p, closed) = (p, closed_more (ltb loop s.next) refl)
  where
    closed_more :
        (b : Bool)
        → ltb loop s.next ≡ b
        → All (λ l. l < s.next) (if b then loop ∷ s.closed else s.closed)
    closed_more true e = (ground arith, closed)
    closed_more false e = closed
step-IsSound (unregisters t) s h = h
step-IsSound (registers t) s (p, closed) =
    (Private-suc s.next s.owned p, All-suc s.next s.closed closed)

steps-IsSound : (es : List Event) (s : Threads) → IsSound s → IsSound (steps es s)
unfolding steps
steps-IsSound [] s h = h
steps-IsSound (e ∷ es) s h = steps-IsSound es (step e s) (step-IsSound e s h)

no_loops-IsSound : IsSound no_loops
unfolding Dict.lookup
no_loops-IsSound =
    (((λ t loop h. absurd (ground arith)), (λ t u loop h k. absurd (ground arith))), tt)

-- After any history of an application's calls in any threads, of loops that are closed, unregistered
-- and registered by others: no two threads have been given the same loop.
pub steps_private :
    (es : List Event) (t u loop loop' : ℕ)
    → t ≢ u
    → Dict.lookup t (steps es no_loops).owned ≡ some loop
    → Dict.lookup u (steps es no_loops).owned ≡ some loop'
    → loop ≢ loop'
steps_private es t u loop loop' differ h k =
    λ e. differ ((steps-IsSound es no_loops no_loops-IsSound).0.1 t u loop h (rw e k))

lookup_inserted : (t v : ℕ) (d : Dict ℕ ℕ) → Dict.lookup t (Dict.insert t v d) ≡ some v
lookup_inserted t v d = ground (arith, Dict.lookup-insert t t v d)

-- A loop that a thread keeps and that is open.
abbrev Keeps : ℕ → ℕ → Threads → Type 0
Keeps t loop s = (Dict.lookup t s.owned ≡ some loop) × (contains s.closed loop ≡ false)

thread_loop-Keeps :
    (t : ℕ) (s : Threads)
    → IsSound s
    → Keeps t (thread_loop t s).0 (thread_loop t s).1
      × (Dict.lookup t (thread_loop t s).1.registered ≡ some (thread_loop t s).0)
unfolding thread_loop
thread_loop-Keeps t s h = elim (own_loop-cases t s) [
  | inl (loop, (owned, (is_open, e))) ↦
      rw (e, own_loop) ((owned, is_open), lookup_inserted t loop s.registered)
  | inr e ↦
      rw (e, own_loop)
        (
          (lookup_inserted t s.next s.owned, contains_made s.next s.closed h.1),
          lookup_inserted t s.next s.registered,
        )
]

-- After any such history, the loop that a call gets is open and is the one that asyncio has registered
-- for the thread, also where other code has unregistered or replaced it.
pub thread_loop_usable :
    (es : List Event) (t : ℕ)
    → (contains (thread_loop t (steps es no_loops)).1.closed (thread_loop t (steps es no_loops)).0
        ≡ false)
      × (Dict.lookup t (thread_loop t (steps es no_loops)).1.registered
          ≡ some (thread_loop t (steps es no_loops)).0)
thread_loop_usable es t =
    let (kept, registered) =
      thread_loop-Keeps t (steps es no_loops) (steps-IsSound es no_loops no_loops-IsSound) in
    (kept.1, registered)

thread_loop_kept : (t loop : ℕ) (s : Threads) → Keeps t loop s → own_loop t s ≡ (loop, s)
unfolding own_loop
thread_loop_kept t loop s (owned, is_open) = rw (owned, own_loop, is_open) refl

abbrev pub Spares : ℕ → Event → Type 0
Spares loop (closes l) = loop ≢ l
Spares loop _ = Unit {0}

new_loop-Keeps :
    (t u loop : ℕ) (s : Threads) → t ≢ u → Keeps t loop s → Keeps t loop (new_loop u s).1
new_loop-Keeps t u loop s differ (owned, is_open) =
    (ground (arith, Dict.lookup-insert t u s.next s.owned), is_open)

own_loop-Keeps : (t u loop : ℕ) (s : Threads) → Keeps t loop s → Keeps t loop (own_loop u s).1
own_loop-Keeps t u loop s h = elim (nat_eq.dec t u) [
  | yes same ↦ rw (← same, thread_loop_kept t loop s h) h
  | no differ ↦ elim (own_loop-cases u s) [
    | inl (l, (_, (_, e))) ↦ rw e h
    | inr e ↦ rw e (new_loop-Keeps t u loop s differ h)
  ]
]

step-Keeps :
    (e : Event) (t loop : ℕ) (s : Threads)
    → Spares loop e
    → Keeps t loop s
    → Keeps t loop (step e s)
unfolding step thread_loop
step-Keeps (calls u) t loop s spares h = own_loop-Keeps t u loop s h
step-Keeps (closes l) t loop s spares (owned, is_open) = (owned, ground arith)
step-Keeps (unregisters u) t loop s spares h = h
step-Keeps (registers u) t loop s spares h = h

steps-Keeps :
    (es : List Event) (t loop : ℕ) (s : Threads)
    → All (Spares loop) es
    → Keeps t loop s
    → Keeps t loop (steps es s)
unfolding steps
steps-Keeps [] t loop s spares h = h
steps-Keeps (e ∷ es) t loop s (spared, spares) h =
    steps-Keeps es t loop (step e s) spares (step-Keeps e t loop s spared h)

-- A thread's loop is used again by its next call, whatever happened in between, if only that loop
-- was not closed.
pub thread_loop_reused :
    (es : List Event) (t loop : ℕ) (s : Threads) (fs : List Event)
    → thread_loop t (steps es no_loops) ≡ (loop, s)
    → All (Spares loop) fs
    → (thread_loop t (steps fs s)).0 ≡ loop
unfolding thread_loop
thread_loop_reused es t loop s fs h spares =
    let kept =
      subst (λ (q : ℕ × Threads). Keeps t q.0 q.1) h
        (thread_loop-Keeps t (steps es no_loops) (steps-IsSound es no_loops no_loops-IsSound)).0 in
    rw (thread_loop_kept t loop (steps fs s) (steps-Keeps fs t loop s spares kept), own_loop) refl
