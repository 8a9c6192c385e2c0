-- ===== src/Tests/Threads.antt =====
-- The event loops of two threads.
use fastsqs.Base.{ℕ, arith, false, some, [], ◌∷◌, ◌≡◌, ◌≢◌, refl, contains, nat_eq}
use fastsqs.Base.Dict
use fastsqs.Entrypoint.{
  thread_loop, own_loop, calls, closes, unregisters, registers, step, steps, no_loops,
}
use fastsqs.Entrypoint.Loops.{steps_private, thread_loop_usable, thread_loop_reused}

-- Thread 1 gets loop 0 and thread 2 loop 1; loop 0 is closed, and thread 1 gets loop 2.
two_threads :
    (steps (calls 1 ∷ calls 2 ∷ closes 0 ∷ unregisters 2 ∷ calls 1 ∷ []) no_loops).owned
    ≡ (1, 2) ∷ (2, 1) ∷ []
unfolding steps step thread_loop own_loop Dict.lookup Dict.insert Dict.erase nat_eq
two_threads = refl

steps_private_example : ◌≢◌ {A = ℕ} 0 1
unfolding steps step thread_loop own_loop Dict.lookup Dict.insert nat_eq
steps_private_example =
    steps_private (calls 1 ∷ calls 2 ∷ []) 1 2 0 1 (λ e. absurd (omega arith)) refl refl

thread_loop_usable_example :
    (contains
        (thread_loop 1 (steps (calls 1 ∷ closes 0 ∷ []) no_loops)).1.closed
        (thread_loop 1 (steps (calls 1 ∷ closes 0 ∷ []) no_loops)).0
      ≡ false)
    × (Dict.lookup 1 (thread_loop 1 (steps (calls 1 ∷ closes 0 ∷ []) no_loops)).1.registered
        ≡ some (thread_loop 1 (steps (calls 1 ∷ closes 0 ∷ []) no_loops)).0)
thread_loop_usable_example = thread_loop_usable (calls 1 ∷ closes 0 ∷ []) 1

loop_again :
    (thread_loop 1 (
      steps
        (calls 2 ∷ registers 1 ∷ closes 1 ∷ [])
        (record { owned = (1, 0) ∷ []; registered = (1, 0) ∷ []; closed = []; next = 1 }))).0
    ≡ 0
unfolding steps step thread_loop own_loop Dict.lookup Dict.insert nat_eq
loop_again =
    thread_loop_reused [] 1 0
      (record { owned = (1, 0) ∷ []; registered = (1, 0) ∷ []; closed = []; next = 1 })
      (calls 2 ∷ registers 1 ∷ closes 1 ∷ []) refl (tt, (tt, ((λ e. absurd (omega arith)), tt)))
