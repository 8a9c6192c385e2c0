-- ===== src/Entrypoint.antt =====
-- The entry points of fastsqs/app.py, and the event loops that they keep for the threads. Threads
-- and event loops are named by numbers.
pub mod Loops
use fastsqs.Base.{ℕ, suc, Bool, true, false, none, some, List, [], ◌∷◌, contains, nat_eq}
use fastsqs.Base.{if◌then◌else◌, ltb}
use fastsqs.Base.Dict
use fastsqs.Base.Dict.{Dict}
use fastsqs.Value.{Value}
use fastsqs.Exceptions.{raise, runtime_error}
use fastsqs.Types.{Host}
use fastsqs.App.{App}
use fastsqs.Processing.Batch.{Outcome, ended, handle_event}

-- `self._loops.loop` of each thread, the loop that asyncio has for it, the loops that were closed,
-- and the name that the next loop gets.
pub record Threads : Type 0 where
  pub owned : Dict ℕ ℕ
  pub registered : Dict ℕ ℕ
  pub closed : List ℕ
  pub next : ℕ

-- `asyncio.new_event_loop()`, kept for a thread.
abbrev pub new_loop : ℕ → Threads → ℕ × Threads
new_loop thread s =
    (s.next, record s { owned = Dict.insert thread s.next s.owned; next = suc s.next })

unfoldable pub own_loop : ℕ → Threads → ℕ × Threads
unfolding nat_eq
own_loop thread s = elim (Dict.lookup thread s.owned) [
  | none ↦ new_loop thread s
  | some loop ↦ if contains s.closed loop then new_loop thread s else (loop, s)
]

-- `_thread_loop`
unfoldable pub thread_loop : ℕ → Threads → ℕ × Threads
unfolding own_loop
thread_loop thread s =
    let (loop, s') = own_loop thread s in
    (loop, record s' { registered = Dict.insert thread loop s'.registered })

module _ {H : Host} (app : App H) (context : H.LambdaContext) where
  -- `handler`, called in a thread in which an event loop is running or not.
  unfoldable pub handler : Bool → ℕ → Value → H.World → Threads → Outcome H × Threads
  unfolding thread_loop
  handler true thread event w s = (ended (raise runtime_error) w, s)
  handler false thread event w s = (handle_event app context event w, (thread_loop thread s).1)

  -- `async_handler`
  abbrev pub async_handler : Value → H.World → Outcome H
  async_handler event w = handle_event app context event w

-- What happens in a process: a call of `_thread_loop` in a thread; a loop that there is is closed;
-- `asyncio.run` elsewhere unregisters a thread's loop, or other code registers one of its own.
pub data Event : Type 0 where
  calls : (thread : ℕ) → Event
  closes : (loop : ℕ) → Event
  unregisters : (thread : ℕ) → Event
  registers : (thread : ℕ) → Event

unfoldable pub step : Event → Threads → Threads
unfolding thread_loop
step (calls thread) s = (thread_loop thread s).1
step (closes loop) s = record s { closed = if ltb loop s.next then loop ∷ s.closed else s.closed }
step (unregisters thread) s = record s { registered = Dict.erase thread s.registered }
step (registers thread) s = record s {
  registered = Dict.insert thread s.next s.registered;
  next = suc s.next;
}

unfoldable pub steps : List Event → Threads → Threads
unfolding step
steps [] s = s
steps (e ∷ es) s = steps es (step e s)

-- A new application.
abbrev pub no_loops : Threads
no_loops = record { owned = []; registered = []; closed = []; next = 0 }
