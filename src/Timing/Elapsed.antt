-- ===== src/Timing/Elapsed.antt =====
-- What the timing middleware measures, and what it leaves alone.
use fastsqs.Base.{ℕ, ◌-◌, ◌≤◌, Option, List, ◌∷◌, ◌≡◌, refl, ap, ◌∙◌, arith}
use fastsqs.Value.{pos, str, obj, Fields, get_or, int, null}
use fastsqs.Exceptions.{Exn, Res, error_of}
use fastsqs.Types.{Host}
use fastsqs.Types.Scratch
use fastsqs.Types.Scratch.{plain}
use fastsqs.Run.{Job, M}
use fastsqs.Middleware.{Middleware, call_before, call_after, run_middleware_stack}
use fastsqs.Middleware.Stack.{nest, bracket_entered, run_middleware_stack-nest}
use fastsqs.Timing.{Clock, TimingMiddleware, as_middleware, before, after, store_duration, minus}
use fastsqs.Timing.{after_of, duration, stored}

minus_forward : (m n : ℕ) → n ≤ m → minus m (pos n) ≡ pos (m - n)
unfolding minus
minus_forward m n h = ground arith

module _ {H : Host} (c : Clock H) (mw : TimingMiddleware) where
  -- The job that the rest of the stack gets.
  abbrev pub started : Job H → Job H
  started j = (before c mw j).1

  -- What runs inside is measured, whatever it does: its outcome is the outcome of the whole, and the
  -- `after` hook can add to the state and the log only.
  pub stack_outcome :
      {A : Type 0} (mws : List (Middleware H)) (inner : M H A) (j : Job H)
      → run_middleware_stack (as_middleware c mw ∷ mws) inner j ≡ (
        (run_middleware_stack mws inner (started j)).0,
        (after c mw
            (error_of (run_middleware_stack mws inner (started j)).0)
            (run_middleware_stack mws inner (started j)).1).1,
      )
  unfolding call_before call_after nest before
  stack_outcome mws inner j =
      rw
        (
          run_middleware_stack-nest (as_middleware c mw ∷ mws) inner,
          run_middleware_stack-nest mws inner,
        )
        (bracket_entered (as_middleware c mw) (nest mws inner) j (started j) refl)

  after_stores :
      (error : Option Exn) (d : Fields) (t : ℕ) (j : Job H)
      → t ≤ c.perf_counter_ns j.world
      → Scratch.get mw.store_key_start (plain null) j.ctx.state ≡ plain (int (pos t))
      → j.ctx.sqs_record ≡ obj d
      → (after c mw error j).1
        ≡ store_duration c mw
            (get_or "messageId" (str "UNKNOWN") d)
            error
            (c.millis (pos (c.perf_counter_ns j.world - t)))
            j
  unfolding after duration
  after_stores error d t j forward start is_dict =
      ap (λ v. (after_of c mw error v j).1) is_dict
      ∙ (ap
            (λ s.
              (stored c mw (get_or "messageId" (str "UNKNOWN") d) error
                (duration c (c.perf_counter_ns j.world) s) j).1)
            start
          ∙ ap
              (λ n. store_duration c mw (get_or "messageId" (str "UNKNOWN") d) error (c.millis n) j)
              (minus_forward (c.perf_counter_ns j.world) t forward))

  -- If the slot of the start is left alone by what runs inside, and the clock is not set back: the
  -- stack ends with the outcome of what runs inside, and with the duration stored of exactly the
  -- nanoseconds between the start and the end, which are not negative.
  pub stack_timed :
      {A : Type 0} (mws : List (Middleware H)) (inner : M H A) (d : Fields) (j j' : Job H)
      (r : Res A)
      → run_middleware_stack mws inner (started j) ≡ (r, j')
      → c.perf_counter_ns j.world ≤ c.perf_counter_ns j'.world
      → Scratch.get mw.store_key_start (plain null) j'.ctx.state
        ≡ plain (int (pos (c.perf_counter_ns j.world)))
      → j'.ctx.sqs_record ≡ obj d
      → run_middleware_stack (as_middleware c mw ∷ mws) inner j ≡ (
        r,
        store_duration c mw
            (get_or "messageId" (str "UNKNOWN") d)
            (error_of r)
            (c.millis (pos (c.perf_counter_ns j'.world - c.perf_counter_ns j.world)))
            j',
      )
  stack_timed mws inner d j j' r inside forward start is_dict =
      stack_outcome mws inner j
      ∙ (ap (λ (q : Res _ × Job H). (q.0, (after c mw (error_of q.0) q.1).1)) inside
          ∙ ap (λ k. (r, k))
              (after_stores (error_of r) d (c.perf_counter_ns j.world) j' forward start is_dict))
