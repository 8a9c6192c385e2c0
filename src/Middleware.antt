-- ===== src/Middleware.antt =====
-- fastsqs/middleware/base.py: the hooks of a middleware, and the stack that runs them around an
-- inner call.
pub mod Stack
pub mod Release
use fastsqs.Base.{Option, none, some, List, [], ◌∷◌}
use fastsqs.Exceptions.{Exn, Res, ok, raise, error_of}
use fastsqs.Types.{Host}
use fastsqs.Run.{Job, M}

-- A hook that the object lacks is `none`.
pub record Middleware (H : Host) : Type 0 where
  pub before : Option (M H (Unit {0}))
  pub after : Option (Option Exn → M H (Unit {0}))

module _ {H : Host} where
  -- `call_middleware_hook(mw, "before", …)`
  unfoldable pub call_before : Middleware H → M H (Unit {0})
  call_before mw j = elim mw.before [ none ↦ (ok tt, j) | some hook ↦ hook j ]

  -- `call_middleware_hook(mw, "after", …)`
  unfoldable pub call_after : Middleware H → Option Exn → M H (Unit {0})
  call_after mw error j = elim mw.after [ none ↦ (ok tt, j) | some hook ↦ hook error j ]

  -- The `finally` block: the entered middlewares, the last one first. What a hook raises, an
  -- `Exception`, is logged and dropped.
  unfoldable pub unwind : List (Middleware H) → Option Exn → Job H → Job H
  unwind [] error j = j
  unwind (mw ∷ entered) error j = unwind entered error (call_after mw error j).1

  module _ {A : Type 0} where
    -- The `try` block: the entered middlewares, the last one first, and the outcome.
    unfoldable pub enter :
        List (Middleware H)
        → List (Middleware H)
        → M H A
        → Job H
        → List (Middleware H) × (Res A × Job H)
    enter [] entered inner j = (entered, inner j)
    enter (mw ∷ mws) entered inner j =
        let (r, j') = call_before mw j in
        elim r [ ok _ ↦ enter mws (mw ∷ entered) inner j' | raise e ↦ (entered, (raise e, j')) ]

    abbrev pub finish : List (Middleware H) × (Res A × Job H) → Res A × Job H
    finish (entered, (r, j)) = (r, unwind entered (error_of r) j)

    -- `_run_middleware_stack`
    unfoldable pub run_middleware_stack : List (Middleware H) → M H A → M H A
    run_middleware_stack mws inner j = finish (enter mws [] inner j)
