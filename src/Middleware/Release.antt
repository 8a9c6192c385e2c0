-- ===== src/Middleware/Release.antt =====
-- What middlewares acquire in `before` is released, whatever happens.
use fastsqs.Base.{ℕ, suc, ◌-◌, Option, List, [], ◌∷◌, ◌≡◌, arith, All}
use fastsqs.Exceptions.{Exn, Res, ok, raise, error_of}
use fastsqs.Types.{Host}
use fastsqs.Run.{Job, M}
use fastsqs.Middleware.{Middleware, call_before, call_after, run_middleware_stack}
use fastsqs.Middleware.Stack.{bracket, nest, run_middleware_stack-nest}

-- One unit more if the hook has succeeded.
abbrev pub taken : Res (Unit {0}) → ℕ → ℕ
taken (ok _) n = suc n
taken (raise _) n = n

module _ {H : Host} (held : Job H → ℕ) where
  -- A middleware that takes one unit of a resource when `before` succeeds, none when it raises,
  -- and gives one back in `after`, also if that raises.
  pub record Acquires (mw : Middleware H) : Type 0 where
    pub on_enter : (j : Job H) → held (call_before mw j).1 ≡ taken (call_before mw j).0 (held j)
    pub on_leave : (error : Option Exn) (j : Job H) → held (call_after mw error j).1 ≡ held j - 1

  module _ {A : Type 0} (inner : M H A) (keeps : (j : Job H) → held (inner j).1 ≡ held j) where
    bracket-held :
        (mw : Middleware H) → Acquires mw → (j : Job H) → held (bracket mw inner j).1 ≡ held j
    unfolding bracket
    bracket-held mw a j =
        let (r, j') = call_before mw j in
        let (q, j'') = inner j' in
        ground (arith, a.on_enter j, a.on_leave (error_of q) j'', keeps j')

  nest-held :
      {A : Type 0} (mws : List (Middleware H)) (inner : M H A)
      → All Acquires mws
      → ((j : Job H) → held (inner j).1 ≡ held j)
      → (j : Job H) → held (nest mws inner j).1 ≡ held j
  unfolding nest
  nest-held [] inner h keeps = keeps
  nest-held (mw ∷ mws) inner (a, h) keeps = bracket-held _ (nest-held mws inner h keeps) mw a

  -- If every middleware of the stack takes a unit of a resource in `before` exactly when that
  -- succeeds, and gives it back in `after`, and the inner call keeps what is held, then the stack
  -- keeps it too: also when a `before` hook, the inner call or an `after` hook raises.
  pub run_middleware_stack-held :
      {A : Type 0} (mws : List (Middleware H)) (inner : M H A)
      → All Acquires mws
      → ((j : Job H) → held (inner j).1 ≡ held j)
      → (j : Job H) → held (run_middleware_stack mws inner j).1 ≡ held j
  run_middleware_stack-held mws inner h keeps j =
      rw run_middleware_stack-nest (nest-held mws inner h keeps j)
