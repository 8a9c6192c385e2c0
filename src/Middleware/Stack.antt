-- ===== src/Middleware/Stack.antt =====
-- The middleware stack against nested brackets.
use fastsqs.Base.{List, [], ◌∷◌, ◌++◌, ◌≡◌, refl, ap, arith, fun_ext}
use fastsqs.Exceptions.{Exn, Res, ok, raise, error_of}
use fastsqs.Types.{Host}
use fastsqs.Run.{Job, M}
use fastsqs.Middleware.{Middleware, call_before, call_after, unwind, enter, finish}
use fastsqs.Middleware.{run_middleware_stack}

module _ {H : Host} {A : Type 0} where
  -- One middleware around a computation: `after` runs if `before` has succeeded, whatever the
  -- computation gives, and cannot change that.
  unfoldable pub bracket : Middleware H → M H A → M H A
  bracket mw inner j =
      let (entered, j') = call_before mw j in
      elim entered [
        | ok _ ↦ let (r, j'') = inner j' in (r, (call_after mw (error_of r) j'').1)
        | raise e ↦ (raise e, j')
      ]

  unfoldable pub nest : List (Middleware H) → M H A → M H A
  nest [] inner = inner
  nest (mw ∷ mws) inner = bracket mw (nest mws inner)

  pub bracket_entered :
      (mw : Middleware H) (inner : M H A) (j j' : Job H)
      → call_before mw j ≡ (ok tt, j')
      → bracket mw inner j ≡ ((inner j').0, (call_after mw (error_of (inner j').0) (inner j').1).1)
  unfolding bracket
  bracket_entered mw inner j j' h = rw (
    ap (λ (q : Res (Unit {0}) × Job H). q.0) h,
    ap (λ (q : Res (Unit {0}) × Job H). q.1) h,
    bracket,
  )

  pub bracket_refused :
      (mw : Middleware H) (inner : M H A) (j j' : Job H) (e : Exn)
      → call_before mw j ≡ (raise e, j')
      → bracket mw inner j ≡ (raise e, j')
  unfolding bracket
  bracket_refused mw inner j j' e h = rw (
    ap (λ (q : Res (Unit {0}) × Job H). q.0) h,
    ap (λ (q : Res (Unit {0}) × Job H). q.1) h,
    bracket,
  )

  abbrev unwound : List (Middleware H) → Res A × Job H → Res A × Job H
  unwound entered (r, j) = (r, unwind entered (error_of r) j)

  enter-nest :
      (mws entered : List (Middleware H)) (inner : M H A) (j : Job H)
      → finish (enter mws entered inner j) ≡ unwound entered (nest mws inner j)
  unfolding enter nest bracket unwind
  enter-nest [] entered inner j = refl
  enter-nest (mw ∷ mws) entered inner j =
      ground (arith, enter-nest mws (mw ∷ entered) inner (call_before mw j).1)

  -- For all middlewares and every inner call: running the stack is the same computation as the
  -- middlewares nested as brackets. So `after` runs for exactly the middlewares whose `before` has
  -- succeeded, innermost first, each with the error of the whole, and no `after` hook changes the
  -- outcome.
  pub run_middleware_stack-nest :
      (mws : List (Middleware H)) (inner : M H A) → run_middleware_stack mws inner ≡ nest mws inner
  unfolding run_middleware_stack unwind
  run_middleware_stack-nest mws inner = fun_ext (λ j. enter-nest mws [] inner j)

  nest-append :
      (xs ys : List (Middleware H)) (inner : M H A)
      → nest (xs ++ ys) inner ≡ nest xs (nest ys inner)
  unfolding nest
  nest-append [] ys inner = refl
  nest-append (x ∷ xs) ys inner = rw (nest-append xs ys inner)

  -- A stack of two lists of middlewares is the stack of the first around the stack of the second,
  -- on every outcome: the chain of app, parent routers, router and route is one nesting.
  pub run_middleware_stack-append :
      (xs ys : List (Middleware H)) (inner : M H A)
      → run_middleware_stack (xs ++ ys) inner
        ≡ run_middleware_stack xs (run_middleware_stack ys inner)
  run_middleware_stack-append xs ys inner = simp (run_middleware_stack-nest, nest-append)
