-- ===== src/Examples/CustomMiddleware/Counters.antt =====
-- What the counters of examples/custom_middleware_example count.
use mathlib.Core.Path.{subst}
use mathlib.Core.List.{reverse}
use fastsqs.Base.{
  if◌then◌else◌, String, List, [], ◌∷◌, true, ◌≡◌, ◌∙◌, refl, sym, ap, arith, string_eq,
}
use fastsqs.Base.Dict
use fastsqs.Value.{null, pos, int, obj, arr, nil, Value, Fields, field, end, put, find, get, truthy}
use fastsqs.Exceptions.{ok, raise, value_error}
use fastsqs.Types.{Host}
use fastsqs.Types.Scratch
use fastsqs.Types.Scratch.{State, empty, plain}
use fastsqs.Run.{Job, M, throw}
use fastsqs.App.{App}
use fastsqs.Processing.{prepare}
use fastsqs.Examples.{Pydantic, host}
use fastsqs.Middleware.{Middleware, enter, call_before}
use fastsqs.Examples.CustomMiddleware.{
  Numbers, logging_before, errors_before, metrics_before, plus_one, bump, middlewares, keep_count,
  custom_logging, error_handling, metrics_collection,
}

module _ {H : Host} where
  prepare-empty :
      (app : App H) (d : Fields) (context : H.LambdaContext) (w : H.World) (j : Job H)
      → prepare app d context w ≡ ok j
      → (j.ctx.state ≡ empty) × (j.ctx.sqs_record ≡ obj d)
  unfolding prepare
  prepare-empty app d context w j h = ground arith

-- The metrics after the first count.
abbrev pub counted : Fields
counted = field "total_messages" (int (pos 1)) (
    field "successful_messages" (int (pos 0))
      (field "failed_messages" (int (pos 0)) (field "processing_times" (arr nil) end)))

module _ (p : Pydantic) (n : Numbers) where
  abbrev reset : Fields → Job (host p) → Job (host p)
  reset d j = record j { ctx = record j.ctx { state = empty; sqs_record = obj d } }

  reset_same :
      (d : Fields) (j : Job (host p))
      → j.ctx.state ≡ empty
      → j.ctx.sqs_record ≡ obj d
      → j ≡ reset d j
  reset_same d j h k =
      ap (λ s. record j { ctx = record j.ctx { state = s } }) h
      ∙ ap (λ r. record j { ctx = record j.ctx { state = empty; sqs_record = r } }) k

  -- The message count and the metrics that a job's state has.
  abbrev pub StartsOver : Job (host p) → Type 0
  StartsOver j =
      (Scratch.get "message_count" (plain null) j.ctx.state ≡ plain (int (pos 1)))
      × (Scratch.get "metrics" (plain null) j.ctx.state ≡ plain (obj counted))

  -- The three `before` hooks succeed, and what runs inside them sees such a state.
  abbrev pub EntersAfresh : M (host p) Value → Job (host p) → Type 0
  EntersAfresh inner j =
      (j' : Job (host p)) × (enter (middlewares p n) [] inner j
        ≡ (reverse (middlewares p n), inner j'))
      × StartsOver j'

  -- The jobs behind the hooks, if the payload has an action.
  abbrev logged : Job (host p) → Job (host p)
  logged j = (logging_before p n j).1

  abbrev checked : Job (host p) → Job (host p)
  checked j = (keep_count p n (logged j)).1

  abbrev measured : Job (host p) → Job (host p)
  measured j = (metrics_before p n (checked j)).1

  errors_entered :
      (j : Job (host p))
      → truthy (get "action" j.payload) ≡ true
      → errors_before p n j ≡ keep_count p n j
  unfolding errors_before
  errors_entered j h = ap (λ b. (if b then keep_count p n else throw value_error) j) h

  next_entered :
      (mw : Middleware (host p)) (mws entered : List (Middleware (host p)))
      (inner : M (host p) Value) (j j' : Job (host p))
      → call_before mw j ≡ (ok tt, j')
      → enter (mw ∷ mws) entered inner j ≡ enter mws (mw ∷ entered) inner j'
  unfolding enter
  next_entered mw mws entered inner j j' e =
      ap
        (λ out.
          (let (r, x) = out in
            elim r [
              | ok _ ↦ enter mws (mw ∷ entered) inner x
              | raise err ↦ (entered, (raise err, x))
            ]))
        e

  all_entered :
      (inner : M (host p) Value) (j j₁ j₂ j₃ : Job (host p))
      → logging_before p n j ≡ (ok tt, j₁)
      → errors_before p n j₁ ≡ (ok tt, j₂)
      → metrics_before p n j₂ ≡ (ok tt, j₃)
      → enter (middlewares p n) [] inner j ≡ (reverse (middlewares p n), inner j₃)
  unfolding enter call_before
  all_entered inner j j₁ j₂ j₃ first second third =
      let one = custom_logging p n in
      let two = error_handling p n in
      let three = metrics_collection p n in
      next_entered one (two ∷ three ∷ []) [] inner j j₁ first
      ∙ next_entered two (three ∷ []) (one ∷ []) inner j₁ j₂ second
      ∙ next_entered three [] (two ∷ one ∷ []) inner j₂ j₃ third

  reset_enters :
      (inner : M (host p) Value) (d : Fields) (j : Job (host p))
      → truthy (get "action" j.payload) ≡ true
      → EntersAfresh inner (reset d j)
  unfolding logging_before metrics_before plus_one bump Scratch.get Scratch.set_item
      Scratch.has_item Dict.lookup Dict.insert string_eq find put
  reset_enters inner d j h = (
    measured (reset d j),
    all_entered inner (reset d j) (logged (reset d j)) (checked (reset d j)) (measured (reset d j))
        refl (errors_entered (logged (reset d j)) h) refl,
    (refl, refl),
  )

  -- The counters are kept in the state of one record, which is empty when the record is prepared. So
  -- for every record whose payload has an action that counts as true, in every application with the
  -- three middlewares of the example, however many records came before: all `before` hooks succeed,
  -- and in the job on which the inner call then runs, the message count and the total of the metrics
  -- are 1.
  pub counters_start_over :
      (app : App (host p)) (inner : M (host p) Value) (d : Fields) (w : List String)
      (j : Job (host p))
      → app.middlewares ≡ middlewares p n
      → prepare app d tt w ≡ ok j
      → truthy (get "action" j.payload) ≡ true
      → (j' : Job (host p)) × (enter app.middlewares [] inner j
          ≡ (reverse app.middlewares, inner j'))
        × StartsOver j'
  counters_start_over app inner d w j installed h acts =
      let (e, k) = prepare-empty app d tt w j h in
      let afresh =
        subst (EntersAfresh inner) (sym (reset_same d j e k)) (reset_enters inner d j acts) in
      subst
        (λ mws.
          (j' : Job (host p)) × (enter mws [] inner j ≡ (reverse mws, inner j')) × StartsOver j')
        (sym installed) afresh
