-- ===== src/Processing/Logged/Batch/Loops.antt =====
-- The loops of a batch where the logger does nothing.
use fastsqs.Base.{String, Bool, true, false, List, [], ◌∷◌, ◌++◌, ◌≡◌, refl, ap, ◌∙◌}
use fastsqs.Base.{arith, string_eq, map}
use fastsqs.Base.Dict.{Dict}
use fastsqs.Value.{Value, null}
use fastsqs.Exceptions.{Exn, Res, ok, raise}
use fastsqs.Types.{Host}
use fastsqs.App.{App}
use fastsqs.Logging.{Console, Entry}
use fastsqs.Processing
use fastsqs.Processing.Groups.{Key}
use fastsqs.Processing.Batch
use fastsqs.Processing.Batch.{Failures, Outcome, ended, blocked, report}
use fastsqs.Processing.Logged.{and_then}
use fastsqs.Processing.Logged.Silent.{silent, handle_record-silent}
use fastsqs.Processing.Logged.Batch.{
  debug_log, collect_failures, handle_record_safe, run_all, process_records, process_group,
  run_groups, join_groups, halt_loop, error_items, halted_items,
}

-- The end of a computation that raises nothing.
abbrev pub ended_ok : {W : Type 0} → Failures × W → Res Failures × W
ended_ok (failures, w) = (ok failures, w)

abbrev pub gathered : {W : Type 0} → List Value → List (Res Value) × W → Failures × W
gathered rs (results, w) = (Batch.collect_failures rs results, w)

-- A failure behind which others are collected.
abbrev behind : {W : Type 0} → Value → Failures × W → Failures × W
behind r (failures, w) = (Processing.message_id r ∷ failures, w)

-- What follows a record, where the outcome is the same and both ways of going on agree.
after_same :
    {A W : Type 0} {out out' : Res A × W} (f : W → Res Failures × W)
    (g : Exn → W → Res Failures × W) (f' : W → Failures × W) (g' : Exn → W → Failures × W)
    → out ≡ out'
    → ((w : W) → f w ≡ ended_ok (f' w))
    → ((e : Exn) (w : W) → g e w ≡ ended_ok (g' e w))
    → (let (q, w) = out in elim q [ ok _ ↦ f w | raise e ↦ g e w ])
      ≡ ended_ok (let (q, w) = out' in elim q [ ok _ ↦ f' w | raise e ↦ g' e w ])
after_same {A = A} {W = W} {out = out} {out' = out'} f g f' g' same h k =
    ap (λ o. let (q, w) = o in elim q [ ok _ ↦ f w | raise e ↦ g e w ]) same ∙ at out'
  where
    at :
        (o : Res A × W)
        → (let (q, w) = o in elim q [ ok _ ↦ f w | raise e ↦ g e w ])
          ≡ ended_ok (let (q, w) = o in elim q [ ok _ ↦ f' w | raise e ↦ g' e w ])
    at (ok v, w) = h w
    at (raise e, w) = k e w

-- `_handle_record_safe` returns None.
abbrev unanswered : {W : Type 0} → Res Value × W → Res Value × W
unanswered (ok _, w) = (ok null, w)
unanswered (raise e, w) = (raise e, w)

module _ {H : Host} (c : Console H) (debug : Bool) where
  pub debug_log-silent :
      (level message : String) (extra : Entry) (w : H.World)
      → debug_log c (silent c) debug level message extra w ≡ (ok tt, w)
  unfolding debug_log
  debug_log-silent level message extra w = ground arith

  pub collect_failures-silent :
      (rs : List Value) (results : List (Res Value)) (w : H.World)
      → collect_failures c (silent c) debug rs results w
        ≡ (ok (Batch.collect_failures rs results), w)
  unfolding collect_failures Batch.collect_failures
  collect_failures-silent (r ∷ rs) (ok v ∷ results) w = collect_failures-silent rs results w
  collect_failures-silent (r ∷ rs) (raise e ∷ results) w =
      rw
        (
          debug_log-silent "debug" "Record failed" (error_items c (silent c) debug r e) w,
          collect_failures,
          collect_failures-silent rs results w,
        )
        refl
  collect_failures-silent [] results w = refl
  collect_failures-silent (r ∷ rs) [] w = refl

  module _ (app : App H) (context : H.LambdaContext) where
    -- What is collected of the tasks, and the world behind them.
    handle_record_safe-silent :
        (r : Value) (w : H.World)
        → handle_record_safe c (silent c) debug app context r w
          ≡ unanswered (Processing.handle_record app r context w)
    unfolding handle_record_safe
    handle_record_safe-silent r w =
        ap (λ out. (let (q, w') = out in elim q [ ok _ ↦ (ok null, w') | raise e ↦ (raise e, w') ]))
          (handle_record-silent c app r context w)
        ∙ at (Processing.handle_record app r context w)
      where
        at :
            (out : Res Value × H.World)
            → (let (q, w') = out in elim q [ ok _ ↦ (ok null, w') | raise e ↦ (raise e, w') ])
              ≡ unanswered out
        at (ok v, w') = refl
        at (raise e, w') = refl

    pub run_all-silent :
        (rs : List Value) (w : H.World)
        → gathered rs (run_all c (silent c) debug app context rs w)
          ≡ gathered rs (Batch.run_all app context rs w)
    unfolding run_all Batch.run_all Batch.collect_failures
    run_all-silent [] w = refl
    run_all-silent (r ∷ rs) w =
        ap
          (λ out.
            (let (q, w') = out in
              let (qs, w'') = run_all c (silent c) debug app context rs w' in
              gathered (r ∷ rs) (q ∷ qs, w'')))
          (handle_record_safe-silent r w)
        ∙ at (run_all-silent rs) (Processing.handle_record app r context w)
      where
        at :
            ((w' : H.World)
              → gathered rs (run_all c (silent c) debug app context rs w')
                ≡ gathered rs (Batch.run_all app context rs w'))
            → (out : Res Value × H.World)
            → (let (q, w') = unanswered out in
                let (qs, w'') = run_all c (silent c) debug app context rs w' in
                gathered (r ∷ rs) (q ∷ qs, w''))
              ≡ (let (q, w') = out in
                  let (qs, w'') = Batch.run_all app context rs w' in
                  gathered (r ∷ rs) (q ∷ qs, w''))
        at same (ok v, w') = same w'
        at same (raise e, w') = ap (behind r) (same w')

    process_records-silent :
        (k : Key) (rs : List Value) (w : H.World)
        → process_records c (silent c) debug app context k rs w
          ≡ ended_ok (Batch.process_group app context rs w)
    unfolding process_records Batch.process_group
    process_records-silent k [] w = refl
    process_records-silent k (r ∷ rs) w =
        after_same (process_records c (silent c) debug app context k rs)
          (λ e w'.
            and_then
              (debug_log c (silent c) debug "error"
                "FIFO record failed; halting group to preserve ordering"
                (halted_items c (silent c) debug k r e) w')
              (λ _ w''. (ok (map Processing.message_id (r ∷ rs)), w'')))
          (Batch.process_group app context rs) (λ e w'. (map Processing.message_id (r ∷ rs), w'))
          (handle_record-silent c app r context w) (process_records-silent k rs)
          (λ e w'.
            rw
              (debug_log-silent "error" "FIFO record failed; halting group to preserve ordering"
                (halted_items c (silent c) debug k r e) w')
              refl)

    pub halt_loop-silent :
        (halted : Bool) (rs : List Value) (w : H.World)
        → halt_loop c (silent c) debug app context halted rs w
          ≡ ended_ok (Batch.halt_loop app context halted rs w)
    unfolding halt_loop Batch.halt_loop
    halt_loop-silent true [] w = refl
    halt_loop-silent false [] w = refl
    halt_loop-silent true (r ∷ rs) w = rw (halt_loop-silent true rs w) refl
    halt_loop-silent false (r ∷ rs) w =
        after_same (halt_loop c (silent c) debug app context false rs)
          (λ e w'.
            and_then
              (debug_log c (silent c) debug "error" "FIFO batch halted on failure"
                (error_items c (silent c) debug r e) w')
              (λ _ w1.
                and_then (halt_loop c (silent c) debug app context true rs w1)
                  (λ later w2. (ok (Processing.message_id r ∷ later), w2))))
          (Batch.halt_loop app context false rs)
          (λ e w'. behind r (Batch.halt_loop app context true rs w'))
          (handle_record-silent c app r context w) (halt_loop-silent false rs)
          (λ e w'.
            rw
              (
                debug_log-silent "error" "FIFO batch halted on failure"
                    (error_items c (silent c) debug r e) w',
                halt_loop-silent true rs w',
              )
              refl)

    abbrev pub joined : List (Res Failures) × H.World → Res Failures × H.World
    joined (results, w) = join_groups c (silent c) debug app context results w

    process_group-silent :
        (k : Key) (rs : List Value) (w : H.World)
        → process_group c (silent c) debug app context k rs w
          ≡ ended_ok (Batch.process_group app context rs w)
    unfolding process_group
    process_group-silent k rs w =
        rw (debug_log-silent "debug" "Processing group" _ w, process_group)
          (process_records-silent k rs w)

    pub groups_silent :
        (groups : Dict Key (List Value)) (w : H.World)
        → joined (run_groups c (silent c) debug app context groups w)
          ≡ ended_ok (Batch.process_groups app context groups w)
    unfolding run_groups join_groups Batch.process_groups
    groups_silent [] w = refl
    groups_silent ((k, rs) ∷ groups) w =
        ap
          (λ out.
            (let (q, w') = out in
              let (qs, w'') = run_groups c (silent c) debug app context groups w' in
              joined (q ∷ qs, w'')))
          (process_group-silent k rs w)
        ∙ (let (failures, w') = Batch.process_group app context rs w in
            ap (λ out. and_then out (λ later w''. (ok (failures ++ later), w'')))
              (groups_silent groups w'))
