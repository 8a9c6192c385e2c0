-- ===== src/Processing/Logged/Batch/Kept.antt =====
-- What becomes of each record in the loops of a batch where log lines may raise.
use fastsqs.Base.{Bool, true, false, String, List, [], ◌∷◌, ◌≡◌, refl, map}
use fastsqs.Value.{Value, null}
use fastsqs.Exceptions.{Exn, Res, ok, raise}
use fastsqs.Types.{Host}
use fastsqs.App.{App}
use fastsqs.Logging.{Console, Logger, Entry}
use fastsqs.Processing.{message_id}
use fastsqs.Processing.Groups.{Key}
use fastsqs.Processing.Batch
use fastsqs.Processing.Batch.{Failures}
use fastsqs.Processing.Batch.Accounts.{
  Accounted, These, nothing, succeeded, failed, skipped, all_skipped, spoken, Runs, over, said,
  run_on,
}
use fastsqs.Processing.Logged.{and_then, handle_record}
use fastsqs.Processing.Logged.Batch.{
  debug_log, handle_record_safe, run_all, process_records, halt_loop, failed_items, error_items,
}

module _ {H : Host} (c : Console H) (log : String → String → Logger H) (app : App H)
    (context : H.LambdaContext) where
  abbrev pub handles : Value → H.World → Res Value × H.World
  handles r w = handle_record c log app r context w

  -- A log line changes the world.
  abbrev pub Says : H.World → H.World → Type 0
  Says w w' =
      (level : String) × (message : String) × (extra : Entry) × ((log level message extra w).1 ≡ w')

  -- The run of handlings and log lines behind a batch, in which each of these records was handled
  -- with success if it is not reported.
  abbrev pub AllSettled : List Value → Failures → H.World → H.World → Type 0
  AllSettled rs failures w w' = Accounted handles Says (These handles Says rs) failures w w'

  -- A loop over these records settles them, unless it raises, where `Q` tells what then holds.
  abbrev pub Kept : Type 0 → List Value → H.World → Res Failures × H.World → Type 0
  Kept Q rs w (ok fs, w') = AllSettled rs fs w w'
  Kept Q rs w (raise e, w') = Q

  pub line_said :
      (level message : String) (extra : Entry) (w w₁ : H.World) (q : Res (Unit {0}))
      → log level message extra w ≡ (q, w₁)
      → Says w w₁
  line_said level message extra w w₁ q h = (level, message, extra, rw h)

  -- What a line, whether it raises or not, and then a loop do.
  Kept-spoken :
      (level message : String) (extra : Entry) (rs : List Value) (w w₀ : H.World)
      (f : H.World → Res Failures × H.World)
      → ((w₁ : H.World) → Says w w₁ → Kept (Unit {0}) rs w₀ (f w₁))
      → Kept (Unit {0}) rs w₀ (and_then (log level message extra w) (λ _ w₁. f w₁))
  Kept-spoken level message extra rs w w₀ f h = at (log level message extra w) refl
    where
      at :
          (q : Res (Unit {0}) × H.World)
          → log level message extra w ≡ q
          → Kept (Unit {0}) rs w₀ (and_then q (λ _ w₁. f w₁))
      at (ok _, w₁) e = h w₁ (line_said level message extra w w₁ (ok tt) e)
      at (raise x, w₁) e = tt

  Kept-debug :
      (debug : Bool) (level message : String) (extra : Entry) (rs : List Value) (w w₀ : H.World)
      (f : H.World → Res Failures × H.World)
      → ((w₁ : H.World) → Runs handles Says [] w w₁ → Kept (Unit {0}) rs w₀ (f w₁))
      → Kept
          (Unit {0})
          rs
          w₀
          (and_then (debug_log c log debug level message extra w) (λ _ w₁. f w₁))
  unfolding debug_log
  Kept-debug true level message extra rs w w₀ f h =
      Kept-spoken level message extra rs w w₀ f (λ w₁ moved. h w₁ (said moved over))
  Kept-debug false level message extra rs w w₀ f h = h w over

  Kept-reported :
      (x : Value) (rs : List Value) (w : H.World) (q : Res Failures × H.World)
      → Kept (Unit {0}) rs w q
      → Kept (Unit {0}) (x ∷ rs) w (and_then q (λ later w₁. (ok (message_id x ∷ later), w₁)))
  Kept-reported x rs w (ok fs, w₁) a = skipped handles Says a
  Kept-reported x rs w (raise e, w₁) a = tt

  Kept-failed :
      (x : Value) (e : Exn) (rs : List Value) (w w₁ w₂ : H.World) (q : Res Failures × H.World)
      → handles x w ≡ (raise e, w₁)
      → Runs handles Says [] w₁ w₂
      → Kept (Unit {0}) rs w₂ q
      → Kept (Unit {0}) (x ∷ rs) w (and_then q (λ later w₃. (ok (message_id x ∷ later), w₃)))
  Kept-failed x e rs w w₁ w₂ (ok fs, w₃) ran moved a =
      failed handles Says ran (run_on handles Says moved a)
  Kept-failed x e rs w w₁ w₂ (raise e', w₃) ran moved a = tt

  Kept-succeeded :
      (Q : Type 0) (x v : Value) (rs : List Value) (w w₁ : H.World) (q : Res Failures × H.World)
      → handles x w ≡ (ok v, w₁)
      → Kept Q rs w₁ q
      → Kept Q (x ∷ rs) w q
  Kept-succeeded Q x v rs w w₁ (ok fs, w₂) ran a = succeeded handles Says ran a
  Kept-succeeded Q x v rs w w₁ (raise e, w₂) ran a = a

  -- What follows a record, on both of its outcomes.
  Kept-record :
      (Q : Type 0) (x : Value) (rs : List Value) (w : H.World)
      (f : H.World → Res Failures × H.World) (g : Exn → H.World → Res Failures × H.World)
      → ((w₁ : H.World) → Kept Q rs w₁ (f w₁))
      → ((e : Exn) (w₁ : H.World) → handles x w ≡ (raise e, w₁) → Kept Q (x ∷ rs) w (g e w₁))
      → Kept Q (x ∷ rs) w (
          let (q, w₁) = handle_record c log app x context w in
          elim q [ ok _ ↦ f w₁ | raise e ↦ g e w₁ ])
  Kept-record Q x rs w f g h k = at (handle_record c log app x context w) refl
    where
      at :
          (out : Res Value × H.World)
          → handle_record c log app x context w ≡ out
          → Kept Q (x ∷ rs) w (let (q, w₁) = out in elim q [ ok _ ↦ f w₁ | raise e ↦ g e w₁ ])
      at (ok v, w₁) ran = Kept-succeeded Q x v rs w w₁ (f w₁) ran (h w₁)
      at (raise e, w₁) ran = k e w₁ ran

  pub process_records-Kept :
      (k : Key) (rs : List Value) (w : H.World)
      → Kept ⊥ rs w (process_records c log false app context k rs w)
  unfolding process_records debug_log
  process_records-Kept k [] w = nothing handles Says w
  process_records-Kept k (x ∷ rs) w =
      Kept-record ⊥ x rs w (process_records c log false app context k rs)
        (λ e w₁. (ok (map message_id (x ∷ rs)), w₁)) (process_records-Kept k rs)
        (λ e w₁ ran. failed handles Says ran (all_skipped handles Says rs w₁))

  pub halt_loop-Kept :
      (debug halted : Bool) (rs : List Value) (w : H.World)
      → Kept (Unit {0}) rs w (halt_loop c log debug app context halted rs w)
  unfolding halt_loop
  halt_loop-Kept debug true [] w = nothing handles Says w
  halt_loop-Kept debug false [] w = nothing handles Says w
  halt_loop-Kept debug true (x ∷ rs) w =
      Kept-reported x rs w (halt_loop c log debug app context true rs w)
        (halt_loop-Kept debug true rs w)
  halt_loop-Kept debug false (x ∷ rs) w =
      Kept-record (Unit {0}) x rs w (halt_loop c log debug app context false rs)
        (λ e w₁.
          and_then
            (debug_log c log debug "error" "FIFO batch halted on failure"
              (error_items c log debug x e) w₁)
            (λ _ w₂. halt_rest w₂))
        (halt_loop-Kept debug false rs)
        (λ e w₁ ran.
          Kept-debug debug "error" "FIFO batch halted on failure" (error_items c log debug x e)
            (x ∷ rs) w₁ w halt_rest
            (λ w₂ moved.
              Kept-failed x e rs w w₁ w₂ (halt_loop c log debug app context true rs w₂) ran moved
                (halt_loop-Kept debug true rs w₂)))
    where
      halt_rest : H.World → Res Failures × H.World
      halt_rest w₂ =
          and_then (halt_loop c log debug app context true rs w₂)
            (λ later w₃. (ok (message_id x ∷ later), w₃))

  -- What a task gives: the record is handled, and a failure has a line of its own.
  Safe : Value → H.World → Res Value × H.World → Type 0
  Safe r w (ok v, w') = (v' : Value) × (handles r w ≡ (ok v', w'))
  Safe r w (raise e, w') = (e' : Exn) × (w₁ : H.World) × (handles r w ≡ (raise e', w₁)) × Says w₁ w'

  handle_record_safe-Safe :
      (debug : Bool) (r : Value) (w : H.World)
      → Safe r w (handle_record_safe c log debug app context r w)
  unfolding handle_record_safe Safe
  handle_record_safe-Safe debug r w = at (handle_record c log app r context w) refl
    where
      line : Exn → H.World → Res (Unit {0}) × H.World
      line e w₁ = log "error" "Record processing failed" (failed_items c log debug r e) w₁

      refused :
          (e : Exn) (w₁ : H.World) (q : Res (Unit {0}) × H.World)
          → handle_record c log app r context w ≡ (raise e, w₁)
          → line e w₁ ≡ q
          → Safe r w (and_then {B = Value} q (λ _ w₂. (raise e, w₂)))
      refused e w₁ (ok _, w₂) ran h =
          (e, w₁, ran, line_said "error" "Record processing failed" _ w₁ w₂ (ok tt) h)
      refused e w₁ (raise x, w₂) ran h =
          (e, w₁, ran, line_said "error" "Record processing failed" _ w₁ w₂ (raise x) h)

      at :
          (out : Res Value × H.World)
          → handle_record c log app r context w ≡ out
          → Safe r w (
              let (q, w₁) = out in
              elim q [
                | ok _ ↦ (ok null, w₁)
                | raise e ↦ and_then {B = Value} (line e w₁) (λ _ w₂. (raise e, w₂))
              ])
      at (ok v, w₁) ran = (v, ran)
      at (raise e, w₁) ran = refused e w₁ (line e w₁) ran refl

  -- The tasks settle the records by the failures that their results tell.
  tasks_step :
      (x : Value) (rs : List Value) (w w₁ w' : H.World) (q : Res Value) (results : List (Res Value))
      → Safe x w (q, w₁)
      → AllSettled rs (Batch.collect_failures rs results) w₁ w'
      → AllSettled (x ∷ rs) (Batch.collect_failures (x ∷ rs) (q ∷ results)) w w'
  unfolding Batch.collect_failures Safe
  tasks_step x rs w w₁ w' (ok v) results (v', ran) a = succeeded handles Says ran a
  tasks_step x rs w w₁ w' (raise e) results (e', w₂, ran, moved) a =
      failed handles Says ran (spoken handles Says moved a)

  pub run_all-AllSettled :
      (debug : Bool) (rs : List Value) (w : H.World)
      → AllSettled rs
          (Batch.collect_failures rs (run_all c log debug app context rs w).0)
          w
          (run_all c log debug app context rs w).1
  unfolding run_all Batch.collect_failures
  run_all-AllSettled debug [] w = nothing handles Says w
  run_all-AllSettled debug (x ∷ rs) w =
      let (q, w₁) = handle_record_safe c log debug app context x w in
      tasks_step x rs w w₁ _ q (run_all c log debug app context rs w₁).0
        (handle_record_safe-Safe debug x w) (run_all-AllSettled debug rs w₁)
