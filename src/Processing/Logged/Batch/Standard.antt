-- ===== src/Processing/Logged/Batch/Standard.antt =====
-- What becomes of each record of a standard batch where log lines may raise.
use mathlib.Core.Path.{subst}
use fastsqs.Base.{ℕ, zero, suc, Bool, true, false, String, List, [], ◌∷◌, ◌≡◌}
use fastsqs.Base.{refl, sym, ap, string_eq}
use fastsqs.Value.{Value}
use fastsqs.Exceptions.{Res, ok, raise}
use fastsqs.Types.{Host}
use fastsqs.App.{App}
use fastsqs.Logging.{Console, Logger, Entry}
use fastsqs.Processing.{message_id}
use fastsqs.Processing.Groups.{key_eq}
use fastsqs.Processing.Batch
use fastsqs.Processing.Batch.{Failures, Outcome, ended, blocked, report}
use fastsqs.Processing.Batch.Accounts.{
  Accounted, These, Runs, over, said, Runs-append, run_behind, run_on,
}
use fastsqs.Processing.Logged.{and_then}
use fastsqs.Processing.Logged.Batch.{
  debug_log, handle_standard_event, outcome_of, completed, completed_items, run_all, run_standard,
  collect_failures, error_items,
}
use fastsqs.Processing.Logged.Batch.Kept.{handles, Says, Kept, line_said, run_all-AllSettled}

module _ {H : Host} (c : Console H) (log : String → String → Logger H) (app : App H)
    (context : H.LambdaContext) where
  abbrev pub how : Value → H.World → Res Value × H.World
  how = handles c log app context

  abbrev pub Speech : H.World → H.World → Type 0
  Speech = Says c log app context

  abbrev pub Account : (Value → Type 0) → Failures → H.World → H.World → Type 0
  Account P failures w w' = Accounted how Speech P failures w w'

  -- Log lines that lead from one world to another.
  abbrev pub Spoken : H.World → H.World → Type 0
  Spoken w w' = Runs how Speech [] w w'

  -- Only these failures may come of lines that do not raise.
  abbrev Told : Failures → H.World → Res Failures × H.World → Type 0
  Told fs w (ok gs, w') = (gs ≡ fs) × Spoken w w'
  Told fs w (raise e, w') = Unit {0}

  Told-spoken :
      (level message : String) (extra : Entry) (fs : Failures) (w w₀ : H.World)
      (f : H.World → Res Failures × H.World)
      → ((w₁ : H.World) → Speech w w₁ → Told fs w₀ (f w₁))
      → Told fs w₀ (and_then (log level message extra w) (λ _ w₁. f w₁))
  Told-spoken level message extra fs w w₀ f h = at (log level message extra w) refl
    where
      at :
          (q : Res (Unit {0}) × H.World)
          → log level message extra w ≡ q
          → Told fs w₀ (and_then q (λ _ w₁. f w₁))
      at (ok _, w₁) e = h w₁ (line_said c log app context level message extra w w₁ (ok tt) e)
      at (raise x, w₁) e = tt

  Told-before :
      (fs : Failures) (w w₁ : H.World) (q : Res Failures × H.World)
      → Spoken w w₁
      → Told fs w₁ q
      → Told fs w q
  Told-before fs w w₁ (ok gs, w₂) before (same, later) = (same, Runs-append how Speech before later)
  Told-before fs w w₁ (raise e, w₂) before h = tt

  Told-debug :
      (debug : Bool) (level message : String) (extra : Entry) (fs : Failures) (w : H.World)
      (f : H.World → Res Failures × H.World)
      → ((w₁ : H.World) → Told fs w₁ (f w₁))
      → Told fs w (and_then (debug_log c log debug level message extra w) (λ _ w₁. f w₁))
  unfolding debug_log
  Told-debug true level message extra fs w f h =
      Told-spoken level message extra fs w w f
        (λ w₁ moved. Told-before fs w w₁ (f w₁) (said moved over) (h w₁))
  Told-debug false level message extra fs w f h = h w

  Told-line :
      (level message : String) (extra : Entry) (fs : Failures) (w : H.World)
      (f : H.World → Res Failures × H.World)
      → ((w₁ : H.World) → Told fs w₁ (f w₁))
      → Told fs w (and_then (log level message extra w) (λ _ w₁. f w₁))
  Told-line level message extra fs w f h =
      Told-spoken level message extra fs w w f
        (λ w₁ moved. Told-before fs w w₁ (f w₁) (said moved over) (h w₁))

  Told-next :
      (x : Value) (fs : Failures) (w : H.World) (q : Res Failures × H.World)
      → Told fs w q
      → Told (x ∷ fs) w (and_then q (λ later w₁. (ok (x ∷ later), w₁)))
  Told-next x fs w (ok gs, w₁) (same, spoken) = (ap (◌∷◌ x) same, spoken)
  Told-next x fs w (raise e, w₁) h = tt

  collect_failures-Told :
      (debug : Bool) (rs : List Value) (results : List (Res Value)) (w : H.World)
      → Told (Batch.collect_failures rs results) w (collect_failures c log debug rs results w)
  unfolding collect_failures Batch.collect_failures
  collect_failures-Told debug (r ∷ rs) (ok v ∷ results) w =
      Told-line "debug" "Record succeeded" _ _ w (collect_failures c log debug rs results)
        (collect_failures-Told debug rs results)
  collect_failures-Told debug (r ∷ rs) (raise e ∷ results) w =
      Told-line "error" "Record failed" _ _ w behind (λ w₁.
        Told-debug debug "debug" "Record failed" _ _ w₁ rest (λ w₂.
          Told-next (message_id r) _ w₂ (collect_failures c log debug rs results w₂)
            (collect_failures-Told debug rs results w₂)))
    where
      rest : H.World → Res Failures × H.World
      rest w₂ =
          and_then (collect_failures c log debug rs results w₂)
            (λ later w₃. (ok (message_id r ∷ later), w₃))

      behind : H.World → Res Failures × H.World
      behind w₁ =
          and_then (debug_log c log debug "debug" "Record failed" (error_items c log debug r e) w₁)
            (λ _ w₂. rest w₂)
  collect_failures-Told debug [] results w = (refl, over)
  collect_failures-Told debug (r ∷ rs) [] w = (refl, over)

  Told-completed :
      (fs : Failures) (w : H.World) (q : Res Failures × H.World) (items : Failures → Entry)
      → Told fs w q
      → Told fs w (
          and_then q (λ failures w₁.
            and_then
              (log "info" "Batch processing completed" (items failures) w₁)
              (λ _ w₂. (ok failures, w₂))))
  Told-completed fs w (raise e, w₁) items h = tt
  Told-completed fs w (ok gs, w₁) items (same, spoken) =
      Told-spoken "info" "Batch processing completed" (items gs) fs w₁ w (λ w₂. (ok gs, w₂))
        (λ w₂ moved. (same, Runs-append how Speech spoken (said moved over)))

  pub same_Account :
      (P : Value → Type 0) (fs gs : Failures) (w w₁ w' : H.World)
      → Account P fs w w₁
      → ◌≡◌ {A = Outcome H} (ended (ok fs) w₁) (ended (ok gs) w')
      → Account P gs w w'
  same_Account P fs gs w w₁ w' a h =
      subst (λ x. Account P x w w') (cc h) (subst (λ x. Account P fs w x) (cc h) a)

  -- A report, behind what the records are accounted for by.
  Told-Account :
      (rs : List Value) (fs failures : Failures) (w w₁ w' : H.World) (q : Res Failures × H.World)
      → Account (These how Speech rs) fs w w₁
      → Told fs w₁ q
      → outcome_of {H = H} q ≡ ended (ok failures) w'
      → Account (These how Speech rs) failures w w'
  Told-Account rs fs failures w w₁ w' (ok gs, w₂) a (same, spoken) e =
      same_Account (These how Speech rs) gs failures w w₂ w'
        (subst (λ x. Account (These how Speech rs) x w w₂) (sym same)
          (run_behind how Speech a spoken))
        e
  Told-Account rs fs failures w w₁ w' (raise x, w₂) a h e = absurd (cc e)

  pub Kept-Account :
      (rs : List Value) (failures : Failures) (w w' : H.World) (q : Res Failures × H.World)
      → Kept c log app context (Unit {0}) rs w q
      → outcome_of {H = H} q ≡ ended (ok failures) w'
      → Account (These how Speech rs) failures w w'
  Kept-Account rs failures w w' (ok fs, w₁) a e =
      same_Account (These how Speech rs) fs failures w w₁ w' a e
  Kept-Account rs failures w w' (raise x, w₁) a e = absurd (cc e)

  permitted_Account :
      (n : ℕ) (rs : List Value) (fs failures : Failures) (w w₁ w' : H.World)
      (q : Res Failures × H.World)
      → Account (These how Speech rs) fs w w₁
      → Told fs w₁ q
      → ◌≡◌ {A = Outcome H}
          (elim n [ zero ↦ blocked | suc _ ↦ outcome_of {H = H} q ])
          (ended (ok failures) w')
      → Account (These how Speech rs) failures w w'
  permitted_Account zero rs fs failures w w₁ w' q a h e = absurd (cc e)
  permitted_Account (suc n) rs fs failures w w₁ w' q a h e =
      Told-Account rs fs failures w w₁ w' q a h e

  run_standard-Account :
      (debug : Bool) (rs : List Value) (w : H.World) (q : Res (Unit {0}) × H.World) (w' : H.World)
      (failures : Failures)
      → ((w₁ : H.World) → q.1 ≡ w₁ → Spoken w w₁)
      → run_standard c log debug app context rs q ≡ ended (ok failures) w'
      → Account (These how Speech rs) failures w w'
  run_standard-Account debug rs w (raise x, w₁) w' failures before h = absurd (cc h)
  run_standard-Account debug rs w (ok _, w₁) w' failures before h =
      let (results, w₂) = run_all c log debug app context rs w₁ in
      permitted_Account app.max_concurrent_messages rs (Batch.collect_failures rs results) failures
        w w₂ w' (completed c log debug app context rs results w₂)
        (run_on how Speech (before w₁ refl) (run_all-AllSettled c log app context debug rs w₁))
        (Told-completed _ w₂ (collect_failures c log debug rs results w₂)
          (completed_items c log debug app context rs) (collect_failures-Told debug rs results w₂))
        h

  pub standard-Account :
      (debug : Bool) (rs : List Value) (w w' : H.World) (failures : Failures)
      → handle_standard_event c log debug app context rs w ≡ ended (ok failures) w'
      → Account (These how Speech rs) failures w w'
  unfolding handle_standard_event
  standard-Account debug rs w w' failures h =
      run_standard-Account debug rs w (log "info" "Processing records in standard queue mode" _ w)
        w' failures (λ w₁ e. said (_, _, _, e) over) h
