-- ===== src/Processing/Batch/Settled.antt =====
-- What becomes of each record of a batch.
use mathlib.Core.Path.{subst}
use fastsqs.Base.{ℕ, true, false, Bool, List, [], ◌∷◌, ◌≡◌, refl, ◌⊎◌, inl, inr, map}
use fastsqs.Base.{Among, ◌==◌, string_eq, Bool-cases, nat_eq, zero, suc}
use fastsqs.Base.Dict
use fastsqs.Base.Dict.{Dict}
use fastsqs.Value.{Value}
use fastsqs.Exceptions.{Exn, Res, ok, raise, Res-cases}
use fastsqs.Types.{Host, QueueType, auto, standard, fifo}
use fastsqs.App.{App, resolve_queue_type}
use fastsqs.Processing.{message_id, handle_record}
use fastsqs.Processing.Groups.{Key, key_eq, group_records}
use fastsqs.Processing.Groups.Laws.{group_records-Among}
use fastsqs.Processing.Batch.{
  Failures, Outcome, ended, blocked, collect_failures, run_all, report, handle_standard_event,
  process_group, process_groups, halt_loop, handle_fifo_event, handle_records,
}
use fastsqs.Processing.Batch.Accounts.{
  Accounted, These, nothing, succeeded, failed, skipped, all_skipped, both, narrowed,
}

module _ {H : Host} (app : App H) (context : H.LambdaContext) where
  abbrev handles : Value → H.World → Res Value × H.World
  handles r w = handle_record app r context w

  -- Nothing but the handlings changes the world.
  abbrev Nothing : H.World → H.World → Type 0
  Nothing w w' = ⊥

  -- The run of handlings behind a batch, in which each of these records was handled with success if
  -- it is not reported.
  abbrev pub AllSettled : List Value → Failures → H.World → H.World → Type 0
  AllSettled rs failures w w' = Accounted handles Nothing (These handles Nothing rs) failures w w'

  collect_step :
      (x : Value) (xs : List Value) (w w₁ w' : H.World) (q : Res Value) (qs : List (Res Value))
      → handle_record app x context w ≡ (q, w₁)
      → AllSettled xs (collect_failures xs qs) w₁ w'
      → AllSettled (x ∷ xs) (collect_failures (x ∷ xs) (q ∷ qs)) w w'
  unfolding collect_failures
  collect_step x xs w w₁ w' (ok v) qs ran rest = succeeded handles Nothing ran rest
  collect_step x xs w w₁ w' (raise e) qs ran rest = failed handles Nothing ran rest

  run_all-AllSettled :
      (rs : List Value) (w : H.World)
      → AllSettled rs
          (collect_failures rs (run_all app context rs w).0)
          w
          (run_all app context rs w).1
  unfolding collect_failures run_all
  run_all-AllSettled [] w = nothing handles Nothing w
  run_all-AllSettled (x ∷ xs) w =
      let (q, w₁) = handle_record app x context w in
      collect_step x xs w w₁ _ q (run_all app context xs w₁).0 refl (run_all-AllSettled xs w₁)

  -- What a loop over the records gives, from one world on.
  abbrev Settles : List Value → H.World → Failures × H.World → Type 0
  Settles rs w (failures, w') = AllSettled rs failures w w'

  -- What follows a record, on both of its outcomes.
  record_step :
      (x : Value) (rs : List Value) (w : H.World) (f : H.World → Failures × H.World)
      (g : Exn → H.World → Failures × H.World)
      → ((w₁ : H.World) → Settles rs w₁ (f w₁))
      → ((e : Exn) (w₁ : H.World)
          → handle_record app x context w ≡ (raise e, w₁)
          → Settles (x ∷ rs) w (g e w₁))
      → Settles
          (x ∷ rs)
          w
          (let (q, w₁) = handle_record app x context w in elim q [ ok _ ↦ f w₁ | raise e ↦ g e w₁ ])
  record_step x rs w f g h k = at (handle_record app x context w) refl
    where
      at :
          (out : Res Value × H.World)
          → handle_record app x context w ≡ out
          → Settles (x ∷ rs) w (let (q, w₁) = out in elim q [ ok _ ↦ f w₁ | raise e ↦ g e w₁ ])
      at (ok v, w₁) ran = succeeded handles Nothing ran (h w₁)
      at (raise e, w₁) ran = k e w₁ ran

  process_group-Settles :
      (rs : List Value) (w : H.World) → Settles rs w (process_group app context rs w)
  unfolding process_group
  process_group-Settles [] w = nothing handles Nothing w
  process_group-Settles (x ∷ rs) w =
      record_step x rs w (process_group app context rs) (λ e w₁. (map message_id (x ∷ rs), w₁))
        (process_group-Settles rs)
        (λ e w₁ ran. failed handles Nothing ran (all_skipped handles Nothing rs w₁))

  halt_loop-Settles :
      (halted : Bool) (rs : List Value) (w : H.World)
      → Settles rs w (halt_loop app context halted rs w)
  unfolding halt_loop
  halt_loop-Settles true [] w = nothing handles Nothing w
  halt_loop-Settles false [] w = nothing handles Nothing w
  halt_loop-Settles true (x ∷ rs) w = skipped handles Nothing (halt_loop-Settles true rs w)
  halt_loop-Settles false (x ∷ rs) w =
      record_step x rs w (halt_loop app context false rs)
        (λ e w₁. (let (later, w₂) = halt_loop app context true rs w₁ in (message_id x ∷ later, w₂)))
        (halt_loop-Settles false rs)
        (λ e w₁ ran. failed handles Nothing ran (halt_loop-Settles true rs w₁))

  -- The records of all groups.
  abbrev pub InGroups : Dict Key (List Value) → Value → Type 0
  InGroups groups r = (k : Key) × Among r (Dict.get_or k [] groups)

  pub in_first_or_later :
      (j : Key) (rs : List Value) (groups : Dict Key (List Value)) (r : Value)
      → InGroups ((j, rs) ∷ groups) r
      → Among r rs ⊎ InGroups groups r
  unfolding Dict.lookup
  in_first_or_later j rs groups r (k, here) = elim (Bool-cases (k == j)) [
    | inl e ↦ inl (rw (e, Dict.get_or) at here)
    | inr e ↦ inr (k, rw (e, Dict.get_or) at here)
  ]

  process_groups-Accounted :
      (groups : Dict Key (List Value)) (w : H.World)
      → Accounted handles Nothing
          (InGroups groups)
          (process_groups app context groups w).0
          w
          (process_groups app context groups w).1
  unfolding process_groups Dict.lookup
  process_groups-Accounted [] w =
      narrowed handles Nothing (λ r (k, here). here) (nothing handles Nothing w)
  process_groups-Accounted ((j, rs) ∷ groups) w =
      both handles Nothing (in_first_or_later j rs groups) (process_group-Settles rs w)
        (process_groups-Accounted groups (process_group app context rs w).1)

  ended_same :
      (P : Value → Type 0) (fs gs : Failures) (w w₁ w' : H.World)
      → Accounted handles Nothing P fs w w₁
      → ◌≡◌ {A = Outcome H} (ended (ok fs) w₁) (ended (ok gs) w')
      → Accounted handles Nothing P gs w w'
  ended_same P fs gs w w₁ w' a h =
      subst (λ x. Accounted handles Nothing P x w w') (cc h)
        (subst (λ x. Accounted handles Nothing P fs w x) (cc h) a)

  -- The tasks had a permit, and the failures are those that were collected.
  permitted :
      (n : ℕ) (rs : List Value) (fs gs : Failures) (w w₁ w' : H.World)
      → AllSettled rs fs w w₁
      → ◌≡◌ {A = Outcome H}
          (elim n [ zero ↦ blocked | suc _ ↦ ended (ok fs) w₁ ])
          (ended (ok gs) w')
      → AllSettled rs gs w w'
  permitted zero rs fs gs w w₁ w' a h = absurd (cc h)
  permitted (suc n) rs fs gs w w₁ w' a h = ended_same (These handles Nothing rs) fs gs w w₁ w' a h

  standard-AllSettled :
      (rs : List Value) (w w' : H.World) (failures : Failures)
      → handle_standard_event app context rs w ≡ ended (ok failures) w'
      → AllSettled rs failures w w'
  unfolding handle_standard_event
  standard-AllSettled rs w w' failures h =
      permitted app.max_concurrent_messages rs _ failures w _ w' (run_all-AllSettled rs w) h

  fifo-AllSettled :
      (rs : List Value) (w w' : H.World) (failures : Failures)
      → handle_fifo_event app context rs w ≡ ended (ok failures) w'
      → AllSettled rs failures w w'
  unfolding handle_fifo_event
  fifo-AllSettled rs w w' failures h = elim (Bool-cases (app.fifo_failure_mode == "halt_batch")) [
    | inl e ↦
        ended_same (These handles Nothing rs) _ failures w _ w' (halt_loop-Settles false rs w)
          (rw (e, handle_fifo_event) at h)
    | inr e ↦ elim (Res-cases (group_records rs)) [
      | inr (x, refused) ↦ absurd (cc (rw (e, refused, handle_fifo_event) at h))
      | inl (groups, found) ↦
          ended_same (These handles Nothing rs) _ failures w _ w'
            (narrowed handles Nothing (λ r. group_records-Among rs groups r found)
              (process_groups-Accounted groups w))
            (rw (e, found, handle_fifo_event) at h)
    ]
  ]

  module _ (partial : app.partial_batch_failure ≡ true) where
    pub report_same :
        (outcome : Outcome H) (failures : Failures) (w' : H.World)
        → report app context outcome ≡ ended (ok failures) w'
        → outcome ≡ ended (ok failures) w'
    report_same (ended (ok []) w) failures w' h = h
    report_same (ended (ok (f ∷ fs)) w) failures w' h = rw partial at h
    report_same (ended (raise e) w) failures w' h = h
    report_same blocked failures w' h = h

    -- Where partial batch failure is on and what is raised is an `Exception`: behind an invocation
    -- that ends with a report, whatever the queue type and the mode, there is one run of handlings,
    -- each in the world that the one before has left, from the world before the invocation to that
    -- behind it. Each record of the batch was handled in it with success, or its identifier is among
    -- those reported.
    pub handle_records-Settled :
        (records : List Value) (queue_type : QueueType) (w w' : H.World) (failures : Failures)
        → resolve_queue_type app records ≡ ok queue_type
        → handle_records app context records w ≡ ended (ok failures) w'
        → AllSettled records failures w w'
    unfolding handle_records
    handle_records-Settled records fifo w w' failures e h =
        fifo-AllSettled records w w' failures
          (report_same _ failures w' (rw (e, handle_records) at h))
    handle_records-Settled records standard w w' failures e h =
        standard-AllSettled records w w' failures
          (report_same _ failures w' (rw (e, handle_records) at h))
    handle_records-Settled records auto w w' failures e h =
        standard-AllSettled records w w' failures
          (report_same _ failures w' (rw (e, handle_records) at h))
