-- ===== src/Processing/Logged/Batch/Settled.antt =====
-- What a batch of fastsqs/processing.py promises where log lines may raise.
use fastsqs.Base.{Bool, true, false, not, ◌&&◌, String, List, [], ◌∷◌, ◌++◌, ◌≡◌}
use fastsqs.Base.{refl, arith, inl, inr, ◌==◌, string_eq, Bool-cases}
use fastsqs.Base.Dict
use fastsqs.Base.Dict.{Dict}
use fastsqs.Value.{Value}
use fastsqs.Exceptions.{Exn, Res, ok, raise, Res-cases}
use fastsqs.Types.{Host, QueueType, auto, standard, fifo}
use fastsqs.App.{App, resolve_queue_type}
use fastsqs.Logging.{Console, Logger, Entry}
use fastsqs.Processing.Groups.{Key, group_records}
use fastsqs.Processing.Groups.Laws.{group_records-Among}
use fastsqs.Processing.Batch.{Failures, Outcome, ended}
use fastsqs.Processing.Batch.Accounts.{nothing, both, narrowed, over, said, run_on}
use fastsqs.Processing.Batch.Settled.{report_same, InGroups, in_first_or_later}
use fastsqs.Processing.Logged.{and_then}
use fastsqs.Processing.Logged.Batch.{
  debug_log, process_group, run_groups, join_groups, halt_loop, handle_fifo_event, handle_records,
  outcome_of, handle_by_type, queue_items,
}
use fastsqs.Processing.Logged.Batch.Kept.{AllSettled, Kept, process_records-Kept, halt_loop-Kept}
use fastsqs.Processing.Logged.Batch.Standard.{
  how, Speech, Account, Spoken, same_Account, Kept-Account, standard-Account,
}

module _ {H : Host} (c : Console H) (log : String → String → Logger H) (app : App H)
    (context : H.LambdaContext) where
  -- The names of the section for this application.
  abbrev handling : Value → H.World → Res Value × H.World
  handling = how c log app context

  abbrev Talk : H.World → H.World → Type 0
  Talk = Speech c log app context

  abbrev Accounts : (Value → Type 0) → Failures → H.World → H.World → Type 0
  Accounts = Account c log app context

  process_group-Kept :
      (k : Key) (rs : List Value) (w : H.World)
      → Kept c log app context ⊥ rs w (process_group c log false app context k rs w)
  unfolding process_group debug_log
  process_group-Kept k rs w = process_records-Kept c log app context k rs w

  -- The records of all groups are accounted for, and nothing was raised.
  abbrev GroupsKept : Dict Key (List Value) → H.World → Res Failures × H.World → Type 0
  GroupsKept groups w (ok fs, w') = Accounts (InGroups app context groups) fs w w'
  GroupsKept groups w (raise e, w') = ⊥

  GroupsKept-join :
      (j : Key) (rs : List Value) (groups : Dict Key (List Value)) (fs : Failures) (w w₁ : H.World)
      (q : Res Failures × H.World)
      → AllSettled c log app context rs fs w w₁
      → GroupsKept groups w₁ q
      → GroupsKept ((j, rs) ∷ groups) w (and_then q (λ later w₂. (ok (fs ++ later), w₂)))
  GroupsKept-join j rs groups fs w w₁ (ok gs, w₂) a rest =
      both handling Talk (in_first_or_later app context j rs groups) a rest
  GroupsKept-join j rs groups fs w w₁ (raise e, w₂) a rest = rest

  abbrev joined : List (Res Failures) × H.World → Res Failures × H.World
  joined (results, w) = join_groups c log false app context results w

  groups_step :
      (j : Key) (rs : List Value) (groups : Dict Key (List Value)) (w : H.World)
      (q : Res Failures × H.World)
      → Kept c log app context ⊥ rs w q
      → ((w₁ : H.World)
          → GroupsKept groups w₁ (joined (run_groups c log false app context groups w₁)))
      → GroupsKept ((j, rs) ∷ groups) w (
          let (x, w₁) = q in
          let (xs, w') = run_groups c log false app context groups w₁ in joined (x ∷ xs, w'))
  unfolding join_groups
  groups_step j rs groups w (ok fs, w₁) a rest =
      GroupsKept-join j rs groups fs w w₁ (joined (run_groups c log false app context groups w₁)) a
        (rest w₁)
  groups_step j rs groups w (raise e, w₁) a rest = absurd a

  run_groups-GroupsKept :
      (groups : Dict Key (List Value)) (w : H.World)
      → GroupsKept groups w (joined (run_groups c log false app context groups w))
  unfolding run_groups join_groups Dict.lookup
  run_groups-GroupsKept [] w =
      narrowed handling Talk (λ r (k, here). here) (nothing handling Talk w)
  run_groups-GroupsKept ((j, rs) ∷ groups) w =
      groups_step j rs groups w (process_group c log false app context j rs w)
        (process_group-Kept j rs w) (run_groups-GroupsKept groups)

  groups_Account :
      (groups : Dict Key (List Value)) (failures : Failures) (w w' : H.World)
      (q : Res Failures × H.World)
      → GroupsKept groups w q
      → outcome_of {H = H} q ≡ ended (ok failures) w'
      → Accounts (InGroups app context groups) failures w w'
  groups_Account groups failures w w' (ok fs, w₁) a e =
      same_Account c log app context (InGroups app context groups) fs failures w w₁ w' a e
  groups_Account groups failures w w' (raise x, w₁) a e = absurd a

  no_report :
      (x : Exn) (w w' : H.World) (fs : Failures)
      → ◌≡◌ {A = Outcome H} (ended (raise x) w) (ended (ok fs) w')
      → ⊥
  no_report x w w' fs h = absurd (cc h)

  isolated_quiet :
      (debug : Bool) (rs : List Value) (w w' : H.World) (failures : Failures)
      → debug ≡ false
      → (app.fifo_failure_mode == "halt_batch") ≡ false
      → handle_fifo_event c log debug app context rs w ≡ ended (ok failures) w'
      → AllSettled c log app context rs failures w w'
  unfolding handle_fifo_event debug_log
  isolated_quiet true rs w w' failures quiet mode h = absurd (cc quiet)
  isolated_quiet false rs w w' failures quiet mode h = elim (Res-cases (group_records rs)) [
    | inr (x, refused) ↦
        absurd (no_report x w w' failures (rw (mode, refused, handle_fifo_event) at h))
    | inl (groups, found) ↦
        narrowed handling Talk (λ r. group_records-Among rs groups r found)
          (groups_Account groups failures w w'
            (joined (run_groups c log false app context groups w)) (run_groups-GroupsKept groups w)
            (rw (mode, found, handle_fifo_event) at h))
  ]

  fifo-Settled :
      (debug : Bool) (rs : List Value) (w w' : H.World) (failures : Failures)
      → (debug && not (app.fifo_failure_mode == "halt_batch")) ≡ false
      → handle_fifo_event c log debug app context rs w ≡ ended (ok failures) w'
      → AllSettled c log app context rs failures w w'
  unfolding handle_fifo_event
  fifo-Settled debug rs w w' failures quiet h =
      elim (Bool-cases (app.fifo_failure_mode == "halt_batch")) [
        | inl mode ↦
            Kept-Account c log app context rs failures w w'
              (halt_loop c log debug app context false rs w)
              (halt_loop-Kept c log app context debug false rs w)
              (rw (mode, handle_fifo_event) at h)
        | inr mode ↦ isolated_quiet debug rs w w' failures (ground (arith, mode, quiet)) mode h
      ]

  -- What a line under debug does to the world.
  debug_log-Spoken :
      (debug : Bool) (level message : String) (extra : Entry) (w : H.World)
      → Spoken c log app context w (debug_log c log debug level message extra w).1
  unfolding debug_log
  debug_log-Spoken true level message extra w = said (level, message, extra, refl) over
  debug_log-Spoken false level message extra w = over

  module _ (partial : app.partial_batch_failure ≡ true) where
    by_type :
        (debug : Bool) (rs : List Value) (queue_type : QueueType) (w : H.World)
        (q : Res (Unit {0}) × H.World) (w' : H.World) (failures : Failures)
        → (debug && not (app.fifo_failure_mode == "halt_batch")) ≡ false
        → Spoken c log app context w q.1
        → handle_by_type c log debug app context queue_type rs q ≡ ended (ok failures) w'
        → AllSettled c log app context rs failures w w'
    by_type debug rs queue_type w (raise x, w₁) w' failures quiet before h = absurd (cc h)
    by_type debug rs fifo w (ok _, w₁) w' failures quiet before h = run_on handling Talk before (
        fifo-Settled debug rs w₁ w' failures quiet
          (report_same app context partial _ failures w' h))
    by_type debug rs standard w (ok _, w₁) w' failures quiet before h =
        run_on handling Talk before (
          standard-Account c log app context debug rs w₁ w' failures
            (report_same app context partial _ failures w' h))
    by_type debug rs auto w (ok _, w₁) w' failures quiet before h = run_on handling Talk before (
        standard-Account c log app context debug rs w₁ w' failures
          (report_same app context partial _ failures w' h))

    -- Where partial batch failure is on, debug is off or the mode is halt_batch, and what is raised is
    -- an `Exception`: behind an invocation that ends with a report, whatever the log lines do, those
    -- of them that raise included, there is one run of handlings and log lines, each in the world
    -- that the one before has left, from the world before the invocation to that behind it. Each
    -- record of the batch was handled in it with success, or its identifier is among those reported.
    pub handle_logged_records-Settled :
        (debug : Bool)
        → (debug && not (app.fifo_failure_mode == "halt_batch")) ≡ false
        → (rs : List Value) (queue_type : QueueType) (w w' : H.World) (failures : Failures)
        → resolve_queue_type app rs ≡ ok queue_type
        → handle_records c log debug app context rs w ≡ ended (ok failures) w'
        → AllSettled c log app context rs failures w w'
    unfolding handle_records
    handle_logged_records-Settled debug quiet rs queue_type w w' failures resolved h =
        by_type debug rs queue_type w
          (debug_log c log debug "info" "Processing event"
            (queue_items c log debug app context queue_type rs) w)
          w' failures quiet (debug_log-Spoken debug "info" "Processing event" _ w)
          (rw (resolved, handle_records) at h)
