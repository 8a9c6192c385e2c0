-- ===== src/Processing/Batch/Whole.antt =====
-- Where partial batch failure is off, and where a batch fails as a whole.
use mathlib.Core.List.{append-nil}
use mathlib.Core.Path.{subst}
use fastsqs.Base.{false, List, [], ◌∷◌, ◌++◌, map}
use fastsqs.Base.{◌≡◌, ◌≢◌, refl, ap, sym, ◌∙◌, ◌⊎◌, arith, All, ◌==◌, ==_of_ne, string_eq}
use fastsqs.Base.{Bool-cases, inl, inr}
use fastsqs.Base.Dict.{Dict}
use fastsqs.Value.{Value, null, obj, is_obj}
use fastsqs.Exceptions.{Exn, ok, raise, attribute_error, Res-cases}
use fastsqs.Types.{Host, QueueType, auto, standard, fifo}
use fastsqs.App.{App, resolve_queue_type}
use fastsqs.Processing.{message_id, handle_record}
use fastsqs.Processing.Groups.{Key, group_key, group_records}
use fastsqs.Processing.Groups.Laws.{
  HasGroup, IsPartition, group_records-IsPartition, group_records-refused,
}
use fastsqs.Processing.Batch.{
  Failures, Outcome, ended, blocked, collect_failures, run_all, report, handle_standard_event,
  handle_fifo_event, handle_records,
}
use fastsqs.Processing.Batch.Fifo.{
  AllSucceed, Stops, Halts, process_group-Halts, halt_loop-process_group, Isolated,
  process_groups-Isolated,
}

append-eq-nil {ℓ} : {A : Type ℓ} (xs ys : List A) → xs ++ ys ≡ [] → (xs ≡ []) × (ys ≡ [])
append-eq-nil [] ys h = (refl, h)
append-eq-nil (x ∷ xs) ys h = absurd (cc h)

ended-injective :
    {H : Host} (fs gs : Failures) (w w' : H.World)
    → ◌≡◌ {A = Outcome H} (ended (ok fs) w) (ended (ok gs) w')
    → (fs ≡ gs) × (w ≡ w')
ended-injective fs gs w w' h = (cc h, cc h)

resolve_malformed :
    {H : Host} (app : App H) (r : Value) (rs : List Value)
    → app.queue_type ≡ auto
    → is_obj r ≡ false
    → resolve_queue_type app (r ∷ rs) ≡ raise attribute_error
unfolding resolve_queue_type
resolve_malformed app (obj d) rs e h = absurd (cc h)
resolve_malformed app null rs e h = rw (e, resolve_queue_type)
resolve_malformed app _ rs e h = rw (e, resolve_queue_type)

module _ {H : Host} (app : App H) (context : H.LambdaContext) where
  collect_failures-eq-nil :
      (records : List Value) (w : H.World)
      → collect_failures records (run_all app context records w).0 ≡ []
      → AllSucceed app context records w (run_all app context records w).1
  unfolding collect_failures run_all
  collect_failures-eq-nil [] w h = refl
  collect_failures-eq-nil (r ∷ rs) w h =
      let (q, w') = handle_record app r context w in
      elim (Res-cases q) [
        | inl (v, e) ↦ (
          v,
          w',
          ap (λ x. (x, w')) e,
          collect_failures-eq-nil rs w' (rw (e, collect_failures) at h),
        )
        | inr (x, e) ↦ absurd (cc (rw (e, collect_failures) at h))
      ]

  AllSucceed-of-tail :
      (records succeeded tail : List Value) (w reached w' : H.World)
      → records ≡ succeeded ++ tail
      → AllSucceed app context succeeded w reached
      → Stops app context tail reached w'
      → map message_id tail ≡ []
      → AllSucceed app context records w w'
  AllSucceed-of-tail records succeeded [] w reached w' split ran stopped h =
      rw (split, append-nil, ← stopped) ran
  AllSucceed-of-tail records succeeded (r ∷ rs) w reached w' split ran stopped h = absurd (cc h)

  Halts-clean :
      {records : List Value} {w w' : H.World} {failures : Failures}
      → Halts app context records w failures w'
      → failures ≡ []
      → AllSucceed app context records w w'
  Halts-clean {records} {w} {w'} h e =
      AllSucceed-of-tail records h.succeeded h.tail w h.reached w' h.split h.ran h.stopped
        (sym h.reported ∙ e)

  -- Every group is handled from its first record to its last, and each record succeeds.
  abbrev pub AllGroupsSucceed : Dict Key (List Value) → H.World → H.World → Type 0
  AllGroupsSucceed [] w w' = w ≡ w'
  AllGroupsSucceed ((k, rs) ∷ groups) w w' =
      (w₁ : H.World) × AllSucceed app context rs w w₁ × AllGroupsSucceed groups w₁ w'

  Isolated-clean :
      (groups : Dict Key (List Value)) (w : H.World) (failures : Failures) (w' : H.World)
      → Isolated app context groups w failures w'
      → failures ≡ []
      → AllGroupsSucceed groups w w'
  Isolated-clean [] w failures w' (_, same) e = same
  Isolated-clean ((k, rs) ∷ groups) w failures w' (here, later, w₁, joined, halts, rest) e =
      let (none_here, none_later) = append-eq-nil here later (sym joined ∙ e) in
      (w₁, Halts-clean halts none_here, Isolated-clean groups w₁ later w' rest none_later)

  -- Every record of the batch is handled and succeeds, in the way of the queue type: the groups of a
  -- FIFO batch are a partition of it.
  abbrev pub AllHandled : QueueType → List Value → H.World → H.World → Type 0
  AllHandled fifo records w w' =
      AllSucceed app context records w w'
      ⊎ ((groups : Dict Key (List Value)) × (group_records records ≡ ok groups)
          × IsPartition records groups
          × AllGroupsSucceed groups w w')
  AllHandled _ records w w' = AllSucceed app context records w w'

  fifo-clean :
      (records : List Value) (w w' : H.World)
      → handle_fifo_event app context records w ≡ ended (ok []) w'
      → AllHandled fifo records w w'
  unfolding handle_fifo_event
  fifo-clean records w w' h = elim (Bool-cases (app.fifo_failure_mode == "halt_batch")) [
    | inl e ↦
        let same = rw (e, handle_fifo_event, halt_loop-process_group) at h in
        let (empty, world) = ended-injective _ _ _ _ same in
        inl (rw (← world) (Halts-clean (process_group-Halts app context records w) empty))
    | inr e ↦ elim (Res-cases (group_records records)) [
      | inr (x, refused) ↦ absurd (cc (rw (e, refused, handle_fifo_event) at h))
      | inl (groups, found) ↦
          let same = rw (e, found, handle_fifo_event) at h in
          let (empty, world) = ended-injective _ _ _ _ same in
          inr (
            groups,
            found,
            group_records-IsPartition records groups found,
            rw (← world)
                (Isolated-clean groups w _ _ (process_groups-Isolated app context groups w) empty),
          )
    ]
  ]

  module _ (whole : app.partial_batch_failure ≡ false) where
    report_whole :
        (outcome : Outcome H) (failures : Failures) (w : H.World)
        → report app context outcome ≡ ended (ok failures) w
        → (failures ≡ []) × (outcome ≡ ended (ok []) w)
    report_whole (ended (ok []) w₁) failures w h = (cc h, cc h)
    report_whole (ended (ok (f ∷ fs)) w₁) failures w h = absurd (cc (rw whole at h))
    report_whole (ended (raise e) w₁) failures w h = absurd (cc h)
    report_whole blocked failures w h = absurd (cc h)

    standard_empty :
        (records : List Value) (w w' : H.World)
        → handle_standard_event app context records w ≡ ended (ok []) w'
        → (collect_failures records (run_all app context records w).0 ≡ [])
          × ((run_all app context records w).1 ≡ w')
    unfolding handle_standard_event
    standard_empty records w w' h = ground arith

    standard-clean :
        (records : List Value) (w : H.World) (failures : Failures) (w' : H.World)
        → report app context (handle_standard_event app context records w) ≡ ended (ok failures) w'
        → (failures ≡ []) × AllSucceed app context records w w'
    standard-clean records w failures w' h =
        let (empty, outcome) = report_whole _ failures w' h in
        let (none_failed, world) = standard_empty records w w' outcome in
        (
          empty,
          subst (λ x. AllSucceed app context records w x) world
              (collect_failures-eq-nil records w none_failed),
        )

    -- Where partial batch failure is off and what is raised is an `Exception`: an invocation that ends
    -- without raising reports no failure, and then every record of the batch was handled and
    -- succeeded, each in its turn and in the world that the one before has left, from the world
    -- before the invocation to that behind it. Where groups are isolated, the groups are a partition
    -- of the batch and are handled one after the other.
    pub handle_records-whole :
        (records : List Value) (queue_type : QueueType) (w : H.World) (failures : Failures)
        (w' : H.World)
        → resolve_queue_type app records ≡ ok queue_type
        → handle_records app context records w ≡ ended (ok failures) w'
        → (failures ≡ []) × AllHandled queue_type records w w'
    unfolding handle_records
    handle_records-whole records fifo w failures w' e h =
        let (empty, outcome) = report_whole _ failures w' (rw (e, handle_records) at h) in
        (empty, fifo-clean records w w' outcome)
    handle_records-whole records standard w failures w' e h =
        standard-clean records w failures w' (rw (e, handle_records) at h)
    handle_records-whole records auto w failures w' e h =
        standard-clean records w failures w' (rw (e, handle_records) at h)

  -- Where the queue type is to be inferred and the first record of a batch is no dict, the
  -- invocation raises `AttributeError` before any record is handled, whatever the other records
  -- are.
  pub handle_records_malformed_first :
      (r : Value) (rs : List Value) (w : H.World)
      → app.queue_type ≡ auto
      → is_obj r ≡ false
      → handle_records app context (r ∷ rs) w ≡ ended (raise attribute_error) w
  unfolding handle_records
  handle_records_malformed_first r rs w inferred malformed =
      rw (resolve_malformed app r rs inferred malformed, handle_records)

  -- In the mode that isolates groups, the first record of a FIFO batch that has no message group
  -- (it is no dict, its `attributes` are no dict, or its group cannot be hashed) makes the
  -- invocation raise before any record is handled.
  pub handle_records_malformed_group :
      (xs : List Value) (r : Value) (ys : List Value) (w : H.World) (e : Exn)
      → resolve_queue_type app (xs ++ (r ∷ ys)) ≡ ok fifo
      → app.fifo_failure_mode ≢ "halt_batch"
      → All HasGroup xs
      → group_key r ≡ raise e
      → handle_records app context (xs ++ (r ∷ ys)) w ≡ ended (raise e) w
  unfolding handle_records handle_fifo_event
  handle_records_malformed_group xs r ys w e resolved mode before refused =
      rw (
        resolved,
        handle_records,
        ==_of_ne _ _ mode,
        group_records-refused xs r ys e before refused,
      )
