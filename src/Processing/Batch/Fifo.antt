-- ===== src/Processing/Batch/Fifo.antt =====
-- What the FIFO modes promise: order, and the tail that is reported.
use fastsqs.Base.{true, false, List, [], ◌∷◌, ◌++◌, map, ◌≡◌, refl, ap}
use fastsqs.Base.{inl, inr}
use fastsqs.Base.Dict.{Dict}
use fastsqs.Value.{Value}
use fastsqs.Exceptions.{Exn, ok, raise, Res-cases}
use fastsqs.Types.{Host}
use fastsqs.App.{App}
use fastsqs.Processing.{message_id, handle_record}
use fastsqs.Processing.Groups.{Key}
use fastsqs.Processing.Batch.{Failures, process_group, process_groups, halt_loop}

module _ {H : Host} (app : App H) (context : H.LambdaContext) where
  -- The records are handled one after the other, and every one of them succeeds.
  abbrev pub AllSucceed : List Value → H.World → H.World → Type 0
  AllSucceed [] w w' = w ≡ w'
  AllSucceed (r ∷ rs) w w' =
      (v : Value) × (w₁ : H.World) × (handle_record app r context w ≡ (ok v, w₁))
      × AllSucceed rs w₁ w'

  -- Nothing is left, or the first record of what is left is handled and fails. Those behind it are
  -- not handled.
  abbrev pub Stops : List Value → H.World → H.World → Type 0
  Stops [] w w' = w ≡ w'
  Stops (r ∷ rs) w w' = (e : Exn) × (handle_record app r context w ≡ (raise e, w'))

  -- A sequence of records that is handled in order up to the first failure.
  pub record Halts (records : List Value) (w : H.World) (failures : Failures) (w' : H.World)
      : Type 0 where
    pub succeeded : List Value
    pub tail : List Value
    pub reached : H.World
    pub split : records ≡ succeeded ++ tail
    pub ran : AllSucceed succeeded w reached
    pub stopped : Stops tail reached w'
    pub reported : failures ≡ map message_id tail

  Halts-next :
      {r : Value} {rs : List Value} {w w₁ w' : H.World} {failures : Failures} (v : Value)
      → handle_record app r context w ≡ (ok v, w₁)
      → Halts rs w₁ failures w'
      → Halts (r ∷ rs) w failures w'
  Halts-next {r} {w₁} v here h = record {
    succeeded = r ∷ h.succeeded;
    tail = h.tail;
    reached = h.reached;
    split = ap (◌∷◌ r) h.split;
    ran = (v, w₁, here, h.ran);
    stopped = h.stopped;
    reported = h.reported;
  }

  Halts-here :
      (r : Value) (rs : List Value) (w w' : H.World) (e : Exn)
      → handle_record app r context w ≡ (raise e, w')
      → Halts (r ∷ rs) w (map message_id (r ∷ rs)) w'
  Halts-here r rs w w' e here = record {
    succeeded = [];
    tail = r ∷ rs;
    reached = w;
    split = refl;
    ran = refl;
    stopped = (e, here);
    reported = refl;
  }

  -- For every sequence of records: `process_group` handles them in order, up to the first that
  -- fails; it handles no record behind that one, and reports exactly the one that failed and all
  -- behind it, in order.
  pub process_group-Halts :
      (records : List Value) (w : H.World)
      → Halts records w
          (process_group app context records w).0
          (process_group app context records w).1
  unfolding process_group
  process_group-Halts [] w = record {
    succeeded = [];
    tail = [];
    reached = w;
    split = refl;
    ran = refl;
    stopped = refl;
    reported = refl;
  }
  process_group-Halts (r ∷ rs) w =
      let (q, w') = handle_record app r context w in
      elim (Res-cases q) [
        | inl (v, e) ↦
            rw (e, process_group) (Halts-next v (ap (λ x. (x, w')) e) (process_group-Halts rs w'))
        | inr (x, e) ↦ rw (e, process_group) (Halts-here r rs w w' x (ap (λ y. (y, w')) e))
      ]

  halt_loop-true :
      (records : List Value) (w : H.World)
      → halt_loop app context true records w ≡ (map message_id records, w)
  unfolding halt_loop
  halt_loop-true [] w = refl
  halt_loop-true (r ∷ rs) w = rw (halt_loop-true rs w)

  -- For every batch: the loop of the mode `halt_batch`, which keeps a flag and goes on to the end,
  -- gives the failures and the world that `process_group` gives for the whole batch as one group,
  -- which leaves its loop at the first failure.
  pub halt_loop-process_group :
      (records : List Value) (w : H.World)
      → halt_loop app context false records w ≡ process_group app context records w
  unfolding halt_loop process_group
  halt_loop-process_group [] w = refl
  halt_loop-process_group (r ∷ rs) w =
      let (q, w') = handle_record app r context w in
      elim (Res-cases q) [
        | inl (v, e) ↦ rw (e, halt_loop, process_group) (halt_loop-process_group rs w')
        | inr (x, e) ↦ rw (e, halt_loop, process_group) (rw halt_loop-true)
      ]

  -- The groups are handled one after the other, each up to its own first failure, and the failures
  -- are those of the groups, in their order.
  abbrev pub Isolated : Dict Key (List Value) → H.World → Failures → H.World → Type 0
  Isolated [] w failures w' = (failures ≡ []) × (w ≡ w')
  Isolated ((k, rs) ∷ groups) w failures w' =
      (here : Failures) × (later : Failures) × (w₁ : H.World) × (failures ≡ here ++ later)
      × Halts rs w here w₁
      × Isolated groups w₁ later w'

  -- For every list of groups: they are handled one after the other, each up to its own first
  -- failure as `process_group-Halts` has it, and the failures are those of the groups, in their
  -- order.
  pub process_groups-Isolated :
      (groups : Dict Key (List Value)) (w : H.World)
      → Isolated groups w
          (process_groups app context groups w).0
          (process_groups app context groups w).1
  unfolding process_groups
  process_groups-Isolated [] w = (refl, refl)
  process_groups-Isolated ((k, rs) ∷ groups) w =
      let (here, w₁) = process_group app context rs w in
      let (later, w') = process_groups app context groups w₁ in
      (here, later, w₁, refl, process_group-Halts rs w, process_groups-Isolated groups w₁)
