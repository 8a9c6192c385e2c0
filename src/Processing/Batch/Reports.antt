-- ===== src/Processing/Batch/Reports.antt =====
-- The identifiers that a batch reports.
use fastsqs.Base.{true, false, List, [], ◌∷◌}
use fastsqs.Base.{map, ◌≡◌, refl, All, All-append}
use fastsqs.Base.{string_eq, Bool-cases, inl, inr}
use fastsqs.Base.Dict.{Dict}
use fastsqs.Value.{Value, null, str, obj, truthy, or_value}
use fastsqs.Exceptions.{Res, ok, raise}
use fastsqs.Types.{Host}
use fastsqs.App.{App}
use fastsqs.Processing.{message_id}
use fastsqs.Processing.Groups.{Key}
use fastsqs.Processing.Batch.{collect_failures, process_group, process_groups, halt_loop}
use fastsqs.Processing.Batch.Fifo.{process_group-Halts, halt_loop-process_group}

-- An identifier that SQS takes for one record: neither absent nor empty.
abbrev pub IsIdentifier : Value → Type 0
IsIdentifier v = truthy v ≡ true

or_value-IsIdentifier : (v w : Value) → IsIdentifier w → IsIdentifier (or_value v w)
or_value-IsIdentifier v w h = elim (Bool-cases (truthy v)) [ inl e ↦ rw e e | inr e ↦ rw e h ]

unknown-IsIdentifier : IsIdentifier (str "UNKNOWN")
unfolding truthy string_eq
unknown-IsIdentifier = refl

-- Of any value in a batch, a dict or not, `_message_id` makes an identifier.
pub message_id-IsIdentifier : (r : Value) → IsIdentifier (message_id r)
unfolding message_id
message_id-IsIdentifier (obj d) =
    or_value-IsIdentifier _ _ (or_value-IsIdentifier _ _ unknown-IsIdentifier)
message_id-IsIdentifier null = unknown-IsIdentifier
message_id-IsIdentifier _ = unknown-IsIdentifier

map-IsIdentifier : (rs : List Value) → All IsIdentifier (map message_id rs)
map-IsIdentifier [] = tt
map-IsIdentifier (r ∷ rs) = (message_id-IsIdentifier r, map-IsIdentifier rs)

pub collect_failures-IsIdentifier :
    (rs : List Value) (qs : List (Res Value)) → All IsIdentifier (collect_failures rs qs)
unfolding collect_failures
collect_failures-IsIdentifier [] qs = tt
collect_failures-IsIdentifier (r ∷ rs) [] = tt
collect_failures-IsIdentifier (r ∷ rs) (ok v ∷ qs) = collect_failures-IsIdentifier rs qs
collect_failures-IsIdentifier (r ∷ rs) (raise e ∷ qs) =
    (message_id-IsIdentifier r, collect_failures-IsIdentifier rs qs)

module _ {H : Host} (app : App H) (context : H.LambdaContext) where
  pub process_group-IsIdentifier :
      (rs : List Value) (w : H.World) → All IsIdentifier (process_group app context rs w).0
  process_group-IsIdentifier rs w =
      let h = process_group-Halts app context rs w in rw h.reported (map-IsIdentifier h.tail)

  pub process_groups-IsIdentifier :
      (gs : Dict Key (List Value)) (w : H.World)
      → All IsIdentifier (process_groups app context gs w).0
  unfolding process_groups
  process_groups-IsIdentifier [] w = tt
  process_groups-IsIdentifier ((k, rs) ∷ gs) w =
      All-append IsIdentifier _ _ (process_group-IsIdentifier rs w)
        (process_groups-IsIdentifier gs _)

  pub halt_loop-IsIdentifier :
      (rs : List Value) (w : H.World) → All IsIdentifier (halt_loop app context false rs w).0
  halt_loop-IsIdentifier rs w = rw halt_loop-process_group (process_group-IsIdentifier rs w)
