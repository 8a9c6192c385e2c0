-- ===== src/Tests/Batches.antt =====
-- Batches of records.
use fastsqs.Base.{String, nat_eq, true, false, List, [], ◌∷◌, ◌≡◌, ◌≢◌, refl, arith}
use fastsqs.Base.{string_eq, ==_differ}
use fastsqs.Base.Dict
use fastsqs.Value.{Value, null, str, obj, field, end, find, truthy}
use fastsqs.Value.Path.{resolve_payload_path}
use fastsqs.Value.Print.{show}
use fastsqs.Middleware.{enter, unwind, run_middleware_stack}
use fastsqs.Handlers.{invoke_handler, select_kwargs}
use fastsqs.Routing.{find_route_of_value, find_pydantic_route}
use fastsqs.Routing.Dispatch.{
  dispatch, dispatch_in, dispatch_value, dispatch_found, dispatch_key, dispatch_entry,
  execute_handler, invoke, validated,
}
use fastsqs.Exceptions.{ok, raise, attribute_error}
use fastsqs.Types.{auto, standard, fifo}
use fastsqs.App.{resolve_queue_type}
use fastsqs.Processing.{
  message_id, handle_record, prepare, parse_body, fifo_info, route, try_routers,
}
use fastsqs.Processing.Groups.{
  Key, text, key_eq, group_key, group_records, group_from, hashed, append_to,
}
use fastsqs.Processing.Groups.Laws.{IsPartition, group_records-IsPartition}
use fastsqs.Processing.Batch.{
  Failures, ended, handle_standard_event, handle_fifo_event, run_all, collect_failures,
  handle_records, process_group, process_groups, halt_loop,
}
use fastsqs.Processing.Batch.Settled.{AllSettled, handle_records-Settled}
use fastsqs.Processing.Batch.Switch.{switched, whole, handle_records_switch}
use fastsqs.Processing.Batch.Event.{Reports, handle_records-Reports}
use fastsqs.Processing.Batch.Whole.{
  AllHandled, handle_records-whole, handle_records_malformed_first,
}
use fastsqs.Processing.Batch.Fifo.{Halts, process_group-Halts, halt_loop-process_group}
use fastsqs.Tests.Fixture.{app_of, batch, m1, m2, m3, idle, toy}

abbrev standard_app : fastsqs.App.App toy
standard_app = app_of standard true "isolate_groups"

abbrev fifo_app : fastsqs.App.App toy
fifo_app = app_of fifo true "isolate_groups"

-- A FIFO queue whose failures fail the batch.
abbrev whole_app : fastsqs.App.App toy
whole_app = app_of fifo false "halt_batch"

abbrev auto_app : fastsqs.App.App toy
auto_app = app_of auto true "isolate_groups"

standard_type : resolve_queue_type standard_app batch ≡ ok standard
unfolding resolve_queue_type
standard_type = refl

handle_records-Reports_example : Reports standard_app 0 (handle_records standard_app 0 batch idle)
handle_records-Reports_example =
    handle_records-Reports standard_app 0 refl batch standard idle standard_type (omega arith)

process_group-Halts_example :
    Halts fifo_app 0 batch idle
      (process_group fifo_app 0 batch idle).0
      (process_group fifo_app 0 batch idle).1
process_group-Halts_example = process_group-Halts fifo_app 0 batch idle

halt_loop-process_group_example :
    halt_loop fifo_app 0 false batch idle ≡ process_group fifo_app 0 batch idle
halt_loop-process_group_example = halt_loop-process_group fifo_app 0 batch idle

-- Two groups.
abbrev grouped : List (Key × List Value)
grouped = (text "g", m1 ∷ m2 ∷ m1 ∷ []) ∷ (text "h", m3 ∷ []) ∷ []

batch_groups : group_records batch ≡ ok grouped
unfolding group_records group_from group_key hashed append_to find Dict.lookup Dict.insert string_eq
    key_eq
batch_groups = refl

group_records-IsPartition_example : IsPartition batch grouped
group_records-IsPartition_example = group_records-IsPartition batch grouped batch_groups

-- A batch of one order, on the queue whose failures fail the batch.
whole_type : resolve_queue_type whole_app (m1 ∷ []) ≡ ok fifo
unfolding resolve_queue_type
whole_type = refl

whole_run : handle_records whole_app 0 (m1 ∷ []) idle ≡ ended (ok []) idle
unfolding handle_records handle_fifo_event halt_loop handle_record prepare parse_body fifo_info
    message_id resolve_queue_type route try_routers dispatch dispatch_in dispatch_value
    dispatch_found find_route_of_value find_pydantic_route execute_handler invoke validated
    invoke_handler select_kwargs run_middleware_stack enter unwind resolve_payload_path truthy find
    Dict.lookup string_eq nat_eq
whole_run = refl

handle_records-whole_example :
    (◌≡◌ {A = Failures} [] []) × AllHandled whole_app 0 fifo (m1 ∷ []) idle idle
handle_records-whole_example =
    handle_records-whole whole_app 0 refl (m1 ∷ []) fifo idle [] idle whole_type whole_run

malformed_first :
    handle_records auto_app 0 (str "oops" ∷ m1 ∷ []) idle ≡ ended (raise attribute_error) idle
malformed_first = handle_records_malformed_first auto_app 0 (str "oops") (m1 ∷ []) idle refl refl

-- A record whose `attributes` are null.
abbrev groupless : Value
groupless = obj (field "messageId" (str "4") (field "attributes" null end))

groupless_key : group_key groupless ≡ raise attribute_error
unfolding group_key find string_eq
groupless_key = refl

m1_key : group_key m1 ≡ ok (text "g")
unfolding group_key hashed find string_eq
m1_key = refl

fifo_type : resolve_queue_type fifo_app (m1 ∷ groupless ∷ m2 ∷ []) ≡ ok fifo
unfolding resolve_queue_type
fifo_type = refl

isolates : ◌≢◌ {A = String} "isolate_groups" "halt_batch"
unfolding string_eq
isolates = ==_differ "isolate_groups" "halt_batch" refl

-- The ping and the body that does not decode are reported.
standard_run : handle_records standard_app 0 batch idle ≡ ended (ok (str "2" ∷ str "3" ∷ [])) idle
unfolding handle_records handle_standard_event run_all collect_failures handle_record prepare
    parse_body fifo_info message_id resolve_queue_type route try_routers dispatch dispatch_in
    dispatch_value dispatch_found dispatch_key dispatch_entry find_route_of_value
    find_pydantic_route execute_handler invoke validated invoke_handler select_kwargs
    run_middleware_stack enter unwind resolve_payload_path truthy find Dict.lookup string_eq nat_eq
    show
standard_run = refl

handle_records_switch_example :
    handle_records (switched fifo_app 0 false) 0 batch idle
    ≡ whole fifo_app 0 (handle_records (switched fifo_app 0 true) 0 batch idle)
handle_records_switch_example = handle_records_switch fifo_app 0 batch idle

-- Each of the two groups is left at its failure.
fifo_run : handle_records fifo_app 0 batch idle ≡ ended (ok (str "2" ∷ str "1" ∷ str "3" ∷ [])) idle
unfolding handle_records handle_fifo_event process_group process_groups handle_record prepare
    parse_body fifo_info message_id resolve_queue_type route try_routers dispatch dispatch_in
    dispatch_value dispatch_key dispatch_entry dispatch_found find_route_of_value
    find_pydantic_route execute_handler invoke validated invoke_handler select_kwargs
    run_middleware_stack enter unwind resolve_payload_path truthy find show group_records group_from
    group_key hashed append_to Dict.lookup Dict.insert string_eq nat_eq key_eq
fifo_run = refl

batch_type : resolve_queue_type fifo_app batch ≡ ok fifo
unfolding resolve_queue_type
batch_type = refl

handle_records-Settled_example :
    AllSettled fifo_app 0 batch (str "2" ∷ str "1" ∷ str "3" ∷ []) idle idle
handle_records-Settled_example =
    handle_records-Settled fifo_app 0 refl batch fifo idle idle (str "2" ∷ str "1" ∷ str "3" ∷ [])
      batch_type fifo_run
