-- ===== src/Tests/Clients.antt =====
-- Events, and the records of the test client.
use fastsqs.Base.{String, true, false, none, some, ◌≡◌, ◌≢◌, refl, ==_differ, string_eq}
use fastsqs.Value.{str, obj, arr, Fields, end, field, find, items, get}
use fastsqs.Exceptions.{ok}
use fastsqs.Types.{auto, fifo}
use fastsqs.App.{App}
use fastsqs.Processing.{prepare, new_context}
use fastsqs.Processing.Shape.{is_sqs_event}
use fastsqs.Client.Made.{made, prepare-record_of}
use fastsqs.Tests.Fixture.{toy, idle, order, app_of, batch}

abbrev app : App toy
app = app_of auto true "isolate_groups"

abbrev envelope : Fields
envelope = field "Records" (arr (items batch)) end

envelope_records : get "Records" envelope ≡ arr (items batch)
unfolding find string_eq
envelope_records = refl

-- An event of another source.
abbrev request : Fields
request = field "httpMethod" (str "GET") end

request_refused : is_sqs_event (obj request) ≡ false
unfolding is_sqs_event find string_eq
request_refused = refl

order_loads : toy.json_loads "order" ≡ some (obj order)
unfolding string_eq
order_loads = refl

order_full : ◌≢◌ {A = String} "order" ""
unfolding string_eq
order_full = ==_differ "order" "" refl

id_full : ◌≢◌ {A = String} "m0" ""
unfolding string_eq
id_full = ==_differ "m0" "" refl

prepare-record_of_example :
    prepare app (made "order" "m0" "g" (some "d") none) 0 idle
    ≡ ok (record {
      payload = order;
      ctx =
          new_context
            (str "m0")
            (obj (made "order" "m0" "g" (some "d") none))
            0
            fifo
            (some (record { message_group_id = str "g"; message_deduplication_id = str "d" }));
      world = idle;
    })
prepare-record_of_example =
    prepare-record_of app 0 "order" "m0" "g" (some "d") none order idle refl order_loads order_full
      id_full
