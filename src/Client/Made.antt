-- ===== src/Client/Made.antt =====
-- What the program reads of a record that the client has made.
use fastsqs.Base.{String, Option, none, some, List, [], ◌∷◌, ◌≡◌, ◌≢◌, refl, ==_of_ne, string_eq}
use fastsqs.Value.{Value, null, str, obj, Fields, end, find, get, get_or, put, truthy, or_value}
use fastsqs.Exceptions.{ok}
use fastsqs.Types.{Host, auto, fifo}
use fastsqs.App.{App, ends_with, resolve_queue_type, arn_queue_type}
use fastsqs.Processing.{message_id, parse_body, fifo_info, new_context, prepare}
use fastsqs.Client.{
  Options, add_missing, system_attributes, with_attributes, source_arn, with_message_attributes,
  record_of, fifo_arn,
}

-- The options of a message of a FIFO queue.
abbrev pub fifo_options : String → Option String → Option Fields → Options
fifo_options group deduplication message_attributes = record {
  group_id = some group;
  deduplication_id = deduplication;
  message_attributes = message_attributes;
  event_source_arn = none;
  attributes = none;
}

abbrev pub value_of : Option String → Value
value_of none = null
value_of (some s) = str s

-- The record of such a message.
abbrev pub made : String → String → String → Option String → Option Fields → Fields
made body id group deduplication message_attributes =
    record_of body id (fifo_options group deduplication message_attributes)

-- What the processing looks up.
record Reads (d : Fields) (body id group : String) (deduplication : Option String) : Type 0 where
  reads_body : get_or "body" (str "") d ≡ str body
  reads_id : get "messageId" d ≡ str id
  reads_arn : get_or "eventSourceARN" (str "") d ≡ str fifo_arn
  reads_fifo :
      fifo_info (get_or "attributes" (obj end) d)
      ≡ ok (record {
        message_group_id = str group;
        message_deduplication_id = value_of deduplication;
      })

record_of-Reads :
    (body id group : String) (deduplication : Option String) (attributes : Option Fields)
    → Reads
        (record_of body id (fifo_options group deduplication attributes))
        body
        id
        group
        deduplication
unfolding record_of system_attributes add_missing with_attributes source_arn with_message_attributes
    put find fifo_info string_eq
record_of-Reads body id group none none = record {
  reads_body = refl;
  reads_id = refl;
  reads_arn = refl;
  reads_fifo = refl;
}
record_of-Reads body id group none (some a) = record {
  reads_body = refl;
  reads_id = refl;
  reads_arn = refl;
  reads_fifo = refl;
}
record_of-Reads body id group (some s) none = record {
  reads_body = refl;
  reads_id = refl;
  reads_arn = refl;
  reads_fifo = refl;
}
record_of-Reads body id group (some s) (some a) = record {
  reads_body = refl;
  reads_id = refl;
  reads_arn = refl;
  reads_fifo = refl;
}

or_value-str : (s : String) (v : Value) → s ≢ "" → or_value (str s) v ≡ str s
unfolding truthy
or_value-str s v h = rw (==_of_ne s "" h)

fifo_arn_type : arn_queue_type (or_value (str fifo_arn) (str "")) ≡ ok fifo
unfolding truthy ends_with string_eq
fifo_arn_type = refl

made_queue_type :
    {H : Host} (app : App H) (d : Fields) (rs : List Value)
    → app.queue_type ≡ auto
    → get_or "eventSourceARN" (str "") d ≡ str fifo_arn
    → resolve_queue_type app (obj d ∷ rs) ≡ ok fifo
unfolding resolve_queue_type
made_queue_type app d rs inferred arn = rw (inferred, resolve_queue_type, arn) fifo_arn_type

made_id :
    (d : Fields) (id : String) → get "messageId" d ≡ str id → id ≢ "" → message_id (obj d) ≡ str id
unfolding message_id
made_id d id found h = rw (found, or_value-str id _ h)

made_body :
    (json_loads : String → Option Value) (body : String) (payload : Fields)
    → body ≢ ""
    → json_loads body ≡ some (obj payload)
    → parse_body json_loads (str body) ≡ ok payload
unfolding parse_body
made_body json_loads body payload h decoded = rw (==_of_ne body "" h, decoded, parse_body)

module _ {H : Host} (app : App H) (context : H.LambdaContext) where
  -- What the client sends is what a handler is given. In an application whose queue type is AUTO, for
  -- a body that is not empty and decodes to a dict, a message identifier that is not empty and a
  -- message group, with no ARN and no system attributes of the caller's: the record that the client
  -- makes is prepared into a job with that payload and identifier, taken for a record of
  -- a FIFO queue, and its FIFO information is the group and the deduplication identifier that the
  -- client was given.
  pub prepare-record_of :
      (body id group : String) (deduplication : Option String) (attributes : Option Fields)
      (payload : Fields) (w : H.World)
      → app.queue_type ≡ auto
      → H.json_loads body ≡ some (obj payload)
      → body ≢ ""
      → id ≢ ""
      → prepare app (made body id group deduplication attributes) context w
        ≡ ok (record {
          payload = payload;
          ctx =
              new_context
                (str id)
                (obj (made body id group deduplication attributes))
                context
                fifo
                (some (record {
                  message_group_id = str group;
                  message_deduplication_id = value_of deduplication;
                }));
          world = w;
        })
  unfolding prepare
  prepare-record_of body id group deduplication attributes payload w inferred decoded full named =
      let d = made body id group deduplication attributes in
      let reads = record_of-Reads body id group deduplication attributes in
      rw
        (
          reads.reads_body,
          prepare,
          made_body H.json_loads body payload full decoded,
          made_queue_type app d [] inferred reads.reads_arn,
          reads.reads_fifo,
          made_id d id reads.reads_id named,
        )
        refl
