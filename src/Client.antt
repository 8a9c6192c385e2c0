-- ===== src/Client.antt =====
-- fastsqs/testing.py: the test client, which makes records as SQS delivers them.
pub mod Made
use fastsqs.Base.{
  ℕ, suc, String, ◌<>◌, Bool, true, false, Option, none, some, List, [], ◌∷◌, is_some,
}
use fastsqs.Base.{◌==◌, string_eq, if◌then◌else◌}
use fastsqs.Value.{pos, Value, str, obj, arr, Fields, end, field, find, put, items, truthy}
use fastsqs.Value.Print.{show_int}
use fastsqs.Exceptions.{Exn, Res, ok, raise}
use fastsqs.Types.{Host}
use fastsqs.App.{App}
use fastsqs.Processing.Batch.{Outcome, ended, handle_event}

-- A body: a dict, a text, or bytes, with what `decode()` gives for them.
pub data Body : Type 0 where
  dict : Fields → Body
  text : String → Body
  bytes : Res String → Body

abbrev pub fifo_arn : String
fifo_arn = "arn:aws:sqs:us-east-1:000000000000:test-queue.fifo"

abbrev pub standard_arn : String
standard_arn = "arn:aws:sqs:us-east-1:000000000000:test-queue"

-- The arguments of `make_record` beside the body and the identifier.
pub record Options : Type 0 where
  pub group_id : Option String
  pub deduplication_id : Option String
  pub message_attributes : Option Fields
  pub event_source_arn : Option String
  pub attributes : Option Fields

pub record RecordSpec : Type 0 where
  pub body : Body
  pub message_id : Option String
  pub group_id : Option String
  pub deduplication_id : Option String
  pub message_attributes : Option Fields

-- `d.setdefault(k, v)`, if there is a value.
unfoldable pub add_missing : String → Option String → Fields → Fields
add_missing k none d = d
add_missing k (some v) d = elim (find k d) [ none ↦ put k (str v) d | some _ ↦ d ]

abbrev given : Option Fields → Fields
given none = end
given (some d) = d

unfoldable pub system_attributes : Options → Fields
unfolding add_missing
system_attributes o =
    add_missing "MessageDeduplicationId" o.deduplication_id
      (add_missing "MessageGroupId" o.group_id (given o.attributes))

-- `record["attributes"] = attrs`, unless `attrs` is empty.
unfoldable pub with_attributes : Fields → Fields → Fields
with_attributes end d = d
with_attributes (field k v attrs) d = put "attributes" (obj (field k v attrs)) d

unfoldable pub source_arn : Options → String
source_arn o = elim o.event_source_arn [
  | some arn ↦ arn
  | none ↦ if is_some o.group_id then fifo_arn else standard_arn
]

unfoldable pub with_message_attributes : Option Fields → Fields → Fields
with_message_attributes none d = d
with_message_attributes (some attributes) d = put "messageAttributes" (obj attributes) d

-- The record for a body that is a text by now.
unfoldable pub record_of : String → String → Options → Fields
unfolding system_attributes with_attributes source_arn with_message_attributes
record_of body message_id o = with_message_attributes o.message_attributes (
    put "eventSourceARN" (str (source_arn o)) (
      with_attributes (system_attributes o)
        (field "messageId" (str message_id) (field "body" (str body) end))))

unfoldable pub make_event : List Value → Value
make_event records = obj (field "Records" (arr (items records)) end)

-- `json.dumps` is the library's.
module _ (json_dumps : Fields → Res String) where
  -- `_body_str`
  unfoldable pub body_str : Body → Res String
  body_str (dict d) = json_dumps d
  body_str (text s) = ok s
  body_str (bytes decoded) = decoded

  unfoldable pub make_record : Body → String → Options → Res Fields
  unfolding body_str record_of
  make_record body message_id o = elim (body_str body) [
    | raise e ↦ raise e
    | ok s ↦ ok (record_of s message_id o)
  ]

  -- `spec.message_id or f"m{index}"`
  abbrev identifier : ℕ → Option String → String
  identifier index none = "m" <> show_int (pos index)
  identifier index (some message_id) =
      if message_id == "" then "m" <> show_int (pos index) else message_id

  -- The loop of `send_batch`.
  unfoldable pub make_records : ℕ → List RecordSpec → Res (List Value)
  unfolding make_record
  make_records index [] = ok []
  make_records index (spec ∷ specs) =
      let rest = make_records (suc index) specs in
      elim (make_record spec.body (identifier index spec.message_id) (record {
        group_id = spec.group_id;
        deduplication_id = spec.deduplication_id;
        message_attributes = spec.message_attributes;
        event_source_arn = none;
        attributes = none;
      })) [
        | raise e ↦ raise e
        | ok d ↦ elim rest [ raise e ↦ raise e | ok records ↦ ok (obj d ∷ records) ]
      ]

  module _ {H : Host} (app : App H) (context : H.LambdaContext) where
    -- `send`
    unfoldable pub send : Body → String → Options → H.World → Outcome H
    unfolding make_record make_event
    send body message_id o w = elim (make_record body message_id o) [
      | raise e ↦ ended (raise e) w
      | ok d ↦ handle_event app context (make_event (obj d ∷ [])) w
    ]

    -- `send_batch`
    unfoldable pub send_batch : List RecordSpec → H.World → Outcome H
    unfolding make_records make_event
    send_batch specs w = elim (make_records 0 specs) [
      | raise e ↦ ended (raise e) w
      | ok records ↦ handle_event app context (make_event records) w
    ]
