-- ===== src/Types.antt =====
-- fastsqs/types.py: the queue types, the scratch state and the per-record context. `Host` is what
-- the program finds around it.
pub mod Scratch
use fastsqs.Base.{String, Bool, List, Option}
use fastsqs.Value.{Value, Fields}
use fastsqs.Exceptions.{Res}
use Scratch.{State}

pub data QueueType : Type 0 where
  auto standard fifo : QueueType

pub record FifoInfo : Type 0 where
  pub message_group_id : Value
  pub message_deduplication_id : Value

-- The code that is not the program's own: the world that handlers and stores act on, validated
-- pydantic models, the Lambda context, `SQSEvent.model_validate` and the JSON decoder (`none` for
-- a `JSONDecodeError`).
pub record Host : Type 1 where
  pub World : Type 0
  pub Msg : Type 0
  pub LambdaContext : Type 0
  pub sqs_event_validate : Fields → Res Msg
  pub json_loads : String → Option Value

pub record Context (H : Host) : Type 0 where
  pub message_id : Value
  pub sqs_record : Value
  pub lambda_context : H.LambdaContext
  pub queue_type : QueueType
  pub route_path : List String
  pub message_type : Value
  pub fifo_info : Option FifoInfo
  pub handler_result : Value
  pub state : State
