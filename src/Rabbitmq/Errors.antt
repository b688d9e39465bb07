-- ===== src/Rabbitmq/Errors.antt =====
-- The errors of crates/rabbitmq/src/error.rs, with the two of queuey_core that the backend makes and the
-- errors that lapin reports, and `short_string`. What an error of lapin says is its text.
use Prim.Native.String.{len}
use queuey.Common.{ℕ, String, Option, none, some, leb, if◌then◌else◌}
use queuey.Retry.{Duration}
use queuey.Topology.Names.{NameTooLong, max_short_string_length}

pub data RabbitMqError : Type 0 where
  nacked : (queue : String) → RabbitMqError
  returned : (reply_code : ℕ) (reply_text routing_key : String) → RabbitMqError
  confirms_not_enabled : (queue : String) → RabbitMqError
  already_settled : (operation : String) (job_id : ℕ) (queue : String) → RabbitMqError
  invalid_name : (name : String) → RabbitMqError
  delay_too_long : (requested longest : Duration) → RabbitMqError
  deferred_name_too_long : NameTooLong → RabbitMqError
  connection_lost : RabbitMqError
  reconnect_exhausted : (attempts : ℕ) (source : Option String) → RabbitMqError
  closed : RabbitMqError
  -- Error::UnknownQueue, the serialization error and `amqp` of queuey_core
  unknown_queue : (queue : String) → RabbitMqError
  not_serialized : RabbitMqError
  amqp : String → RabbitMqError

-- `none` is a name that lapin takes.
unfoldable pub short_string : (value : String) → Option RabbitMqError
short_string value =
    if leb (len value) max_short_string_length then none else some (invalid_name value)
