-- ===== src/Rabbitmq/Calls.antt =====
-- What the backend asks of lapin while it publishes and settles, as a log of calls (the latest first)
-- with an environment that answers each call, in any way, from the log so far. An action is a part of
-- the code that makes calls and fails or not; `then` is the `?` of the source.
use queuey.Common.{ℕ, String, Bool, Option, none, some, List, ◌∷◌, count, false, true}
use queuey.Topology.{FieldTable}
use queuey.Rabbitmq.Codec.{BasicProperties}
use queuey.Rabbitmq.Errors.{RabbitMqError, amqp}

-- lapin's `Confirmation`; a returned message as its reply code and text.
pub data Confirmation : Type 0 where
  confirm_ack confirm_nack : Option (ℕ × String) → Confirmation
  not_requested : Confirmation

pub data Call (B : Type 0) : Type 0 where
  takes_channel takes_declare_channel : (context : String) → Call B
  creates_channel : Call B
  declares : (queue : String) (durable : Bool) (arguments : FieldTable) → Call B
  publishes :
      (routing_key : String) (mandatory : Bool) (payload : B) (properties : BasicProperties)
      → Call B
  awaits_confirm : Call B
  acks : Call B
  rejects : (requeue : Bool) → Call B

abbrev pub Log : Type 0 → Type 0
Log B = List (Call B)

-- An answer of lapin's: a value, or the text of its error.
pub data Reply (A : Type 0) : Type 0 where
  ok : A → Reply A
  failed : String → Reply A

-- How the environment answers the last call of a log. Taking a channel may reconnect, so its errors
-- are the backend's own; creating one on a connection that is there is lapin's.
pub record Broker (B : Type 0) : Type 0 where
  pub channel_taken : Log B → Option RabbitMqError
  pub channel_created : Log B → Option String
  pub declared : Log B → Option String
  pub published : Log B → Option String
  pub confirmed : Log B → Reply Confirmation
  pub acked : Log B → Reply Bool
  pub rejected : Log B → Reply Bool

abbrev pub amqp_error : Option String → Option RabbitMqError
amqp_error none = none
amqp_error (some e) = some (amqp e)

-- The calls that have been made then, and the error if it fails.
abbrev pub Action : Type 0 → Type 0
Action B = Log B → Log B × Option RabbitMqError

module _ {B : Type 0} where
  abbrev pub checks : Option RabbitMqError → Action B
  checks result log = (log, result)

  abbrev pub fails : RabbitMqError → Action B
  fails e log = (log, some e)

  abbrev pub calls : Call B → (Log B → Option RabbitMqError) → Action B
  calls call reply log = (call ∷ log, reply (call ∷ log))

  abbrev pub unless_failed : Action B → Log B × Option RabbitMqError → Log B × Option RabbitMqError
  unless_failed next (log, none) = next log
  unless_failed next (log, some e) = (log, some e)

  infixr 30 ◌>>◌
  abbrev pub ◌>>◌ : Action B → Action B → Action B
  (first >> next) log = unless_failed next (first log)

  -- The calls that settle a message.
  abbrev pub is_settlement : Call B → Bool
  is_settlement acks = true
  is_settlement (rejects requeue) = true
  is_settlement _ = false

  abbrev pub settlements : Log B → ℕ
  settlements = count is_settlement
