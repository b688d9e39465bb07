-- ===== src/Rabbitmq/Declare.antt =====
-- Declaring queues: `declare_topology`, `remember` and `redeclare` of crates/rabbitmq/src/connection.rs, and `declare` with
-- `declare_one` of crates/rabbitmq/src/backend.rs. The best-effort
-- close of the channel afterwards is left out: its result goes to the log output only.
pub mod Remembers
pub mod Replay
mod Tests
use queuey.Common.{ℕ, ◌+◌, String, Bool, true, Option, none, some, List, [], ◌∷◌, if◌then◌else◌}
use queuey.Common.Map.{Map, put}
use queuey.QueueConfig.{QueueConfig}
use queuey.Topology.{queue_args, dead_queue_args}
use queuey.Topology.Names.{NameTooLong, dead_queue_name, check_deferrable_name}
use queuey.Rabbitmq.Options.{RabbitMqOptions}
use queuey.Rabbitmq.Errors.{RabbitMqError, deferred_name_too_long, short_string}
use queuey.Rabbitmq.Calls.{
  takes_declare_channel, creates_channel, declares, Log, Action, Broker, amqp_error, checks, calls,
  ◌>>◌,
}

abbrev Configs : Type 0
Configs = Map QueueConfig

-- The calls so far and the map of the handle, with the result.
abbrev pub Declared : Type 0 → Type 0
Declared B = (Log B × Map QueueConfig) × Option RabbitMqError

-- ConnectionHandle::remember
unfoldable pub remember : QueueConfig → Map QueueConfig → Map QueueConfig
remember config configs = put config.name config configs

-- The first name that leaves no room for its hold queues.
pub check_names : (deferred_suffix : String) → List QueueConfig → Option NameTooLong
check_names suffix [] = none
check_names suffix (config ∷ configs) =
    let rest = check_names suffix configs in
    elim (check_deferrable_name config.name suffix) [ none ↦ rest | some e ↦ some e ]

module _ {B : Type 0} where
  abbrev declare_dead : Broker B → QueueConfig → (dead : String) → Action B
  declare_dead broker config dead =
      checks (short_string dead)
      >> calls (declares dead true (dead_queue_args config))
          (λ log. amqp_error (broker.declared log))

  unfoldable pub declare_topology : Broker B → RabbitMqOptions → QueueConfig → Action B
  declare_topology broker options config =
      checks (short_string config.name)
      >> calls (declares config.name config.durable (queue_args config))
          (λ log. amqp_error (broker.declared log))
      >> (if options.declare_dead_letter_queues
          then declare_dead broker config (dead_queue_name config.name options.dead_suffix)
          else checks none)

  -- declare_one, and the queues that follow if it succeeds.
  pub declare_one :
      QueueConfig
      → (next : Log B → Map QueueConfig → Declared B) → Log B × Option RabbitMqError
      → Map QueueConfig
      → Declared B
  declare_one config next (log, none) configs = next log (remember config configs)
  declare_one config next (log, some e) configs = ((log, configs), some e)

  pub declare_each :
      Broker B → RabbitMqOptions → List QueueConfig → Log B → Map QueueConfig → Declared B
  declare_each broker options [] log configs = ((log, configs), none)
  declare_each broker options (config ∷ queues) log configs =
      declare_one config (declare_each broker options queues)
        (declare_topology broker options config log) configs

  -- On the channel that was opened for it, or not.
  abbrev declare_on :
      (Log B → Map QueueConfig → Declared B)
      → Log B × Option RabbitMqError
      → Map QueueConfig
      → Declared B
  declare_on declare_all (log, none) configs = declare_all log configs
  declare_on declare_all (log, some e) configs = ((log, configs), some e)

  -- With the outcome of the check of the names.
  abbrev pub declare_checked :
      Broker B
      → RabbitMqOptions
      → List QueueConfig
      → Log B
      → Map QueueConfig
      → Option NameTooLong
      → Declared B
  declare_checked broker options queues log configs (some e) =
      ((log, configs), some (deferred_name_too_long e))
  declare_checked broker options queues log configs none =
      declare_on (declare_each broker options queues)
        (calls (takes_declare_channel "declare") broker.channel_taken log) configs

  pub declare_queues :
      Broker B → RabbitMqOptions → List QueueConfig → Log B → Map QueueConfig → Declared B
  declare_queues broker options [] log configs = ((log, configs), none)
  declare_queues broker options (config ∷ queues) log configs =
      declare_checked broker options (config ∷ queues) log configs
        (check_names options.deferred_suffix (config ∷ queues))

  -- The loop of `redeclare`, with the number of queues declared so far.
  abbrev pub replayed :
      (next : ℕ → Log B → Log B × ℕ) → ℕ → Log B × Option RabbitMqError → Log B × ℕ
  replayed next declared (log, none) = next (declared + 1) log
  replayed next declared (log, some e) = (log, declared)

  pub replay : Broker B → RabbitMqOptions → List QueueConfig → (declared : ℕ) → Log B → Log B × ℕ
  replay broker options [] declared log = (log, declared)
  replay broker options (config ∷ configs) declared log =
      replayed (replay broker options configs) declared (declare_topology broker options config log)

  -- The channel was opened, or not.
  abbrev pub replay_on : (Log B → Log B × ℕ) → Log B × Option RabbitMqError → Log B × ℕ
  replay_on replays (log, none) = replays log
  replay_on replays (log, some e) = (log, 0)

  -- ConnectionHandle::redeclare, with the number of queues that it declared. `configs` are the values
  -- of the handle's map in the order in which its iteration gives them. The channel is created on the
  -- connection that has been made, without another look at the handle.
  pub redeclare : Broker B → RabbitMqOptions → (configs : List QueueConfig) → Log B → Log B × ℕ
  redeclare broker options [] log = (log, 0)
  redeclare broker options (config ∷ configs) log =
      replay_on (replay broker options (config ∷ configs) 0)
        (calls creates_channel (λ log. amqp_error (broker.channel_created log)) log)
