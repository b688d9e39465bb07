-- ===== src/Topology.antt =====
-- crates/rabbitmq/src/topology.rs: the names, time-to-live values and declaration arguments of the
-- broker queues. Each width is written out; the clamps are the source's.
pub mod HoldTtl
pub mod Args
pub mod Names
mod Tests
use queuey.Common.{
  ℕ, ◌+◌, ◌-◌, ◌*◌, ◌/◌, String, Option, none, some, List, [], ◌∷◌, ◌++◌, min, max, leb,
  if◌then◌else◌,
}
use queuey.Retry.{Duration}
use queuey.QueueConfig.{QueueConfig}

-- u32::MAX milliseconds
abbrev pub max_ttl_ms : ℕ
max_ttl_ms = 4294967295

abbrev pub max_deferral_ms : ℕ
max_deferral_ms = max_ttl_ms / 2

abbrev pub u64_max : ℕ
u64_max = 18446744073709551615

abbrev pub u128_max : ℕ
u128_max = 340282366920938463463374607431768211455

-- `div_ceil` of an unsigned integer
abbrev pub div_ceil : ℕ → ℕ → ℕ
div_ceil a b = (a + (b - 1)) / b

abbrev pub clamp : ℕ → ℕ → ℕ → ℕ
clamp x lo hi = max lo (min x hi)

pub millis_ceil : Duration → ℕ
millis_ceil duration = div_ceil duration 1000000

pub ttl_millis : Duration → ℕ
ttl_millis ttl = clamp (div_ceil ttl 1000000) 1 max_ttl_ms

-- `clamp(1, MAX_DEFERRAL_MS)` of the granularity
pub hold_step : Duration → ℕ
unfolding millis_ceil
hold_step granularity = clamp (millis_ceil granularity) 1 max_deferral_ms

unfoldable pub deferred_ttl_ms : Duration → Duration → Option ℕ
unfolding hold_step
deferred_ttl_ms delay granularity =
    let step = hold_step granularity in
    let ttl = max (min (div_ceil (millis_ceil delay) step * step) u128_max) step in
    if leb ttl max_deferral_ms then some (min ttl max_deferral_ms) else none

-- The AMQP values that declarations and headers use.
pub data AmqpValue : Type 0 where
  long_long_int : ℕ → AmqpValue
  long_uint : ℕ → AmqpValue
  short_short_uint : ℕ → AmqpValue
  long_string : String → AmqpValue

abbrev pub FieldTable : Type 0
FieldTable = List (String × AmqpValue)

abbrev ttl_arg : Option Duration → FieldTable
ttl_arg none = []
ttl_arg (some ttl) = ("x-message-ttl", long_long_int (ttl_millis ttl)) ∷ []

abbrev priority_arg : Option ℕ → FieldTable
priority_arg none = []
priority_arg (some levels) = ("x-max-priority", short_short_uint levels) ∷ []

pub queue_args : QueueConfig → FieldTable
unfolding ttl_millis
queue_args config = ttl_arg config.message_ttl ++ priority_arg config.max_priority

pub hold_expires : ℕ → ℕ
hold_expires ttl_ms = min (min (ttl_ms * 2) u64_max) max_ttl_ms

pub deferred_queue_args : QueueConfig → ℕ → FieldTable
unfolding hold_expires
deferred_queue_args config ttl_ms =
    ("x-message-ttl", long_long_int ttl_ms)
    ∷ ("x-dead-letter-exchange", long_string "")
    ∷ ("x-dead-letter-routing-key", long_string config.name)
    ∷ ("x-expires", long_long_int (hold_expires ttl_ms))
    ∷ []

pub dead_queue_args : QueueConfig → FieldTable
dead_queue_args config = []
