-- ===== src/Topology/Args.antt =====
-- The declaration arguments of crates/rabbitmq/src/topology.rs.
use queuey.Common.{
  ℕ, ◌*◌, ◌≤◌, ◌<◌, ◌≡◌, refl, some, none, Option, String, [], ◌∷◌, arith, str_eq, if◌then◌else◌,
}
use queuey.Retry.{Duration}
use queuey.QueueConfig.{QueueConfig}
use queuey.Topology.{
  max_ttl_ms, AmqpValue, FieldTable, long_long_int, long_string, ttl_millis, hold_expires,
  deferred_ttl_ms, deferred_queue_args, queue_args,
}
use queuey.Topology.HoldTtl.{deferred_ttl_ms_bounds, deferred_ttl_ms-pos}

-- The value that a table gives to an argument.
pub arg : String → FieldTable → Option AmqpValue
arg name [] = none
arg name ((k, v) ∷ table) = if str_eq k name then some v else arg name table

-- A hold queue for the time-to-live of a delay: the broker keeps each message for exactly that
-- time-to-live and then routes it to the main queue, and it deletes the idle queue only after twice
-- that time, a value that is above the time-to-live and still within the broker's 32 bits.
pub deferred_queue_args_hold :
    (config : QueueConfig) (d g : Duration) (t : ℕ)
    → deferred_ttl_ms d g ≡ some t
    → (arg "x-message-ttl" (deferred_queue_args config t) ≡ some (long_long_int t))
      × (arg "x-dead-letter-exchange" (deferred_queue_args config t) ≡ some (long_string ""))
      × (arg "x-dead-letter-routing-key" (deferred_queue_args config t)
          ≡ some (long_string config.name))
      × (arg "x-expires" (deferred_queue_args config t) ≡ some (long_long_int (t * 2)))
      × (t < t * 2)
      × (t * 2 ≤ max_ttl_ms)
unfolding deferred_queue_args hold_expires arg
deferred_queue_args_hold config d g t h =
    let b = deferred_ttl_ms_bounds d g t h in
    let p = deferred_ttl_ms-pos d g t h in
    (refl, refl, refl, ground arith, omega arith, omega arith)

-- The time-to-live argument of a main queue is set exactly when the configuration has one. It is
-- between 1 and the 32-bit bound, and where the bound allows it covers the configured time and
-- passes it by less than a millisecond (or is the 1 of a zero time).
pub queue_args_ttl :
    (config : QueueConfig) (ttl : Duration)
    → config.message_ttl ≡ some ttl
    → (arg "x-message-ttl" (queue_args config) ≡ some (long_long_int (ttl_millis ttl)))
      × (1 ≤ ttl_millis ttl)
      × (ttl_millis ttl ≤ max_ttl_ms)
      × (ttl ≤ max_ttl_ms * 1000000 → ttl ≤ ttl_millis ttl * 1000000)
unfolding queue_args arg ttl_millis
queue_args_ttl config ttl h = (rw (h) refl, omega arith, omega arith, λ le. omega arith)
