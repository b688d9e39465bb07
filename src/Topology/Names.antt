-- ===== src/Topology/Names.antt =====
-- The names of the broker's queues: `dead_queue_name` and `deferred_queue_name` of
-- crates/rabbitmq/src/topology.rs, and `check_deferrable_name` of crates/rabbitmq/src/backend.rs. A text is
-- a native `String`, whose `len` counts bytes as in Rust.
pub mod Decimal
pub mod Deferrable
mod Tests
use Prim.Native.String.{◌++◌, len}
use queuey.Common.{
  ℕ, zero, suc, ◌+◌, ◌/◌, ◌%◌, String, Option, none, some, ltb, leb, if◌then◌else◌, ◌==◌,
}
use queuey.Topology.{max_deferral_ms}

-- A decimal digit.
abbrev pub digit : ℕ → String
digit zero = "0"
digit (suc zero) = "1"
digit (suc (suc zero)) = "2"
digit (suc (suc (suc zero))) = "3"
digit (suc (suc (suc (suc zero)))) = "4"
digit (suc (suc (suc (suc (suc zero))))) = "5"
digit (suc (suc (suc (suc (suc (suc zero)))))) = "6"
digit (suc (suc (suc (suc (suc (suc (suc zero))))))) = "7"
digit (suc (suc (suc (suc (suc (suc (suc (suc zero)))))))) = "8"
digit _ = "9"

-- `Display` of an unsigned integer with at most `fuel` digits.
unfoldable pub decimal_on : (fuel : ℕ) → ℕ → String
decimal_on zero n = ""
decimal_on (suc fuel) n =
    let front = decimal_on fuel (n / 10) in if ltb n 10 then digit n else front ++ digit (n % 10)

-- A `u32` has at most ten digits.
unfoldable pub decimal : ℕ → String
decimal n = decimal_on 10 n

unfoldable pub dead_queue_name : (queue suffix : String) → String
dead_queue_name queue suffix = queue ++ suffix

unfoldable pub deferred_queue_name : (queue suffix : String) → (ttl_ms : ℕ) → String
deferred_queue_name queue suffix ttl_ms = queue ++ (suffix ++ ("." ++ decimal ttl_ms))

-- lapin's MAX_SHORT_STRING_LENGTH, the limit of an AMQP short string
abbrev pub max_short_string_length : ℕ
max_short_string_length = 255

-- RabbitMqError::DeferredNameTooLong
pub record NameTooLong : Type 0 where
  pub queue : String
  pub hold : String
  pub length : ℕ
  pub limit : ℕ

-- `none` is `Ok(())`.
unfoldable pub check_deferrable_name : (queue deferred_suffix : String) → Option NameTooLong
check_deferrable_name queue deferred_suffix =
    let hold = deferred_queue_name queue deferred_suffix max_deferral_ms in
    if leb (len hold) max_short_string_length
    then none
    else some
        (record { queue = queue; hold = hold; length = len hold; limit = max_short_string_length })
