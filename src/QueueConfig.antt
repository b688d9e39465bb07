-- ===== src/QueueConfig.antt =====
-- crates/core/src/queue.rs: the configuration of one queue, and a set of queues.
pub mod Lookup
mod Tests
use queuey.Common.{
  ℕ, String, Bool, true, Option, none, some, List, [], ◌∷◌, str_eq, ltb, if◌then◌else◌,
}
use queuey.Retry.{Duration, RetryPolicy, default_policy}

pub record QueueConfig : Type 0 where
  pub name : String
  pub prefetch : ℕ  -- u16
  pub retry : RetryPolicy
  pub durable : Bool
  pub message_ttl : Option Duration
  pub max_priority : Option ℕ  -- u8

abbrev pub default_max_priority : ℕ
default_max_priority = 10

unfoldable pub new_config : String → QueueConfig
new_config name = record {
  name = name;
  prefetch = 16;
  retry = default_policy;
  durable = true;
  message_ttl = none;
  max_priority = some default_max_priority;
}

unfoldable pub set_prefetch : QueueConfig → ℕ → QueueConfig
set_prefetch c n = record c { prefetch = n }

unfoldable pub set_retry : QueueConfig → RetryPolicy → QueueConfig
set_retry c policy = record c { retry = policy }

unfoldable pub set_durable : QueueConfig → Bool → QueueConfig
set_durable c b = record c { durable = b }

unfoldable pub set_message_ttl : QueueConfig → Duration → QueueConfig
set_message_ttl c ttl = record c { message_ttl = some ttl }

unfoldable pub set_max_priority : QueueConfig → ℕ → QueueConfig
set_max_priority c levels = record c { max_priority = if ltb 0 levels then some levels else none }

-- trait QueueSet: an enum of queues, with its variants in declaration order.
pub record QueueSet (Q : Type 0) : Type 0 where
  pub all : List Q
  pub name : Q → String
  pub config : Q → QueueConfig

find_name : {Q : Type 0} → (Q → String) → String → List Q → Option Q
find_name name s [] = none
find_name name s (q ∷ qs) = if str_eq (name q) s then some q else find_name name s qs

-- QueueSet::from_name, the method that the trait provides.
pub from_name : {Q : Type 0} → QueueSet Q → String → Option Q
unfolding find_name
from_name set s = find_name set.name s set.all
