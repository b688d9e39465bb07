-- ===== src/Rabbitmq/Stream/Ask.antt =====
-- What a consumer stream of crates/rabbitmq/src/backend.rs asks of lapin, of the `ConnectionHandle` and of the
-- clock: a log of questions, the latest first, and an environment that answers each in any way from
-- the log so far. `subscribe` of the same file.
use queuey.Common.{ℕ, String, Bool, Option, none, some, List, ◌∷◌}
use queuey.Retry.{Duration}
use queuey.QueueConfig.{QueueConfig}
use queuey.Rabbitmq.Errors.{RabbitMqError, amqp, short_string}
use queuey.Rabbitmq.Calls.{Reply, ok, failed}
use queuey.Rabbitmq.Stream.Tag.{consumer_tag}

pub data Question : Type 0 where
  polls : (consumer_of : String) → Question
  tests_closing : Question
  ensures_connected : Question
  reads_generation : Question
  creates_channel : Question
  sets_prefetch : (channel prefetch : ℕ) → Question
  reads_clock : Question
  consumes : (channel : ℕ) (queue tag : String) → Question
  tests_channel : (channel : ℕ) → Question
  closes_channel : (channel : ℕ) → Question
  sleeps : Duration → Question

abbrev pub Asked : Type 0
Asked = List Question

-- How the environment answers the last question of a log. A channel is known by its number. The
-- clock gives the nanoseconds with the next number of consumer tags.
pub record Environment (B : Type 0) : Type 0 where
  pub polled : Asked → Option (Reply B)
  pub closing : Asked → Bool
  pub connected : Asked → Option RabbitMqError
  pub generation : Asked → ℕ
  pub channel_created : Asked → Reply ℕ
  pub prefetch_set : Asked → Reply (Unit {0})
  pub clock : Asked → ℕ × ℕ
  pub consuming : Asked → Reply (Unit {0})
  pub channel_open : Asked → Bool
  pub slept : Asked → Option RabbitMqError
  pub error_text : RabbitMqError → String

pub data Outcome (A : Type 0) : Type 0 where
  done : A → Outcome A
  raised : RabbitMqError → Outcome A

-- A part of the code that asks and fails or not; `>>=` is the `?` of the source.
abbrev pub Task : Type 0 → Type 0
Task A = Asked → Asked × Outcome A

abbrev pub and_then : {A C : Type 0} → (A → Task C) → Asked × Outcome A → Asked × Outcome C
and_then next (asked, done a) = next a asked
and_then next (asked, raised e) = (asked, raised e)

infixl 5 ◌>>=◌ ◌>>◌
abbrev pub ◌>>=◌ : {A C : Type 0} → Task A → (A → Task C) → Task C
(first >>= next) asked = and_then next (first asked)

abbrev pub ◌>>◌ : {C : Type 0} → Task (Unit {0}) → Task C → Task C
first >> next = first >>= λ _. next

abbrev pub ask : {A : Type 0} → Question → (Asked → Outcome A) → Task A
ask question answer asked = (question ∷ asked, answer (question ∷ asked))

-- `map_err(amqp)`
abbrev pub or_amqp : {A : Type 0} → Reply A → Outcome A
or_amqp (ok a) = done a
or_amqp (failed e) = raised (amqp e)

abbrev pub or_raised : Option RabbitMqError → Outcome (Unit {0})
or_raised none = done tt
or_raised (some e) = raised e

abbrev pub require : Option RabbitMqError → Task (Unit {0})
require result asked = (asked, or_raised result)

abbrev pub return : {A : Type 0} → A → Task A
return a asked = (asked, done a)

-- The tag with the clock read.
abbrev tag_of : String → ℕ × ℕ → String
tag_of queue (nanos, sequence) = consumer_tag queue nanos sequence

module _ {B : Type 0} where
  -- The channel, with the consumer on it.
  unfoldable pub subscribe : Environment B → QueueConfig → Task (ℕ × String)
  subscribe environment config = do
    channel ← ask creates_channel (λ asked. or_amqp (environment.channel_created asked))
    ask (sets_prefetch channel config.prefetch) (λ asked. or_amqp (environment.prefetch_set asked))
    tag ← ask reads_clock (λ asked. done (tag_of config.name (environment.clock asked)))
    require (short_string config.name)
    require (short_string tag)
    ask (consumes channel config.name tag) (λ asked. or_amqp (environment.consuming asked))
    return (channel, tag)
