-- ===== src/Worker/Build.antt =====
-- `WorkerBuilder` of crates/core/src/worker.rs. The queue set is an argument, and so is the answer of
-- the backend's `declare`. The log lines about overrides that apply to nothing are left out.
pub mod Policies
pub mod Queues
mod Tests
use queuey.Common.{
  ℕ, ◌+◌, String, Bool, true, false, not, ◌&&◌, Option, none, some, List, [], ◌∷◌, ◌++◌, map, max,
  str_eq, if◌then◌else◌,
}
use queuey.Common.Map.{Map, get, put}
use queuey.Retry.{Duration, RetryPolicy, or_else}
use queuey.QueueConfig.{QueueConfig, QueueSet}
use queuey.Envelope.{Job}
use queuey.Worker.{ErasedHandler, JobHandler, erase}

pub data BuildError : Type 0 where
  duplicate_handler : String → BuildError
  declare_failed : String → BuildError

pub data Result (A : Type 0) : Type 0 where
  ok : A → Result A
  err : BuildError → Result A

infixl 5 ◌>>=◌ ◌>>◌
abbrev pub ◌>>=◌ : {A B : Type 0} → Result A → (A → Result B) → Result B
ok a >>= f = f a
err e >>= f = err e

abbrev pub ◌>>◌ : {A B : Type 0} → Result A → Result B → Result B
m >> k = m >>= λ _. k

pub record Builder (V Q : Type 0) : Type 0 where
  pub handlers : List (String × ErasedHandler V)
  pub queue_retry : Map RetryPolicy
  pub job_retry : Map RetryPolicy
  pub dead_letter_hook : Bool
  pub queues : Option (List Q)
  pub concurrency : Option ℕ
  pub job_timeout : Option Duration
  pub close_backend : Bool

pub record Worker (V : Type 0) : Type 0 where
  pub handlers : Map (ErasedHandler V)
  pub policies : Map RetryPolicy
  pub dead_letter_hook : Bool
  pub queues : List QueueConfig
  pub concurrency : ℕ
  pub job_timeout : Option Duration
  pub close_backend : Bool

module _ {V Q : Type 0} where
  -- Worker::builder
  pub builder : Builder V Q
  builder = record {
    handlers = [];
    queue_retry = [];
    job_retry = [];
    dead_letter_hook = false;
    queues = none;
    concurrency = none;
    job_timeout = none;
    close_backend = false;
  }

  pub add_handler : {J : Type 0} → Builder V Q → Job V J → JobHandler J → Builder V Q
  add_handler b spec handler = record b {
    handlers = b.handlers ++ (spec.name, erase spec handler) ∷ [];
  }

  pub set_queues : Builder V Q → List Q → Builder V Q
  set_queues b queues = record b { queues = some queues }

  pub set_concurrency : Builder V Q → ℕ → Builder V Q
  set_concurrency b n = record b { concurrency = some n }

  pub retry_override : QueueSet Q → Builder V Q → Q → RetryPolicy → Builder V Q
  retry_override set b queue policy = record b {
    queue_retry = put (set.name queue) policy b.queue_retry;
  }

  pub job_retry_override : {J : Type 0} → Builder V Q → Job V J → RetryPolicy → Builder V Q
  job_retry_override b spec policy = record b { job_retry = put spec.name policy b.job_retry }

  pub on_dead_letter : Builder V Q → Builder V Q
  on_dead_letter b = record b { dead_letter_hook = true }

  pub set_job_timeout : Builder V Q → Duration → Builder V Q
  set_job_timeout b timeout = record b { job_timeout = some timeout }

  pub close_backend_on_shutdown : Builder V Q → Bool → Builder V Q
  close_backend_on_shutdown b close = record b { close_backend = close }

-- The loop that fills the map of handlers.
pub collect_handlers :
    {V : Type 0}
    → Map (ErasedHandler V)
    → List (String × ErasedHandler V)
    → Result (Map (ErasedHandler V))
collect_handlers handlers [] = ok handlers
collect_handlers handlers ((name, handler) ∷ rest) =
    let more = collect_handlers (put name handler handlers) rest in
    elim (get name handlers) [ none ↦ more | some old ↦ err (duplicate_handler name) ]

-- The policy of one registered handler.
pub resolve :
    {V : Type 0} → Map RetryPolicy → Map RetryPolicy → String → ErasedHandler V → RetryPolicy
resolve job_retry queue_retry name handler = elim (get name job_retry) [
  | some policy ↦ policy
  | none ↦ or_else (get handler.queue queue_retry) handler.declared_policy
]

-- The loop that fills the map of policies.
pub resolve_all :
    {V : Type 0}
    → Map RetryPolicy
    → Map RetryPolicy
    → Map RetryPolicy
    → Map (ErasedHandler V)
    → Map RetryPolicy
resolve_all job_retry queue_retry policies [] = policies
resolve_all job_retry queue_retry policies ((name, handler) ∷ handlers) =
    resolve_all job_retry queue_retry
      (put name (resolve job_retry queue_retry name handler) policies) handlers

-- `queues.iter().any(|c| c.name == name)`
abbrev pub named : String → List QueueConfig → Bool
named name [] = false
named name (c ∷ cs) = if str_eq c.name name then true else named name cs

-- The loop that collects the configurations of the selected queues.
pub select : {Q : Type 0} → QueueSet Q → List QueueConfig → List Q → List QueueConfig
select set queues [] = queues
select set queues (q ∷ qs) =
    select set (if named (set.config q).name queues then queues else queues ++ set.config q ∷ []) qs

abbrev pub sum_prefetch : List QueueConfig → ℕ
sum_prefetch [] = 0
sum_prefetch (c ∷ cs) = c.prefetch + sum_prefetch cs

pub build :
    {V Q : Type 0}
    → QueueSet Q
    → (List QueueConfig → Result (Unit {0}))
    → Builder V Q
    → Result (Worker V)
build set declare b = do
  handlers ← collect_handlers [] b.handlers
  let queues = select set [] (or_else b.queues set.all)
  declare queues
  ok (record {
    handlers = handlers;
    policies = resolve_all b.job_retry b.queue_retry [] handlers;
    dead_letter_hook = b.dead_letter_hook;
    queues = queues;
    concurrency = max (or_else b.concurrency (sum_prefetch queues)) 1;
    job_timeout = b.job_timeout;
    close_backend = b.close_backend;
  })
