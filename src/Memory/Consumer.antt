-- ===== src/Memory/Consumer.antt =====
-- The critical sections of a consumer (crates/core/src/memory.rs): what `consume`, `consumer_loop`,
-- `ConsumerGuard` and `DeliveryReceiver` do while they hold the lock. A semaphore is its identity.
use queuey.Common.{ℕ, String, none, some, List, [], ◌∷◌, ◌++◌, ◌==◌, not, keep, if◌then◌else◌}
use queuey.Common.Map.{get, put}
use queuey.QueueConfig.{QueueConfig}
use queuey.Envelope.{Envelope}
use queuey.Memory.{on_queue, QueueState, Shared, wake, with_queue}

-- Semaphore::MAX_PERMITS is the value that tokio documents, usize::MAX >> 3.
abbrev max_permits : ℕ
max_permits = 2305843009213693951

-- The prefetch window of `consume`.
unfoldable pub permits_for : QueueConfig → ℕ
permits_for config = if config.prefetch == 0 then max_permits else config.prefetch

-- What a pull of the consumer's task finds: a closed backend, no message, or a message.
pub data Pulled (V : Type 0) : Type 0 where
  stopped : Pulled V
  nothing : Pulled V
  pulled : Envelope V → Pulled V

module _ {V : Type 0} where
  -- The section of `consume`: a closed backend registers nobody.
  unfoldable pub register : Shared V → String → ℕ → Shared V
  register shared queue semaphore =
      if shared.closed
      then shared
      else with_queue queue (λ q. record q { consumers = q.consumers ++ semaphore ∷ [] }) shared

  -- ConsumerGuard::drop
  unfoldable pub unregister : Shared V → String → ℕ → Shared V
  unfolding on_queue
  unregister shared queue semaphore =
      on_queue queue (λ q. record q { consumers = keep (λ s. not (s == semaphore)) q.consumers })
        shared

  unfoldable pub pop_front :
      String → Shared V → QueueState V → List (Envelope V) → Pulled V × Shared V
  pop_front queue shared q [] = (nothing, shared)
  pop_front queue shared q (env ∷ rest) =
      (pulled env, record shared { queues = put queue (record q { pending = rest }) shared.queues })

  unfoldable pub pull : Shared V → String → Pulled V × Shared V
  unfolding pop_front
  pull shared queue =
      let found = get queue shared.queues in
      if shared.closed
      then (stopped, shared)
      else elim found [ none ↦ (nothing, shared) | some q ↦ pop_front queue shared q q.pending ]

  -- The consumer went away while the message was on its way to it.
  unfoldable pub put_back : Shared V → String → Envelope V → Shared V
  unfolding wake on_queue
  put_back shared queue env =
      on_queue queue (λ q. wake (record q { pending = env ∷ q.pending })) shared

  -- DeliveryReceiver::drop, for the messages that were never handed out, oldest first.
  unfoldable pub requeue : Shared V → String → List (Envelope V) → Shared V
  unfolding wake
  requeue shared queue [] = shared
  requeue shared queue (env ∷ unread) =
      if shared.closed
      then shared
      else with_queue queue (λ q. wake (record q { pending = (env ∷ unread) ++ q.pending })) shared
