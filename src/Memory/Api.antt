-- ===== src/Memory/Api.antt =====
-- The operations of `MemoryBackend` and `MemoryDelivery` (crates/core/src/memory.rs), over the shared
-- state and the tasks that were spawned. `tokio` is replaced by what its tasks do here: a timer is an
-- envelope that waits for its deadline, and an `Instant` is a number of nanoseconds.
use queuey.Common.{
  ℕ, ◌+◌, String, Bool, true, false, Option, none, some, List, [], ◌∷◌, ◌++◌, map, ◌==◌, length,
  keep, if◌then◌else◌,
}
use queuey.Common.Map.{Map, get, put}
use queuey.Retry.{Duration, or_else}
use queuey.QueueConfig.{QueueConfig}
use queuey.Envelope.{Envelope}
use queuey.Memory.{
  AckKind, succeeded, retried, deferred, QueueState, Shared, new_queue, insert_by_priority, wake,
  with_queue, release_hold,
}

-- `Result<()>` of the operations: `Err(Error::ShutDown)` is the one error that they return.
pub data Outcome : Type 0 where
  done shut_down : Outcome

-- A spawned task that sleeps and then calls `enqueue_now`. `guard` is its `HoldGuard`.
pub record Timer (V : Type 0) : Type 0 where
  pub envelope : Envelope V
  pub deadline : ℕ
  pub guard : Option String

pub record Backend (V : Type 0) : Type 0 where
  pub shared : Shared V
  pub timers : List (Timer V)
  pub now : ℕ

module _ {V : Type 0} where
  pub new_backend : Backend V
  new_backend = record { shared = record { queues = []; closed = false }; timers = []; now = 0 }

  abbrev pub release_guard : Option String → Shared V → Shared V
  release_guard none shared = shared
  release_guard (some queue) shared = release_hold queue shared

  abbrev pub add_pending : Envelope V → QueueState V → QueueState V
  add_pending env q = wake (record q { pending = insert_by_priority env q.pending })

  -- enqueue_now
  unfoldable pub enqueue_now : Shared V → Envelope V → Option String → Shared V
  enqueue_now shared env hold =
      let released = release_guard hold shared in
      if released.closed then released else with_queue env.queue (add_pending env) released

  -- schedule
  unfoldable pub schedule : Backend V → Envelope V → Duration → Backend V
  schedule b env delay =
      if delay == 0 then record b { shared = enqueue_now b.shared env none } else record b {
        timers = record { envelope = env; deadline = b.now + delay; guard = none } ∷ b.timers;
      }

  -- hold
  unfoldable pub hold : Backend V → Envelope V → Duration → Backend V
  hold b env delay =
      if delay == 0 then record b { shared = enqueue_now b.shared env none } else record b {
        shared = with_queue env.queue (λ q. record q { held = q.held + 1 }) b.shared;
        timers =
            record { envelope = env; deadline = b.now + delay; guard = some env.queue } ∷ b.timers;
      }

  unfoldable pub declare_all : Map (QueueState V) → List QueueConfig → Map (QueueState V)
  declare_all queues [] = queues
  declare_all queues (config ∷ configs) =
      declare_all
        (elim (get config.name queues) [
          | none ↦ put config.name (new_queue config) queues
          | some q ↦ queues
        ])
        configs

  unfoldable pub declare : Backend V → List QueueConfig → Outcome × Backend V
  unfolding declare_all
  declare b configs = if b.shared.closed then (shut_down, b) else (
    done,
    record b { shared = record b.shared { queues = declare_all b.shared.queues configs } },
  )

  unfoldable pub publish : Backend V → Envelope V → Option Duration → Outcome × Backend V
  publish b env delay =
      if b.shared.closed then (shut_down, b) else (done, schedule b env (or_else delay 0))

  unfoldable pub defer : Backend V → Envelope V → Duration → Outcome × Backend V
  defer b env delay = if b.shared.closed then (shut_down, b) else (done, hold b env delay)

  -- MemoryDelivery::record_ack
  unfoldable pub record_ack : Backend V → Envelope V → AckKind → Backend V
  record_ack b env kind = record b {
    shared =
        with_queue env.queue (λ q. record q { settled = q.settled ++ (env, kind) ∷ [] }) b.shared;
  }

  -- MemoryDelivery::ack
  unfoldable pub ack : Backend V → Envelope V → Outcome × Backend V
  ack b env = (done, record_ack b env succeeded)

  -- MemoryDelivery::dead_letter
  unfoldable pub dead_letter : Backend V → Envelope V → String → Outcome × Backend V
  dead_letter b env reason = if b.shared.closed then (shut_down, b) else (
    done,
    record b {
      shared =
          with_queue env.queue (λ q. record q { dead = q.dead ++ (env, reason) ∷ [] }) b.shared;
    },
  )

  -- MemoryDelivery::retry
  unfoldable pub retry : Backend V → Envelope V → Envelope V → Duration → Outcome × Backend V
  retry b env next delay =
      if b.shared.closed
      then (shut_down, b)
      else (done, record_ack (schedule b next delay) env retried)

  -- MemoryDelivery::defer
  unfoldable pub defer_delivery :
      Backend V → Envelope V → Envelope V → Duration → Outcome × Backend V
  defer_delivery b env next delay =
      if b.shared.closed
      then (shut_down, b)
      else (done, record_ack (hold b next delay) env deferred)

  -- The task of the first timer that is due runs: `sleep_until` is over.
  unfoldable pub fire : Backend V → List (Timer V) → Timer V → List (Timer V) → Backend V
  fire b before timer after = record b {
    shared = enqueue_now b.shared timer.envelope timer.guard;
    timers = before ++ after;
  }

  -- The task is aborted or its runtime goes away: `HoldGuard::drop`.
  unfoldable pub abort : Backend V → List (Timer V) → Timer V → List (Timer V) → Backend V
  abort b before timer after = record b {
    shared = release_guard timer.guard b.shared;
    timers = before ++ after;
  }

  unfoldable pub close_queues : Map (QueueState V) → Map (QueueState V)
  close_queues [] = []
  close_queues ((name, q) ∷ queues) =
      (name, wake (record q { consumers = [] })) ∷ close_queues queues

  -- close, as far as the shared state goes; the semaphores are closed in Consumer.
  unfoldable pub close : Backend V → Outcome × Backend V
  unfolding close_queues
  close b =
      (done, record b { shared = record { queues = close_queues b.shared.queues; closed = true } })

  -- The test helpers: `pending`, `deferred`, `settled`, `settled_by`, `dead_letters`.
  unfoldable pub pending : Backend V → String → ℕ
  pending b queue = elim (get queue b.shared.queues) [ none ↦ 0 | some q ↦ length q.pending ]

  unfoldable pub deferred_count : Backend V → String → ℕ
  deferred_count b queue = elim (get queue b.shared.queues) [ none ↦ 0 | some q ↦ q.held ]

  unfoldable pub settled : Backend V → String → List (Envelope V × AckKind)
  settled b queue = elim (get queue b.shared.queues) [ none ↦ [] | some q ↦ q.settled ]

  unfoldable pub dead_letters : Backend V → String → List (Envelope V × String)
  dead_letters b queue = elim (get queue b.shared.queues) [ none ↦ [] | some q ↦ q.dead ]

abbrev same_kind : AckKind → AckKind → Bool
same_kind succeeded succeeded = true
same_kind retried retried = true
same_kind deferred deferred = true
same_kind _ _ = false

abbrev accepts : Option AckKind → AckKind → Bool
accepts none recorded = true
accepts (some kind) recorded = same_kind recorded kind

unfoldable pub settled_by : {V : Type 0} → Backend V → String → Option AckKind → List (Envelope V)
unfolding settled
settled_by b queue kind = map (λ s. s.0) (keep (λ s. accepts kind s.1) (settled b queue))
