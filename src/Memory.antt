-- ===== src/Memory.antt =====
-- crates/core/src/memory.rs: the in-memory backend. This file has its data, the shared state behind
-- the mutex and the operations on it; the children have the timers and the public operations
-- (Api), the consumer tasks (Consumer), and the proofs. Each function below is one critical section.
pub mod Priority
pub mod Fifo
pub mod Lanes
pub mod Api
pub mod Consumer
pub mod World
pub mod Window
pub mod Count
pub mod Conservation
pub mod Orderly
pub mod Holds
pub mod HoldCounts
pub mod Outcomes
pub mod Requeue
pub mod Race
mod Tests
use queuey.Common.{
  ℕ, zero, suc, ◌+◌, ◌-◌, ◌%◌, String, Bool, false, Option, none, some, List, [], ◌∷◌, ◌++◌, leb,
  if◌then◌else◌,
}
use queuey.Common.Map.{Map, get, put}
use queuey.QueueConfig.{QueueConfig, new_config}
use queuey.Envelope.{Envelope}

pub data AckKind : Type 0 where
  succeeded retried deferred : AckKind

pub record QueueState (V : Type 0) : Type 0 where
  pub config : QueueConfig
  pub pending : List (Envelope V)
  pub settled : List (Envelope V × AckKind)
  pub dead : List (Envelope V × String)
  pub consumers : List ℕ  -- the identities of the semaphores
  pub held : ℕ
  pub signal : ℕ

pub record Shared (V : Type 0) : Type 0 where
  pub queues : Map (QueueState V)
  pub closed : Bool

-- `iter().rposition(test)`: the last position whose element passes.
unfoldable pub rposition {ℓ} : {A : Type ℓ} → (A → Bool) → List A → Option ℕ
rposition test [] = none
rposition test (x ∷ xs) = elim (rposition test xs) [
  | some i ↦ some (suc i)
  | none ↦ if test x then some 0 else none
]

-- `VecDeque::insert`
unfoldable pub insert_at {ℓ} : {A : Type ℓ} → ℕ → A → List A → List A
insert_at zero a xs = a ∷ xs
insert_at (suc i) a [] = a ∷ []
insert_at (suc i) a (x ∷ xs) = x ∷ insert_at i a xs

abbrev pub after_last : Option ℕ → ℕ
after_last none = 0
after_last (some last) = last + 1

module _ {V : Type 0} where
  -- QueueState::new
  unfoldable pub new_queue : QueueConfig → QueueState V
  new_queue config = record {
    config = config;
    pending = [];
    settled = [];
    dead = [];
    consumers = [];
    held = 0;
    signal = 0;
  }

  unfoldable pub insert_by_priority : Envelope V → List (Envelope V) → List (Envelope V)
  unfolding rposition insert_at
  insert_by_priority env pending =
      insert_at (after_last (rposition (λ p. leb env.priority p.priority) pending)) env pending

  unfoldable pub wake : QueueState V → QueueState V
  wake q = record q { signal = (q.signal + 1) % 18446744073709551616 }

  -- Shared::queue_mut: the queue, made on the spot where there is none.
  abbrev pub queue_or_new : String → Option (QueueState V) → QueueState V
  queue_or_new name none = new_queue (new_config name)
  queue_or_new name (some q) = q

  abbrev pub with_queue : String → (QueueState V → QueueState V) → Shared V → Shared V
  with_queue name f shared = record shared {
    queues = put name (f (queue_or_new name (get name shared.queues))) shared.queues;
  }

  -- `queues.get_mut(name)`: nothing happens to a queue that is not there.
  unfoldable pub on_queue : String → (QueueState V → QueueState V) → Shared V → Shared V
  on_queue name f shared = record shared {
    queues = elim (get name shared.queues) [
      | none ↦ shared.queues
      | some q ↦ put name (f q) shared.queues
    ];
  }

  unfoldable pub release_hold : String → Shared V → Shared V
  unfolding on_queue
  release_hold name shared = on_queue name (λ q. record q { held = q.held - 1 }) shared
