-- ===== src/Memory/Window.antt =====
-- The prefetch window of one consumer of the in-memory backend (crates/core/src/memory.rs): `consumer_loop` with
-- its semaphore, its channel and its signal, the stream `DeliveryReceiver`, and the deliveries that
-- are out, as steps of one task at a time. Of tokio's `watch` the model has whether a value was sent
-- since the consumer last saw one; a semaphore is the number of its free permits.
pub mod Changes
pub mod Wakes
pub mod Bounds
pub mod Progress
mod Tests
use queuey.Common.{
  ℕ, ◌+◌, ◌-◌, ◌<◌, ◌≡◌, ◌||◌, ◌&&◌, String, Bool, true, false, not, Option, none, some, List, [],
  ◌∷◌, ◌++◌, length, ◌==◌, if◌then◌else◌,
}
use queuey.Common.Map.{get}
use queuey.QueueConfig.{QueueConfig}
use queuey.Envelope.{Envelope}
use queuey.Memory.{QueueState, Shared}
use queuey.Memory.Consumer.{
  Pulled, stopped, nothing, pulled, permits_for, register, unregister, pull, put_back, requeue,
}
use queuey.Memory.World
use queuey.Memory.World.{World}

-- Where the task stands; between `looking` and `sending` it has a permit.
pub data Phase (V : Type 0) : Type 0 where
  acquiring looking waiting finished : Phase V
  sending : Envelope V → Phase V

pub record Window (V : Type 0) : Type 0 where
  pub shared : Shared V
  pub queue : String
  pub semaphore : ℕ  -- its identity
  pub free : ℕ  -- its permits
  pub semaphore_closed : Bool
  pub phase : Phase V
  pub changed : Bool  -- what `signal.changed()` waits for
  pub channel : List (Envelope V)
  pub stream_open : Bool
  pub out : List (Envelope V)  -- deliveries that were handed out and hold their permits

module _ {V : Type 0} where
  abbrev signal_in : Option (QueueState V) → ℕ
  signal_in none = 0
  signal_in (some q) = q.signal

  abbrev pub signal_of : String → Shared V → ℕ
  signal_of queue shared = signal_in (get queue shared.queues)

  -- The shared state after a critical section; `wake` is seen by the signal.
  abbrev pub after_section : Window V → Shared V → Window V
  after_section w shared = record w {
    shared = shared;
    changed = w.changed || not (signal_of w.queue w.shared == signal_of w.queue shared);
  }

  -- consume, on a backend that is not closed
  pub new_window : Shared V → QueueConfig → (semaphore : ℕ) → Window V
  new_window shared config semaphore = record {
    shared = register shared config.name semaphore;
    queue = config.name;
    semaphore = semaphore;
    free = permits_for config;
    semaphore_closed = false;
    phase = acquiring;
    changed = false;
    channel = [];
    stream_open = true;
    out = [];
  }

  -- The task returns, with a permit or without: the permit and the guard are dropped.
  abbrev pub returns : Window V → Window V
  returns w = record (after_section w (unregister w.shared w.queue w.semaphore)) {
    phase = finished;
  }

  abbrev pub returns_permit : Window V → Window V
  returns_permit w = returns (record w { free = w.free + 1 })

  -- The match on what the pull found.
  abbrev pub looked : Window V → Pulled V × Shared V → Window V
  looked w (stopped, shared) = returns_permit w
  looked w (nothing, shared) = record (after_section w shared) { phase = waiting }
  looked w (pulled env, shared) = record (after_section w shared) { phase = sending env }

  -- `tx.send`
  abbrev pub sent : Window V → Envelope V → Window V
  sent w env =
      if w.stream_open
      then record w { channel = w.channel ++ env ∷ []; phase = acquiring }
      else returns_permit (after_section w (put_back w.shared w.queue env))

-- What the task of `consumer_loop` does next.
pub data TaskStep {V : Type 0} (w : Window V) : Window V → Type 0 where
  acquires :
      w.phase ≡ acquiring
      → w.stream_open ≡ true
      → w.semaphore_closed ≡ false
      → 0 < w.free
      → TaskStep w (record w { free = w.free - 1; phase = looking })
  leaves :
      w.phase ≡ acquiring
      → (w.stream_open && not w.semaphore_closed) ≡ false
      → TaskStep w (returns w)
  looks : w.phase ≡ looking → TaskStep w (looked w (pull w.shared w.queue))
  notices :
      w.phase ≡ waiting
      → w.stream_open ≡ true
      → w.changed ≡ true
      → TaskStep w (record w { changed = false; phase = looking })
  stops_waiting : w.phase ≡ waiting → w.stream_open ≡ false → TaskStep w (returns_permit w)
  sends : (env : Envelope V) → w.phase ≡ sending env → TaskStep w (sent w env)

pub data Step {V : Type 0} (w : Window V) : Window V → Type 0 where
  task : {v : Window V} → TaskStep w v → Step w v
  -- DeliveryReceiver::poll_next
  hands_out :
      (env : Envelope V) (rest : List (Envelope V))
      → w.channel ≡ env ∷ rest
      → w.stream_open ≡ true
      → Step w (record w { channel = rest; out = env ∷ w.out })
  -- A delivery is settled or dropped, and its permit with it.
  releases :
      (before : List (Envelope V)) (env : Envelope V) (after : List (Envelope V))
      → w.out ≡ before ++ env ∷ after
      → Step w (record w { out = before ++ after; free = w.free + 1 })
  -- DeliveryReceiver::drop
  drops_stream :
      w.stream_open ≡ true
      → Step w (record (after_section w (requeue w.shared w.queue w.channel)) {
        stream_open = false;
        channel = [];
        free = w.free + length w.channel;
      })
  -- The part of `close` that is not in the shared state.
  closes_semaphore : w.shared.closed ≡ true → Step w (record w { semaphore_closed = true })
  -- A critical section of any task.
  others :
      {c d : List (Envelope V)} (u v : World V)
      → u.backend.shared ≡ w.shared
      → World.Step u c d v
      → Step w (after_section w v.backend.shared)

pub data Run {V : Type 0} (w : Window V) : Window V → Type 0 where
  start : Run w w
  then_step : {u v : Window V} → Run w u → Step u v → Run w v
