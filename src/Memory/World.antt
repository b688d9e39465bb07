-- ===== src/Memory/World.antt =====
-- Every interleaving of the tasks around the in-memory backend (crates/core/src/memory.rs), as steps
-- of one critical section each. `hands` are the messages that left `pending` and are neither settled
-- nor back: in a consumer's channel, or with a handler. A check of `closed` that an operation makes
-- in an earlier section than its effect promises nothing for the effect, so the steps do not
-- assume it. A step names the messages that it creates and those that it drops.
use queuey.Common.{
  ℕ, ◌≤◌, ◌≡◌, String, Bool, true, false, ◌&&◌, Option, none, some, List, [], ◌∷◌, ◌++◌, ◌==◌,
  if◌then◌else◌,
}
use queuey.Common.Map.{get}
use queuey.Retry.{Duration}
use queuey.QueueConfig.{QueueConfig}
use queuey.Envelope.{Envelope}
use queuey.Memory.{AckKind, Shared}
use queuey.Memory.Api.{
  Backend, Timer, declare, schedule, hold, fire, abort, record_ack, dead_letter, close,
}
use queuey.Memory.Consumer.{pulled, register, unregister, pull, put_back, requeue}

pub record World (V : Type 0) : Type 0 where
  pub backend : Backend V
  pub hands : List (Envelope V)

abbrev pub is_none {ℓ} : {A : Type ℓ} → Option A → Bool
is_none none = true
is_none (some a) = false

module _ {V : Type 0} where
  abbrev pub is_closed : World V → Bool
  is_closed w = w.backend.shared.closed

  abbrev pub with_shared : World V → Shared V → World V
  with_shared w shared = record w { backend = record w.backend { shared = shared } }

  -- A world with one message fewer in hand.
  abbrev pub settle : World V → List (Envelope V) → Backend V → World V
  settle w hands b = record w { backend = b; hands = hands }

  abbrev pub dropped_if : Bool → List (Envelope V) → List (Envelope V)
  dropped_if test envs = if test then envs else []

pub data Step {V : Type 0} (w : World V)
    : List (Envelope V) → List (Envelope V) → World V → Type 0 where
  ticks :
      (time : ℕ)
      → w.backend.now ≤ time
      → Step w [] [] (record w { backend = record w.backend { now = time } })
  declares :
      (configs : List QueueConfig)
      → Step w [] [] (record w { backend = (declare w.backend configs).1 })
  schedules :
      (env : Envelope V) (delay : Duration)
      → Step w
          (env ∷ [])
          (dropped_if (is_closed w && delay == 0) (env ∷ []))
          (record w { backend = schedule w.backend env delay })
  holds :
      (env : Envelope V) (delay : Duration)
      → Step w
          (env ∷ [])
          (dropped_if (is_closed w && delay == 0) (env ∷ []))
          (record w { backend = hold w.backend env delay })
  fires :
      (before : List (Timer V)) (timer : Timer V) (after : List (Timer V))
      → w.backend.timers ≡ before ++ timer ∷ after
      → timer.deadline ≤ w.backend.now
      → Step w []
          (dropped_if (is_closed w) (timer.envelope ∷ []))
          (record w { backend = fire w.backend before timer after })
  aborts :
      (before : List (Timer V)) (timer : Timer V) (after : List (Timer V))
      → w.backend.timers ≡ before ++ timer ∷ after
      → Step w [] (timer.envelope ∷ []) (record w { backend = abort w.backend before timer after })
  registers :
      (queue : String) (semaphore : ℕ)
      → Step w [] [] (with_shared w (register w.backend.shared queue semaphore))
  unregisters :
      (queue : String) (semaphore : ℕ)
      → Step w [] [] (with_shared w (unregister w.backend.shared queue semaphore))
  pulls :
      (queue : String) (env : Envelope V)
      → (pull w.backend.shared queue).0 ≡ pulled env
      → Step w [] []
          (record (with_shared w (pull w.backend.shared queue).1) { hands = env ∷ w.hands })
  puts_back :
      (queue : String) (before : List (Envelope V)) (env : Envelope V) (after : List (Envelope V))
      → w.hands ≡ before ++ env ∷ after
      → Step w []
          (dropped_if (is_none (get queue w.backend.shared.queues)) (env ∷ []))
          (record (with_shared w (put_back w.backend.shared queue env)) { hands = before ++ after })
  requeues :
      (queue : String) (before unread after : List (Envelope V))
      → w.hands ≡ before ++ (unread ++ after)
      → Step w []
          (dropped_if (is_closed w) unread)
          (record (with_shared w (requeue w.backend.shared queue unread)) {
            hands = before ++ after;
          })
  acks :
      (kind : AckKind) (before : List (Envelope V)) (env : Envelope V) (after : List (Envelope V))
      → w.hands ≡ before ++ env ∷ after
      → Step w [] [] (settle w (before ++ after) (record_ack w.backend env kind))
  dead_letters :
      (reason : String) (before : List (Envelope V)) (env : Envelope V) (after : List (Envelope V))
      → w.hands ≡ before ++ env ∷ after
      → Step w []
          (dropped_if (is_closed w) (env ∷ []))
          (settle w (before ++ after) (dead_letter w.backend env reason).1)
  abandons :
      (before : List (Envelope V)) (env : Envelope V) (after : List (Envelope V))
      → w.hands ≡ before ++ env ∷ after
      → Step w [] (env ∷ []) (record w { hands = before ++ after })
  closes : Step w [] [] (record w { backend = (close w.backend).1 })

-- A history, with all that it created and dropped.
pub data Run {V : Type 0} (w : World V)
    : List (Envelope V) → List (Envelope V) → World V → Type 0 where
  start : Run w [] [] w
  then_step :
      {c d c' d' : List (Envelope V)} {u v : World V}
      → Run w c d u
      → Step u c' d' v
      → Run w (c ++ c') (d ++ d') v
