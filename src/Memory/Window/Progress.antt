-- ===== src/Memory/Window/Progress.antt =====
-- What a consumer of crates/core/src/memory.rs promises over every interleaving.
use queuey.Common.{
  ℕ, ◌+◌, ◌<◌, ◌≤◌, ◌≡◌, ◌≢◌, inl, inr, refl, ap, String, Bool, true, false, some, List, [], ◌∷◌,
  ◌++◌, arith, length, eq_iff,
}
use mathlib.Core.Path.{subst}
use queuey.Common.Map.{get, get-put}
use queuey.QueueConfig.{QueueConfig}
use queuey.Envelope.{Envelope}
use queuey.Memory.{QueueState, Shared, queue_or_new}
use queuey.Memory.Consumer.{permits_for, register}
use queuey.Memory.Window.{
  Phase, acquiring, looking, waiting, finished, sending, Window, new_window, TaskStep, acquires,
  leaves, looks, notices, sends, Run, start, then_step, sent,
}
use queuey.Memory.Window.Bounds.{permits_of, Waits, IsValid, Step-IsValid}

module _ {V : Type 0} where
  register-there :
      (shared : Shared V) (queue : String) (semaphore : ℕ)
      → shared.closed ≡ false
      → (q : QueueState V) × (get queue (register shared queue semaphore).queues ≡ some q)
  unfolding register
  register-there shared queue semaphore open' =
      let old = queue_or_new queue (get queue shared.queues) in
      let new : QueueState V = record old { consumers = old.consumers ++ semaphore ∷ [] } in
      (new, ground (arith, get-put queue queue new shared.queues, eq_iff queue queue))

  new_window-IsValid :
      (shared : Shared V) (config : QueueConfig) (semaphore : ℕ)
      → shared.closed ≡ false
      → IsValid (permits_for config) (new_window shared config semaphore)
  unfolding new_window
  new_window-IsValid shared config semaphore open' =
      let (q, found) = register-there shared config.name semaphore open' in
      record { counted = omega arith; sees = (q, found, tt) }

  Run-IsValid : (size : ℕ) {w x : Window V} → Run w x → IsValid size w → IsValid size x
  Run-IsValid size start v = v
  Run-IsValid size (then_step before step) v = Step-IsValid size step (Run-IsValid size before v)

  -- Over every history of a consumer and of the tasks around it, its free permits, the one that its
  -- task holds, the deliveries in its channel and those that are out are together its prefetch (or
  -- the most that a semaphore has, for a prefetch of 0); so no more deliveries are outstanding.
  pub Run-window :
      (shared : Shared V) (config : QueueConfig) (semaphore : ℕ) {w : Window V}
      → shared.closed ≡ false
      → Run (new_window shared config semaphore) w
      → (w.free + permits_of w.phase + length w.channel + length w.out ≡ permits_for config)
        × (length w.channel + length w.out ≤ permits_for config)
  Run-window shared config semaphore open' run =
      let v = Run-IsValid _ run (new_window-IsValid shared config semaphore open') in
      (v.counted, omega (arith, v.counted))

  progress :
      (size : ℕ) (w : Window V) (env : Envelope V) (rest : List (Envelope V)) (q : QueueState V)
      (phase : Phase V) (shut : Bool)
      → w.phase ≡ phase
      → phase ≢ finished
      → w.semaphore_closed ≡ shut
      → w.stream_open ≡ true
      → get w.queue w.shared.queues ≡ some q
      → q.pending ≡ env ∷ rest
      → length w.channel + length w.out < size
      → IsValid size w
      → (x : Window V) × TaskStep w x
  progress size w env rest q acquiring true at going off open' found full room v =
      (_, leaves at (ground arith))
  progress size w env rest q acquiring false at going off open' found full room v =
      (_, acquires at open' off (omega (arith, v.counted, room, ap (permits_of {V = V}) at)))
  progress size w env rest q looking shut at going off open' found full room v = (_, looks at)
  progress size w env rest q finished shut at going off open' found full room v =
      absurd (going refl)
  progress size w env rest q (sending sent) shut at going off open' found full room v =
      (_, sends sent at)
  progress size w env rest q waiting shut at going off open' found full room v =
      let (q', found', waits) = v.sees in
      let here : Waits waiting w.changed q' w.shared.closed =
        subst (λ (p : Phase V). Waits p w.changed q' w.shared.closed) at waits in
      elim here [ inl changed ↦ (_, notices at open' changed) | inr (none_left, _) ↦ absurd (cc) ]

  -- No wake-up is lost: over every history of a consumer and of the tasks around it, a task that has
  -- not ended can go on whenever its queue has a message, its stream is there and its window has room.
  pub Run-progress :
      (shared : Shared V) (config : QueueConfig) (semaphore : ℕ) {w : Window V} (env : Envelope V)
      (rest : List (Envelope V)) (q : QueueState V)
      → shared.closed ≡ false
      → Run (new_window shared config semaphore) w
      → w.phase ≢ finished
      → w.stream_open ≡ true
      → get w.queue w.shared.queues ≡ some q
      → q.pending ≡ env ∷ rest
      → length w.channel + length w.out < permits_for config
      → (x : Window V) × TaskStep w x
  Run-progress shared config semaphore {w = w} env rest q open' run going there found full room =
      progress (permits_for config) w env rest q w.phase w.semaphore_closed refl going refl there
        found full room (Run-IsValid _ run (new_window-IsValid shared config semaphore open'))
