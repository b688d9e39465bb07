-- ===== src/Memory/Outcomes.antt =====
-- What the operations of crates/core/src/memory.rs do on an open backend.
use queuey.Common.{
  ◌+◌, ◌≡◌, ◌≢◌, refl, ap, ◌∙◌, String, false, Option, none, some, List, [], ◌∷◌, ◌++◌, arith,
  str_eq, eq_iff, if◌then◌else◌,
}
use queuey.Common.Map.{get, get-put}
use queuey.Retry.{Duration}
use queuey.Envelope.{Envelope}
use queuey.Memory.{
  AckKind, retried, QueueState, Shared, new_queue, queue_or_new, wake, with_queue,
  insert_by_priority,
}
use queuey.Memory.Api.{Backend, done, add_pending, schedule, retry, record_ack, enqueue_now}

module _ {V : Type 0} where
  abbrev pending_in : Option (QueueState V) → List (Envelope V)
  pending_in none = []
  pending_in (some q) = q.pending

  -- The envelopes that wait in a queue.
  abbrev pub pending_of : String → Shared V → List (Envelope V)
  pending_of name shared = pending_in (get name shared.queues)

  abbrev settled_in : Option (QueueState V) → List (Envelope V × AckKind)
  settled_in none = []
  settled_in (some q) = q.settled

  abbrev pub settled_of : String → Shared V → List (Envelope V × AckKind)
  settled_of name shared = settled_in (get name shared.queues)

  -- The two lists of a queue after a change of one queue.
  pub with_queue_lists :
      (name k : String) (f : QueueState V → QueueState V) (shared : Shared V)
      → let q = queue_or_new k (get k shared.queues) in
        (pending_of name (with_queue k f shared)
          ≡ (if str_eq k name then (f q).pending else pending_of name shared))
        × (settled_of name (with_queue k f shared)
            ≡ (if str_eq k name then (f q).settled else settled_of name shared))
  with_queue_lists name k f shared =
      let law = get-put k name (f (queue_or_new k (get k shared.queues))) shared.queues in
      (rw law (ground arith), rw law (ground arith))

  pub new_queue_lists :
      (k : String) (shared : Shared V)
      → let q = queue_or_new k (get k shared.queues) in
        (q.pending ≡ pending_of k shared) × (q.settled ≡ settled_of k shared)
  unfolding new_queue
  new_queue_lists k shared = (ground arith, ground arith)

  pub record_ack_lists :
      (name : String) (b : Backend V) (env : Envelope V) (kind : AckKind)
      → (pending_of name (record_ack b env kind).shared ≡ pending_of name b.shared)
        × (settled_of env.queue (record_ack b env kind).shared
            ≡ settled_of env.queue b.shared ++ (env, kind) ∷ [])
  unfolding record_ack
  record_ack_lists name b env kind =
      let f = λ (q : QueueState V). record q { settled = q.settled ++ (env, kind) ∷ [] } in
      let (old_pending, old_settled) = new_queue_lists env.queue b.shared in
      (
        ground (
          arith,
          (with_queue_lists name env.queue f b.shared).0,
          old_pending,
          eq_iff env.queue name,
        ),
        ground (
          arith,
          (with_queue_lists env.queue env.queue f b.shared).1,
          old_settled,
          eq_iff env.queue env.queue,
        ),
      )

  pub enqueue_now_lists :
      (name : String) (shared : Shared V) (env : Envelope V)
      → shared.closed ≡ false
      → (pending_of name (enqueue_now shared env none) ≡ (
          if str_eq env.queue name
          then insert_by_priority env (pending_of name shared)
          else pending_of name shared))
        × (settled_of name (enqueue_now shared env none) ≡ settled_of name shared)
  unfolding enqueue_now wake
  enqueue_now_lists name shared env opened =
      let (pending_eq, settled_eq) = with_queue_lists name env.queue (add_pending env) shared in
      let (old_pending, old_settled) = new_queue_lists env.queue shared in
      let names = eq_iff env.queue name in
      (
        ground (arith, opened, pending_eq, old_pending, names),
        ground (arith, opened, settled_eq, old_settled, names),
      )

  schedule_lists :
      (name : String) (b : Backend V) (env : Envelope V) (delay : Duration)
      → b.shared.closed ≡ false
      → (settled_of name (schedule b env delay).shared ≡ settled_of name b.shared)
        × (delay ≡ 0
            → ((schedule b env delay).timers ≡ b.timers)
              × (pending_of name (schedule b env delay).shared ≡ (
                  if str_eq env.queue name
                  then insert_by_priority env (pending_of name b.shared)
                  else pending_of name b.shared)))
        × (delay ≢ 0
            → ((schedule b env delay).timers
                ≡ record { envelope = env; deadline = b.now + delay; guard = none } ∷ b.timers)
              × (pending_of name (schedule b env delay).shared ≡ pending_of name b.shared))
  unfolding schedule
  schedule_lists name b env delay opened =
      let (pending_eq, settled_eq) = enqueue_now_lists name b.shared env opened in
      (
        ground (arith, settled_eq),
        λ zero. (ground arith, ground (arith, pending_eq)),
        λ later. (ground arith, ground arith),
      )

  retry_open :
      (b : Backend V) (env next : Envelope V) (delay : Duration)
      → b.shared.closed ≡ false
      → retry b env next delay ≡ (done, record_ack (schedule b next delay) env retried)
  unfolding retry
  retry_open b env next delay opened = ground arith

  pub record_ack_timers :
      (b : Backend V) (env : Envelope V) (kind : AckKind)
      → (record_ack b env kind).timers ≡ b.timers
  unfolding record_ack
  record_ack_timers b env kind = refl

  -- What an accepted retry leaves behind. The attempt is on record as retried, once, behind what was
  -- settled before. Without a delay the next envelope is in its queue, placed by its priority, and no
  -- other pending envelope moves; with one it is in a timer that is due after the delay, and no
  -- queue has changed.
  retry_lem :
      (b : Backend V) (env next : Envelope V) (delay : Duration)
      → b.shared.closed ≡ false
      → let (outcome, after) = retry b env next delay in
        (outcome ≡ done)
        × (settled_of env.queue after.shared ≡ settled_of env.queue b.shared ++ (env, retried) ∷ [])
        × (delay ≡ 0
            → (after.timers ≡ b.timers)
              × ((name : String)
                  → pending_of name after.shared ≡ (
                      if str_eq next.queue name
                      then insert_by_priority next (pending_of name b.shared)
                      else pending_of name b.shared)))
        × (delay ≢ 0
            → (after.timers
                ≡ record { envelope = next; deadline = b.now + delay; guard = none } ∷ b.timers)
              × ((name : String) → pending_of name after.shared ≡ pending_of name b.shared))
  retry_lem b env next delay opened =
      let s = schedule b next delay in
      let acked = λ (name : String). record_ack_lists name s env retried in
      let lists = λ (name : String). schedule_lists name b next delay opened in
      let timers = record_ack_timers s env retried in
      rw (retry_open b env next delay opened) (
        refl,
        (acked env.queue).1 ∙ ap (λ l. l ++ (env, retried) ∷ []) (lists env.queue).0,
        λ zero. (
          timers ∙ ((lists env.queue).1 zero).0,
          λ name. (acked name).0 ∙ ((lists name).1 zero).1,
        ),
        λ later. (
          timers ∙ ((lists env.queue).2 later).0,
          λ name. (acked name).0 ∙ ((lists name).2 later).1,
        ),
      )
