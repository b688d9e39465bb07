-- ===== src/Memory/Count.antt =====
-- How the critical sections change the number of messages that a backend stores.
use queuey.Common.{
  ◌-◌, Option-cases, ℕ, zero, suc, ◌+◌, ◌≡◌, refl, ap, String, Bool, Option, none, some, List, [],
  ◌∷◌, arith, count, if◌then◌else◌, Bool-cases, inl, inr,
}
use queuey.Common.Map.{Map, get, put, total, weight_of, total-put}
use queuey.QueueConfig.{QueueConfig}
use queuey.Envelope.{Envelope}
use queuey.Memory.{
  wake, on_queue, QueueState, Shared, insert_at, insert_by_priority, new_queue, queue_or_new,
  with_queue, release_hold,
}
use queuey.Memory.Api.{declare_all, close_queues, add_pending, enqueue_now, release_guard}
use queuey.Memory.Consumer.{pop_front, pulled, pull}
use queuey.Memory.World.{is_none}

module _ {V : Type 0} (test : Envelope V → Bool) where
  abbrev pub one : Envelope V → ℕ
  one env = if test env then 1 else 0

  -- The messages of a queue that pass the test: pending, settled and dead.
  abbrev pub messages : QueueState V → ℕ
  messages q = count test q.pending + count (λ s. test s.0) q.settled + count (λ s. test s.0) q.dead

  unfoldable pub stored : Shared V → ℕ
  stored shared = total messages shared.queues

  count-insert_at :
      (i : ℕ) (env : Envelope V) (es : List (Envelope V))
      → count test (insert_at i env es) ≡ one env + count test es
  unfolding insert_at
  count-insert_at zero env es = refl
  count-insert_at (suc i) env [] = refl
  count-insert_at (suc i) env (e ∷ es) = omega (arith, count-insert_at i env es)

  count-insert_by_priority :
      (env : Envelope V) (es : List (Envelope V))
      → count test (insert_by_priority env es) ≡ one env + count test es
  unfolding insert_by_priority
  count-insert_by_priority env es = count-insert_at _ env es

  messages-queue_or_new :
      (name : String) (found : Option (QueueState V))
      → messages (queue_or_new name found) ≡ weight_of messages found
  unfolding new_queue
  messages-queue_or_new name none = refl
  messages-queue_or_new name (some q) = refl

  -- What a change of one queue adds to the count of that queue it adds to the count of all.
  pub stored-with_queue :
      (name : String) (f : QueueState V → QueueState V) (k : ℕ) (shared : Shared V)
      → ((q : QueueState V) → messages (f q) ≡ k + messages q)
      → stored (with_queue name f shared) ≡ k + stored shared
  unfolding stored
  stored-with_queue name f k shared h =
      let found = get name shared.queues in
      omega (
        arith,
        total-put messages name (f (queue_or_new name found)) shared.queues,
        h (queue_or_new name found),
        messages-queue_or_new name found,
      )

  -- The same for a queue that is changed only if it is there.
  pub stored-on_queue :
      (name : String) (f : QueueState V → QueueState V) (k : ℕ) (shared : Shared V)
      → ((q : QueueState V) → messages (f q) ≡ k + messages q)
      → stored (on_queue name f shared) + (if is_none (get name shared.queues) then k else 0)
        ≡ k + stored shared
  unfolding stored on_queue
  stored-on_queue name f k shared h = elim (Option-cases (get name shared.queues)) [
    | inl missing ↦ rw (missing, on_queue) (omega arith)
    | inr (q, found) ↦
        let put_q = total-put messages name (f q) shared.queues in
        rw (found, on_queue) (ground (arith, put_q, h q))
  ]

  stored-release_hold :
      (name : String) (shared : Shared V) → stored (release_hold name shared) ≡ stored shared
  unfolding release_hold
  stored-release_hold name shared = ground (
    arith,
    stored-on_queue name (λ q. record q { held = q.held - 1 }) 0 shared (λ q. omega arith),
  )

  pub stored-release_guard :
      (guard : Option String) (shared : Shared V)
      → (stored (release_guard guard shared) ≡ stored shared)
        × ((release_guard guard shared).closed ≡ shared.closed)
  unfolding release_hold on_queue
  stored-release_guard none shared = (refl, refl)
  stored-release_guard (some name) shared = (stored-release_hold name shared, refl)

  messages-add_pending :
      (env : Envelope V) (q : QueueState V) → messages (add_pending env q) ≡ one env + messages q
  unfolding wake
  messages-add_pending env q = omega (arith, count-insert_by_priority env q.pending)

  pub stored-enqueue_now :
      (shared : Shared V) (env : Envelope V) (guard : Option String)
      → stored (enqueue_now shared env guard) + (if shared.closed then one env else 0)
        ≡ one env + stored shared
  unfolding enqueue_now
  stored-enqueue_now shared env guard =
      let released = release_guard guard shared in
      let (same, closed) = stored-release_guard guard shared in
      let added =
        stored-with_queue env.queue (add_pending env) (one env) released
          (messages-add_pending env) in
      ground (arith, same, closed, added)

  pub stored-declare_all :
      (queues : Map (QueueState V)) (configs : List QueueConfig)
      → total messages (declare_all queues configs) ≡ total messages queues
  unfolding declare_all new_queue
  stored-declare_all queues [] = refl
  stored-declare_all queues (config ∷ configs) = elim (Option-cases (get config.name queues)) [
    | inl missing ↦
        rw (missing, declare_all)
          (omega (
            arith,
            stored-declare_all (put config.name (new_queue config) queues) configs,
            total-put messages config.name (new_queue config) queues,
            ap (weight_of messages) missing,
          ))
    | inr (q, found) ↦ rw (found, declare_all) (stored-declare_all queues configs)
  ]

  pub stored-close_queues :
      (queues : Map (QueueState V)) → total messages (close_queues queues) ≡ total messages queues
  unfolding close_queues wake total
  stored-close_queues [] = refl
  stored-close_queues ((name, q) ∷ queues) = omega (arith, stored-close_queues queues)

  stored-pop_front :
      (queue : String) (shared : Shared V) (q : QueueState V) (es : List (Envelope V))
      (env : Envelope V)
      → q.pending ≡ es
      → get queue shared.queues ≡ some q
      → (pop_front queue shared q es).0 ≡ pulled env
      → stored (pop_front queue shared q es).1 + one env ≡ stored shared
  unfolding pop_front stored
  stored-pop_front queue shared q [] env e found h = cc
  stored-pop_front queue shared q (x ∷ es) env e found h =
      let same : x ≡ env = cc in
      omega (
        arith,
        total-put messages queue (record q { pending = es }) shared.queues,
        ap (weight_of messages) found,
        ap (count test) e,
        ap one same,
      )

  pub stored-pull :
      (shared : Shared V) (queue : String) (env : Envelope V)
      → (pull shared queue).0 ≡ pulled env
      → stored (pull shared queue).1 + one env ≡ stored shared
  unfolding pull
  stored-pull shared queue env h = elim (Bool-cases shared.closed) [
    | inl shut ↦ ground arith
    | inr opened ↦ elim (Option-cases (get queue shared.queues)) [
      | inl missing ↦ ground arith
      | inr (q, found) ↦ ground (arith, stored-pop_front queue shared q q.pending env refl found)
    ]
  ]
