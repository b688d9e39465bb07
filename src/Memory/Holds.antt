-- ===== src/Memory/Holds.antt =====
-- The hold counter of a queue under the critical sections of crates/core/src/memory.rs.
use queuey.Memory.Consumer.{pull, pop_front}
use queuey.Common.{
  refl, [], ◌-◌, ◌∙◌, ◌∷◌, ℕ, ◌≡◌, String, Bool, false, Option, none, some, List, arith, count,
  if◌then◌else◌, Option-cases, inl, inr, str_eq, eq_iff,
}
use queuey.Common.Map.{put, Map, get, get-put}
use queuey.QueueConfig.{new_config}
use queuey.Memory.{
  Envelope, QueueConfig, wake, release_hold, QueueState, Shared, new_queue, queue_or_new,
  with_queue, on_queue,
}
use queuey.Memory.Api.{add_pending, release_guard, close_queues, enqueue_now, declare_all, Timer}

abbrev pub guards_queue : String → Option String → Bool
guards_queue name none = false
guards_queue name (some queue) = str_eq queue name

module _ {V : Type 0} where
  -- The live guards of a queue.
  abbrev pub guards : String → List (Timer V) → ℕ
  guards name = count (λ t. guards_queue name t.guard)

  abbrev pub held_in : Option (QueueState V) → ℕ
  held_in none = 0
  held_in (some q) = q.held

  abbrev pub held_of : String → Shared V → ℕ
  held_of name shared = held_in (get name shared.queues)

  pub held_of-with_queue :
      (name k : String) (f : QueueState V → QueueState V) (g : ℕ → ℕ) (shared : Shared V)
      → ((q : QueueState V) → (f q).held ≡ g q.held)
      → held_of name (with_queue k f shared)
        ≡ (if str_eq k name then g (held_of k shared) else held_of name shared)
  unfolding new_queue
  held_of-with_queue name k f g shared h = elim (Option-cases (get k shared.queues)) [
    | inl missing ↦
        rw (get-put k name (f (queue_or_new k (get k shared.queues))) shared.queues, missing)
          (ground (arith, h (new_queue (new_config k))))
    | inr (q, found) ↦
        rw (get-put k name (f (queue_or_new k (get k shared.queues))) shared.queues, found)
          (ground (arith, h q))
  ]

  pub held_of-on_queue :
      (name k : String) (f : QueueState V → QueueState V) (g : ℕ → ℕ) (shared : Shared V)
      → ((q : QueueState V) → (f q).held ≡ g q.held)
      → g 0 ≡ 0
      → held_of name (on_queue k f shared)
        ≡ (if str_eq k name then g (held_of name shared) else held_of name shared)
  unfolding on_queue
  held_of-on_queue name k f g shared h z = elim (Option-cases (get k shared.queues)) [
    | inl missing ↦ rw (missing, on_queue) (ground (arith, eq_iff k name))
    | inr (q, found) ↦
        rw (found, on_queue)
          (rw (get-put k name (f q) shared.queues) (ground (arith, h q, eq_iff k name)))
  ]

  pub held_of-release_guard :
      (name : String) (guard : Option String) (shared : Shared V)
      → held_of name (release_guard guard shared)
        ≡ (if guards_queue name guard then held_of name shared - 1 else held_of name shared)
  unfolding release_hold
  held_of-release_guard name none shared = refl
  held_of-release_guard name (some k) shared =
      held_of-on_queue name k (λ q. record q { held = q.held - 1 }) (λ h. h - 1) shared (λ q. refl)
        (omega arith)

  pub held_of-enqueue_now :
      (name : String) (shared : Shared V) (env : Envelope V) (guard : Option String)
      → held_of name (enqueue_now shared env guard)
        ≡ (if guards_queue name guard then held_of name shared - 1 else held_of name shared)
  unfolding enqueue_now wake
  held_of-enqueue_now name shared env guard = ground (
    arith,
    held_of-release_guard name guard shared,
    held_of-with_queue name env.queue (add_pending env) (λ h. h) (release_guard guard shared)
        (λ q. refl),
    eq_iff env.queue name,
  )

  held_of-pop_front :
      (name queue : String) (shared : Shared V) (q : QueueState V) (es : List (Envelope V))
      → get queue shared.queues ≡ some q
      → held_of name (pop_front queue shared q es).1 ≡ held_of name shared
  unfolding pop_front
  held_of-pop_front name queue shared q [] found = refl
  held_of-pop_front name queue shared q (env ∷ rest) found =
      rw (get-put queue name (record q { pending = rest }) shared.queues)
        (ground (arith, eq_iff queue name))

  pub held_of-pull :
      (name : String) (shared : Shared V) (queue : String)
      → held_of name (pull shared queue).1 ≡ held_of name shared
  unfolding pull
  held_of-pull name shared queue = elim (Option-cases (get queue shared.queues)) [
    | inl missing ↦ ground arith
    | inr (q, found) ↦ ground (arith, held_of-pop_front name queue shared q q.pending found)
  ]

  pub held_in-close_queues :
      (name : String) (queues : Map (QueueState V))
      → held_in (get name (close_queues queues)) ≡ held_in (get name queues)
  unfolding close_queues get wake
  held_in-close_queues name [] = refl
  held_in-close_queues name ((k, q) ∷ queues) = ground (arith, held_in-close_queues name queues)

  pub held_in-declare_all :
      (name : String) (queues : Map (QueueState V)) (configs : List QueueConfig)
      → held_in (get name (declare_all queues configs)) ≡ held_in (get name queues)
  unfolding declare_all new_queue
  held_in-declare_all name queues [] = refl
  held_in-declare_all name queues (config ∷ configs) =
      elim (Option-cases (get config.name queues)) [
        | inl missing ↦
            rw (missing, declare_all)
              (held_in-declare_all name (put config.name (new_queue config) queues) configs
                ∙ rw (get-put config.name name (new_queue config) queues)
                    (ground (arith, eq_iff config.name name)))
        | inr (q, found) ↦ rw (found, declare_all) (held_in-declare_all name queues configs)
      ]
