-- ===== src/Memory/Requeue.antt =====
-- Messages that come back from a consumer that went away (crates/core/src/memory.rs,
-- `DeliveryReceiver::drop`): the round trip, and what it does to the order by priority.
use queuey.Memory.Api.{enqueue_now}
use queuey.Common.{
  ◌⊎◌, ℕ, zero, suc, ◌<◌, ◌≤◌, ◌≡◌, refl, sym, ap, ◌∙◌, String, false, none, some, List, [], ◌∷◌,
  ◌++◌, arith, str_eq, eq_iff, if◌then◌else◌, Option-cases, Bool-cases, inl, inr,
}
use queuey.Common.Map.{get, get-put}
use queuey.Envelope.{Envelope}
use queuey.Memory.{QueueState, Shared, wake, insert_by_priority}
use queuey.Memory.Consumer.{Pulled, pulled, nothing, stopped, pull, pop_front, requeue}
use queuey.Memory.Outcomes.{enqueue_now_lists, pending_of, with_queue_lists, new_queue_lists}
use queuey.Memory.Fifo.{insert_cases}

module _ {V : Type 0} where
  abbrev also : Envelope V → List (Envelope V) × Shared V → List (Envelope V) × Shared V
  also env (envs, shared) = (env ∷ envs, shared)

  -- A consumer pulls up to `n` messages.
  pub pull_many : ℕ → Shared V → String → List (Envelope V) × Shared V
  pull_many zero shared queue = ([], shared)
  pull_many (suc n) shared queue =
      let rest = pull_many n (pull shared queue).1 queue in
      elim (pull shared queue).0 [
        | stopped ↦ ([], shared)
        | nothing ↦ ([], shared)
        | pulled env ↦ also env rest
      ]

  -- What a pull that finds `env` does to the queues.
  abbrev Takes : Shared V → String → Envelope V → Shared V → Type 0
  Takes shared queue env after =
      (pending_of queue shared ≡ env ∷ pending_of queue after)
      × ((name : String)
          → str_eq queue name ≡ false
          → pending_of name after ≡ pending_of name shared)
      × (after.closed ≡ shared.closed)

  pop_front-Takes :
      (queue : String) (shared : Shared V) (q : QueueState V) (es : List (Envelope V))
      (env : Envelope V)
      → q.pending ≡ es
      → get queue shared.queues ≡ some q
      → (pop_front queue shared q es).0 ≡ pulled env
      → Takes shared queue env (pop_front queue shared q es).1
  unfolding pop_front
  pop_front-Takes queue shared q [] env e found h = absurd (cc)
  pop_front-Takes queue shared q (x ∷ es) env e found h =
      let law = λ (name : String). get-put queue name (record q { pending = es }) shared.queues in
      let same : x ≡ env = cc in
      (
        rw found (rw (law queue) (ground (arith, e, same, eq_iff queue queue))),
        λ name other. rw (law name) (ground (arith, other)),
        refl,
      )

  pull-Takes :
      (shared : Shared V) (queue : String) (env : Envelope V)
      → (pull shared queue).0 ≡ pulled env
      → Takes shared queue env (pull shared queue).1
  unfolding pull
  pull-Takes shared queue env h = elim (Bool-cases shared.closed) [
    | inl shut ↦ absurd (ground (arith, shut))
    | inr opened ↦ elim (Option-cases (get queue shared.queues)) [
      | inl missing ↦ absurd (ground (arith, missing, opened))
      | inr (q, found) ↦
          let popped : pull shared queue ≡ pop_front queue shared q q.pending =
            ground (arith, found, opened) in
          rw popped (
            pop_front-Takes queue shared q q.pending env refl found
              (sym (ap (λ r. r.0) popped) ∙ h))
    ]
  ]

  -- A pull that finds nothing ends the pulls.
  pull_many-found :
      (n : ℕ) (shared : Shared V) (queue : String) (p : Pulled V)
      → (pull shared queue).0 ≡ p
      → (pull_many (suc n) shared queue ≡ ([], shared))
        ⊎ ((env : Envelope V) × ((pull shared queue).0 ≡ pulled env))
  unfolding pull_many
  pull_many-found n shared queue stopped h = inl (rw (h, pull_many) refl)
  pull_many-found n shared queue nothing h = inl (rw (h, pull_many) refl)
  pull_many-found n shared queue (pulled env) h = inr (env, h)

  pull_many-more :
      (n : ℕ) (shared : Shared V) (queue : String) (env : Envelope V)
      → (pull shared queue).0 ≡ pulled env
      → pull_many (suc n) shared queue ≡ also env (pull_many n (pull shared queue).1 queue)
  unfolding pull_many
  pull_many-more n shared queue env h = rw (h, pull_many) refl

  -- What several pulls do to the queues.
  pull_many-lists :
      (n : ℕ) (shared : Shared V) (queue : String)
      → let (envs, after) = pull_many n shared queue in
        (pending_of queue shared ≡ envs ++ pending_of queue after)
        × ((name : String)
            → str_eq queue name ≡ false
            → pending_of name after ≡ pending_of name shared)
        × (after.closed ≡ shared.closed)
  unfolding pull_many
  pull_many-lists zero shared queue = (refl, λ name other. refl, refl)
  pull_many-lists (suc n) shared queue =
      elim (pull_many-found n shared queue (pull shared queue).0 refl) [
        | inl no_message ↦ rw no_message (refl, λ name other. refl, refl)
        | inr (env, found) ↦
            let (first, others, same) = pull-Takes shared queue env found in
            let (firsts, rest, closed) = pull_many-lists n (pull shared queue).1 queue in
            rw (pull_many-more n shared queue env found) (
              first ∙ ap (◌∷◌ env) firsts,
              λ name other. rest name other ∙ others name other,
              closed ∙ same,
            )
      ]

  requeue_lists :
      (shared : Shared V) (queue : String) (unread : List (Envelope V)) (name : String)
      → shared.closed ≡ false
      → (pending_of name (requeue shared queue unread) ≡ (
          if str_eq queue name then unread ++ pending_of name shared else pending_of name shared))
        × ((requeue shared queue unread).closed ≡ false)
  unfolding requeue wake
  requeue_lists shared queue [] name opened = (ground arith, opened)
  requeue_lists shared queue (env ∷ unread) name opened = (
    ground (
      arith,
      opened,
      (with_queue_lists name queue (λ q. wake (record q { pending = (env ∷ unread) ++ q.pending }))
          shared).0,
      (new_queue_lists queue shared).0,
      eq_iff queue name,
    ),
    ground (arith, opened),
  )

  -- However many messages a consumer of an open backend pulled, if it goes away before it handled
  -- any of them, every queue has the pending messages, and their order, that it had before.
  pub requeue-pull_many :
      (n : ℕ) (shared : Shared V) (queue name : String)
      → shared.closed ≡ false
      → let (envs, after) = pull_many n shared queue in
        pending_of name (requeue after queue envs) ≡ pending_of name shared
  requeue-pull_many n shared queue name opened =
      let (firsts, rest, closed) = pull_many-lists n shared queue in
      let back =
        requeue_lists (pull_many n shared queue).1 queue (pull_many n shared queue).0 name in
      ground (arith, (back (closed ∙ opened)).0, firsts, rest name, eq_iff queue name)

  -- A message that comes back goes to the front whatever its priority, and then a more important
  -- one that is published goes behind it, if the message that was first before is at least as
  -- important as the published one.
  pub enqueue_now-requeue :
      (shared : Shared V) (env head next : Envelope V) (rest : List (Envelope V))
      → shared.closed ≡ false
      → pending_of next.queue shared ≡ head ∷ rest
      → env.priority < next.priority
      → next.priority ≤ head.priority
      → pending_of next.queue (enqueue_now (requeue shared next.queue (env ∷ [])) next none)
        ≡ env ∷ head ∷ insert_by_priority next rest
  enqueue_now-requeue shared env head next rest opened before less most =
      let (back, still_open) = requeue_lists shared next.queue (env ∷ []) next.queue opened in
      let list : pending_of next.queue (requeue shared next.queue (env ∷ [])) ≡ env ∷ head ∷ rest =
        ground (arith, back, before, eq_iff next.queue next.queue) in
      let (put_in, settled_eq) =
        enqueue_now_lists next.queue (requeue shared next.queue (env ∷ [])) next still_open in
      ground (
        arith,
        put_in,
        list,
        eq_iff next.queue next.queue,
        insert_cases next env (head ∷ rest),
        insert_cases next head rest,
      )
