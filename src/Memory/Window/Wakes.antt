-- ===== src/Memory/Window/Wakes.antt =====
-- No critical section of crates/core/src/memory.rs brings a message to a queue, or closes the backend, without a
-- signal to the consumers of the queue.
use queuey.Common.{
  not, keep, ℕ, ◌+◌, ◌≡◌, ◌≢◌, inl, inr, refl, ap, sym, ◌∙◌, String, Bool, true, false, Option,
  none, some, List, [], ◌∷◌, ◌++◌, arith, str_eq, Bool-cases, Option-cases, ◌==◌, if◌then◌else◌,
}
use queuey.Common.Map.{Map, get, put}
use queuey.QueueConfig.{QueueConfig}
use queuey.Retry.{Duration}
use queuey.Envelope.{Envelope}
use queuey.Memory.{QueueState, Shared, new_queue, wake, with_queue, insert_by_priority}
use queuey.Memory.Api.{
  Backend, done, shut_down, declare, declare_all, schedule, hold, fire, abort, record_ack,
  dead_letter, close, close_queues, enqueue_now, release_guard, add_pending,
}
use queuey.Memory.Consumer.{
  Pulled, nothing, stopped, register, unregister, pop_front, pull, put_back, requeue,
}
use queuey.Memory.World
use queuey.Memory.World.{
  World, ticks, declares, schedules, holds, fires, aborts, registers, unregisters, pulls, puts_back,
  requeues, acks, dead_letters, abandons, closes,
}
use queuey.Memory.Window.Changes.{
  Changes, put-Changes, WakesOr, Wakes, Still, Wakes-same, Wakes-after, wake-differs,
  release_guard-Still, release_guard-closed, Still-Wakes, if-Wakes, with_queue-Wakes,
  on_queue-Wakes,
}

module _ {V : Type 0} where
  enqueue_now-Wakes :
      (queue : String) (shared : Shared V) (env : Envelope V) (guard : Option String)
      → Wakes queue shared (enqueue_now shared env guard)
  unfolding enqueue_now
  enqueue_now-Wakes queue shared env guard =
      let released = release_guard guard shared in
      Wakes-after queue shared released (enqueue_now shared env guard)
        (release_guard-Still queue guard shared) (release_guard-closed guard shared)
        (if-Wakes queue released released.closed released
          (with_queue env.queue (add_pending env) released) (Wakes-same queue released)
          (with_queue-Wakes queue env.queue (add_pending env) released
            (λ q. inl (wake-differs (record q { pending = insert_by_priority env q.pending })))))

  schedule-Wakes :
      (queue : String) (b : Backend V) (env : Envelope V) (delay : Duration)
      → Wakes queue b.shared (schedule b env delay).shared
  unfolding schedule
  schedule-Wakes queue b env delay = elim (Bool-cases (delay == 0)) [
    | inl at_once ↦ rw (at_once, schedule) (enqueue_now-Wakes queue b.shared env none)
    | inr later ↦ rw (later, schedule) (Wakes-same queue b.shared)
  ]

  hold-Wakes :
      (queue : String) (b : Backend V) (env : Envelope V) (delay : Duration)
      → Wakes queue b.shared (hold b env delay).shared
  unfolding hold
  hold-Wakes queue b env delay = elim (Bool-cases (delay == 0)) [
    | inl at_once ↦ rw (at_once, hold) (enqueue_now-Wakes queue b.shared env none)
    | inr later ↦
        rw (later, hold)
          (with_queue-Wakes queue env.queue (λ q. record q { held = q.held + 1 }) b.shared
            (λ q. inr (λ e. e, refl)))
  ]

  declare_all-Still :
      (queue : String) (queues : Map (QueueState V)) (configs : List QueueConfig)
      → Changes Still queue queues (declare_all queues configs)
  unfolding declare_all
  declare_all-Still queue queues [] q found = (q, found, (refl, refl))
  declare_all-Still queue queues (config ∷ configs) q found =
      elim (Option-cases (get config.name queues)) [
        | inl missing ↦
            let (q1, e1, (s1, p1)) =
              put-Changes Still (λ q. (refl, refl)) queue config.name (new_queue config) queues
                (λ q found. absurd (cc)) q found in
            let (q2, e2, (s2, p2)) =
              declare_all-Still queue (put config.name (new_queue config) queues) configs q1 e1 in
            rw (missing, declare_all) (q2, e2, (s2 ∙ s1, p2 ∙ p1))
        | inr (old, there) ↦
            rw (there, declare_all) (declare_all-Still queue queues configs q found)
      ]

  close_queues-woken :
      (queue : String) (queues : Map (QueueState V))
      → Changes (λ q q'. q'.signal ≢ q.signal) queue queues (close_queues queues)
  unfolding close_queues get
  close_queues-woken queue [] q found = absurd (cc)
  close_queues-woken queue ((name, old) ∷ queues) q found = elim (Bool-cases (str_eq name queue)) [
    | inl same ↦
        let is : old ≡ q = ground arith in
        (
          wake (record old { consumers = [] }),
          ground arith,
          λ e.
              wake-differs (record old { consumers = [] })
                (e ∙ sym (ap (λ (o : QueueState V). o.signal) is)),
        )
    | inr differ ↦
        let (q1, e1, woken) = close_queues-woken queue queues q (ground arith) in
        (q1, ground arith, woken)
  ]

  close-Wakes : (queue : String) (b : Backend V) → Wakes queue b.shared (close b).1.shared
  unfolding close
  close-Wakes queue b q found =
      let (q1, e1, woken) = close_queues-woken queue b.shared.queues q found in (q1, e1, inl woken)

  -- An operation that first tests whether the backend is closed, with the state that it leaves.
  branches-Wakes :
      {R S : Type 0} (queue : String) (before : Shared V) (state : S → Shared V) (closed : Bool)
      (x y : R × S)
      → Wakes queue before (state x.1)
      → Wakes queue before (state y.1)
      → Wakes queue before (state (if closed then x else y).1)
  branches-Wakes queue before state true x y this other = this
  branches-Wakes queue before state false x y this other = other

  declare-Wakes :
      (queue : String) (b : Backend V) (configs : List QueueConfig)
      → Wakes queue b.shared (declare b configs).1.shared
  unfolding declare
  declare-Wakes queue b configs =
      branches-Wakes queue b.shared (λ (c : Backend V). c.shared) b.shared.closed (shut_down, b)
        (
          done,
          record b { shared = record b.shared { queues = declare_all b.shared.queues configs } },
        )
        (Wakes-same queue b.shared)
        (Still-Wakes queue b.shared
          (record b.shared { queues = declare_all b.shared.queues configs })
          (declare_all-Still queue b.shared.queues configs) refl)

  pop_front-Wakes :
      (queue name : String) (shared : Shared V) (old : QueueState V) (pending : List (Envelope V))
      → get name shared.queues ≡ some old
      → old.pending ≡ pending
      → Wakes queue shared (pop_front name shared old pending).1
  unfolding pop_front
  pop_front-Wakes queue name shared old [] there e = Wakes-same queue shared
  pop_front-Wakes queue name shared old (env ∷ rest) there e =
      put-Changes (WakesOr (shared.closed ≡ shared.closed)) (λ q. inr (λ e. e, refl)) queue name
        (record old { pending = rest }) shared.queues
        (λ q found. inr ((λ none_left. absurd (cc)), refl))

  found-Wakes :
      (queue name : String) (shared : Shared V) (found : Option (QueueState V))
      → get name shared.queues ≡ found
      → let result : Pulled V × Shared V = elim found [
        | none ↦ (nothing, shared)
        | some q ↦ pop_front name shared q q.pending
      ] in
        Wakes queue shared result.1
  found-Wakes queue name shared none missing = Wakes-same queue shared
  found-Wakes queue name shared (some old) there =
      pop_front-Wakes queue name shared old old.pending there refl

  pub pull-Wakes :
      (queue name : String) (shared : Shared V) → Wakes queue shared (pull shared name).1
  unfolding pull
  pull-Wakes queue name shared =
      let result : Pulled V × Shared V = elim (get name shared.queues) [
        | none ↦ (nothing, shared)
        | some q ↦ pop_front name shared q q.pending
      ] in
      branches-Wakes queue shared (λ (s : Shared V). s) shared.closed (stopped, shared) result
        (Wakes-same queue shared) (found-Wakes queue name shared (get name shared.queues) refl)

  pub put_back-Wakes :
      (queue name : String) (shared : Shared V) (env : Envelope V)
      → Wakes queue shared (put_back shared name env)
  unfolding put_back
  put_back-Wakes queue name shared env =
      on_queue-Wakes queue name (λ q. wake (record q { pending = env ∷ q.pending })) shared
        (λ q. inl (wake-differs (record q { pending = env ∷ q.pending })))

  pub requeue-Wakes :
      (queue name : String) (shared : Shared V) (unread : List (Envelope V))
      → Wakes queue shared (requeue shared name unread)
  unfolding requeue
  requeue-Wakes queue name shared [] = Wakes-same queue shared
  requeue-Wakes queue name shared (env ∷ unread) =
      if-Wakes queue shared shared.closed shared
        (with_queue name (λ q. wake (record q { pending = (env ∷ unread) ++ q.pending })) shared)
        (Wakes-same queue shared)
        (with_queue-Wakes queue name
          (λ q. wake (record q { pending = (env ∷ unread) ++ q.pending })) shared
          (λ q. inl (wake-differs (record q { pending = (env ∷ unread) ++ q.pending }))))

  pub register-Wakes :
      (queue name : String) (shared : Shared V) (semaphore : ℕ)
      → Wakes queue shared (register shared name semaphore)
  unfolding register
  register-Wakes queue name shared semaphore =
      if-Wakes queue shared shared.closed shared
        (with_queue name (λ q. record q { consumers = q.consumers ++ semaphore ∷ [] }) shared)
        (Wakes-same queue shared)
        (with_queue-Wakes queue name (λ q. record q { consumers = q.consumers ++ semaphore ∷ [] })
          shared (λ q. inr (λ e. e, refl)))

  pub unregister-Wakes :
      (queue name : String) (shared : Shared V) (semaphore : ℕ)
      → Wakes queue shared (unregister shared name semaphore)
  unfolding unregister
  unregister-Wakes queue name shared semaphore =
      on_queue-Wakes queue name
        (λ q. record q { consumers = keep (λ s. not (s == semaphore)) q.consumers }) shared
        (λ q. inr (λ e. e, refl))

  dead_letter-Wakes :
      (queue : String) (b : Backend V) (env : Envelope V) (reason : String)
      → Wakes queue b.shared (dead_letter b env reason).1.shared
  unfolding dead_letter
  dead_letter-Wakes queue b env reason =
      branches-Wakes queue b.shared (λ (c : Backend V). c.shared) b.shared.closed (shut_down, b)
        (
          done,
          record b {
            shared =
                with_queue env.queue (λ q. record q { dead = q.dead ++ (env, reason) ∷ [] })
                  b.shared;
          },
        )
        (Wakes-same queue b.shared)
        (with_queue-Wakes queue env.queue (λ q. record q { dead = q.dead ++ (env, reason) ∷ [] })
          b.shared (λ q. inr (λ e. e, refl)))

  -- Every critical section of any task.
  pub Step-Wakes :
      (queue : String) {u : World V} {c d : List (Envelope V)} {v : World V}
      → World.Step u c d v
      → Wakes queue u.backend.shared v.backend.shared
  unfolding fire abort record_ack
  Step-Wakes queue {u = u} (ticks time later) = Wakes-same queue u.backend.shared
  Step-Wakes queue {u = u} (declares configs) = declare-Wakes queue u.backend configs
  Step-Wakes queue {u = u} (schedules env delay) = schedule-Wakes queue u.backend env delay
  Step-Wakes queue {u = u} (holds env delay) = hold-Wakes queue u.backend env delay
  Step-Wakes queue {u = u} (fires before timer after e due) =
      enqueue_now-Wakes queue u.backend.shared timer.envelope timer.guard
  Step-Wakes queue {u = u} (aborts before timer after e) =
      Still-Wakes queue u.backend.shared (release_guard timer.guard u.backend.shared)
        (release_guard-Still queue timer.guard u.backend.shared)
        (release_guard-closed timer.guard u.backend.shared)
  Step-Wakes queue {u = u} (registers name semaphore) =
      register-Wakes queue name u.backend.shared semaphore
  Step-Wakes queue {u = u} (unregisters name semaphore) =
      unregister-Wakes queue name u.backend.shared semaphore
  Step-Wakes queue {u = u} (pulls name env e) = pull-Wakes queue name u.backend.shared
  Step-Wakes queue {u = u} (puts_back name before env after e) =
      put_back-Wakes queue name u.backend.shared env
  Step-Wakes queue {u = u} (requeues name before unread after e) =
      requeue-Wakes queue name u.backend.shared unread
  Step-Wakes queue {u = u} (acks kind before env after e) =
      with_queue-Wakes queue env.queue (λ q. record q { settled = q.settled ++ (env, kind) ∷ [] })
        u.backend.shared (λ q. inr (λ e. e, refl))
  Step-Wakes queue {u = u} (dead_letters reason before env after e) =
      dead_letter-Wakes queue u.backend env reason
  Step-Wakes queue {u = u} (abandons before env after e) = Wakes-same queue u.backend.shared
  Step-Wakes queue {u = u} closes = close-Wakes queue u.backend
