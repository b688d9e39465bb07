-- ===== src/Memory/HoldCounts.antt =====
-- `MemoryBackend::deferred` stays honest: over every interleaving, the counter of a queue is the
-- number of live hold guards (`HoldGuard` of crates/core/src/memory.rs).
use queuey.Common.{
  sym, ℕ, ◌+◌, ◌≡◌, refl, ap, String, none, List, [], ◌∷◌, ◌++◌, ◌==◌, arith, count-append, keep,
  not, if◌then◌else◌, eq_iff, ◌∙◌,
}
use queuey.Envelope.{Envelope}
use queuey.Memory.{wake}
use queuey.Memory.Api.{
  Backend, Timer, declare, schedule, hold, fire, abort, record_ack, dead_letter, close,
  deferred_count,
}
use queuey.Memory.Consumer.{register, unregister, put_back, requeue}
use queuey.Memory.World.{
  World, Step, Run, ticks, declares, schedules, holds, fires, aborts, registers, unregisters, pulls,
  puts_back, requeues, acks, dead_letters, abandons, closes, start, then_step,
}
use queuey.Memory.Holds.{
  guards_queue, guards, held_of, held_of-with_queue, held_of-on_queue, held_of-release_guard,
  held_of-enqueue_now, held_of-pull, held_in-close_queues, held_in-declare_all,
}

module _ {V : Type 0} (name : String) where
  abbrev Counts : World V → Type 0
  Counts w = held_of name w.backend.shared ≡ guards name w.backend.timers

  guards-split :
      (before : List (Timer V)) (timer : Timer V) (after timers : List (Timer V))
      → timers ≡ before ++ timer ∷ after
      → guards name timers
        ≡ guards name (before ++ after) + (if guards_queue name timer.guard then 1 else 0)
  guards-split before timer after timers e =
      let test = λ (t : Timer V). guards_queue name t.guard in
      omega (
        arith,
        ap (guards name) e,
        count-append test before (timer ∷ after),
        count-append test before after,
      )

  schedule-Counts :
      (b : Backend V) (env : Envelope V) (delay : ℕ)
      → held_of name b.shared ≡ guards name b.timers
      → held_of name (schedule b env delay).shared ≡ guards name (schedule b env delay).timers
  unfolding schedule
  schedule-Counts b env delay h = ground (arith, held_of-enqueue_now name b.shared env none)

  hold-Counts :
      (b : Backend V) (env : Envelope V) (delay : ℕ)
      → held_of name b.shared ≡ guards name b.timers
      → held_of name (hold b env delay).shared ≡ guards name (hold b env delay).timers
  unfolding hold
  hold-Counts b env delay h = ground (
    arith,
    held_of-enqueue_now name b.shared env none,
    held_of-with_queue name env.queue (λ q. record q { held = q.held + 1 }) (λ n. n + 1) b.shared
        (λ q. refl),
    eq_iff env.queue name,
  )

  Step-Counts : {w w' : World V} {c d : List (Envelope V)} → Step w c d w' → Counts w → Counts w'
  unfolding declare close fire abort register unregister put_back wake record_ack
  Step-Counts (ticks time le) h = h
  Step-Counts {w} (declares configs) h =
      ground (arith, held_in-declare_all name w.backend.shared.queues configs)
  Step-Counts {w} (schedules env delay) h = schedule-Counts w.backend env delay h
  Step-Counts {w} (holds env delay) h = hold-Counts w.backend env delay h
  Step-Counts {w} (fires before timer after e due) h = ground (
    arith,
    held_of-enqueue_now name w.backend.shared timer.envelope timer.guard,
    guards-split before timer after w.backend.timers e,
  )
  Step-Counts {w} (aborts before timer after e) h = ground (
    arith,
    held_of-release_guard name timer.guard w.backend.shared,
    guards-split before timer after w.backend.timers e,
  )
  Step-Counts {w} (registers queue semaphore) h = ground (
    arith,
    held_of-with_queue name queue (λ q. record q { consumers = q.consumers ++ semaphore ∷ [] })
        (λ n. n) w.backend.shared (λ q. refl),
    eq_iff queue name,
  )
  Step-Counts {w} (unregisters queue semaphore) h = ground (
    arith,
    held_of-on_queue name queue
        (λ q. record q { consumers = keep (λ s. not (s == semaphore)) q.consumers }) (λ n. n)
        w.backend.shared (λ q. refl) refl,
  )
  Step-Counts {w} (pulls queue env e) h = held_of-pull name w.backend.shared queue ∙ h
  Step-Counts {w} (puts_back queue before env after e) h = ground (
    arith,
    held_of-on_queue name queue (λ q. wake (record q { pending = env ∷ q.pending })) (λ n. n)
        w.backend.shared (λ q. refl) refl,
  )
  Step-Counts {w} (requeues queue before [] after e) h = unfold requeue in h
  Step-Counts {w} (requeues queue before (x ∷ unread) after e) h =
      unfold requeue in
      ground (
        arith,
        held_of-with_queue name queue (λ q. wake (record q { pending = (x ∷ unread) ++ q.pending }))
            (λ n. n) w.backend.shared (λ q. refl),
        eq_iff queue name,
      )
  Step-Counts {w} (acks kind before env after e) h = ground (
    arith,
    held_of-with_queue name env.queue (λ q. record q { settled = q.settled ++ (env, kind) ∷ [] })
        (λ n. n) w.backend.shared (λ q. refl),
    eq_iff env.queue name,
  )
  Step-Counts {w} (dead_letters reason before env after e) h =
      unfold dead_letter in
      ground (
        arith,
        held_of-with_queue name env.queue (λ q. record q { dead = q.dead ++ (env, reason) ∷ [] })
            (λ n. n) w.backend.shared (λ q. refl),
        eq_iff env.queue name,
      )
  Step-Counts {w} (abandons before env after e) h = h
  Step-Counts {w} closes h = held_in-close_queues name w.backend.shared.queues ∙ h

  Run-Counts : {w w' : World V} {c d : List (Envelope V)} → Run w c d w' → Counts w → Counts w'
  Run-Counts start h = h
  Run-Counts (then_step before step) h = Step-Counts step (Run-Counts before h)

  deferred_count-held_of : (b : Backend V) → deferred_count b name ≡ held_of name b.shared
  unfolding deferred_count
  deferred_count-held_of b = ground arith

  -- If the counter of a queue is the number of timers that hold a message for it, it is so after
  -- every history: a deferral adds one, and it is taken off once when the hold ends, whether the
  -- message is enqueued, dropped because the backend is closed, or lost with its task.
  pub deferred_count-guards :
      {w w' : World V} {c d : List (Envelope V)}
      → Run w c d w'
      → deferred_count w.backend name ≡ guards name w.backend.timers
      → deferred_count w'.backend name ≡ guards name w'.backend.timers
  deferred_count-guards {w} {w'} run h =
      deferred_count-held_of w'.backend
      ∙ Run-Counts run (sym (deferred_count-held_of w.backend) ∙ h)
