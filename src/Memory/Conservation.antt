-- ===== src/Memory/Conservation.antt =====
-- No message is lost unnoticed: a count of all messages over the steps of World.
use queuey.Common.{
  refl, keep, not, ℕ, ◌+◌, ◌≡◌, ap, String, Bool, ◌&&◌, none, List, [], ◌∷◌, ◌++◌, ◌==◌, arith,
  count, count-append,
}
use queuey.Retry.{Duration}
use queuey.Envelope.{Envelope}
use queuey.Memory.{AckKind, Shared, wake}
use queuey.Memory.Api.{
  close, declare, Backend, Timer, schedule, hold, fire, abort, record_ack, dead_letter,
}
use queuey.Memory.Consumer.{put_back, unregister, register, requeue}
use queuey.Memory.Count.{
  stored-on_queue, stored-close_queues, stored-pull, stored-declare_all, one, stored,
  stored-with_queue, stored-release_guard, stored-enqueue_now,
}
use queuey.Memory.World.{
  closes, start, then_step, Run, then_step, Run, abandons, dead_letters, acks, requeues, puts_back,
  pulls, unregisters, registers, aborts, fires, holds, schedules, declares, ticks, Step, World,
  dropped_if,
}

module _ {V : Type 0} (test : Envelope V → Bool) where
  abbrev waiting : List (Timer V) → ℕ
  waiting = count (λ t. test t.envelope)

  -- All messages of a world that pass the test: stored in a queue, waiting for a timer, or in hand.
  abbrev pub everything : World V → ℕ
  everything w = stored test w.backend.shared + waiting w.backend.timers + count test w.hands

  -- One operation on the backend, with what it creates and drops.
  abbrev held_by : Backend V → ℕ
  held_by b = stored test b.shared + waiting b.timers

  held_by-schedule :
      (b : Backend V) (env : Envelope V) (delay : Duration)
      → held_by (schedule b env delay)
          + count test (dropped_if (b.shared.closed && delay == 0) (env ∷ []))
        ≡ held_by b + one test env
  unfolding schedule
  held_by-schedule b env delay = ground (arith, stored-enqueue_now test b.shared env none)

  held_by-hold :
      (b : Backend V) (env : Envelope V) (delay : Duration)
      → held_by (hold b env delay)
          + count test (dropped_if (b.shared.closed && delay == 0) (env ∷ []))
        ≡ held_by b + one test env
  unfolding hold
  held_by-hold b env delay = ground (
    arith,
    stored-enqueue_now test b.shared env none,
    stored-with_queue test env.queue (λ q. record q { held = q.held + 1 }) 0 b.shared
        (λ q. omega arith),
  )

  held_by-fire :
      (b : Backend V) (before : List (Timer V)) (timer : Timer V) (after : List (Timer V))
      → b.timers ≡ before ++ timer ∷ after
      → held_by (fire b before timer after)
          + count test (dropped_if b.shared.closed (timer.envelope ∷ []))
        ≡ held_by b
  unfolding fire
  held_by-fire b before timer after e = ground (
    arith,
    stored-enqueue_now test b.shared timer.envelope timer.guard,
    ap waiting e,
    count-append (λ (t : Timer V). test t.envelope) before (timer ∷ after),
    count-append (λ (t : Timer V). test t.envelope) before after,
  )

  held_by-abort :
      (b : Backend V) (before : List (Timer V)) (timer : Timer V) (after : List (Timer V))
      → b.timers ≡ before ++ timer ∷ after
      → held_by (abort b before timer after) + one test timer.envelope ≡ held_by b
  unfolding abort
  held_by-abort b before timer after e = omega (
    arith,
    (stored-release_guard test timer.guard b.shared).0,
    ap waiting e,
    count-append (λ (t : Timer V). test t.envelope) before (timer ∷ after),
    count-append (λ (t : Timer V). test t.envelope) before after,
  )

  stored-requeue :
      (shared : Shared V) (queue : String) (unread : List (Envelope V))
      → stored test (requeue shared queue unread) + count test (dropped_if shared.closed unread)
        ≡ stored test shared + count test unread
  unfolding requeue wake
  stored-requeue shared queue [] = ground arith
  stored-requeue shared queue (env ∷ unread) = ground (
    arith,
    stored-with_queue test queue (λ q. wake (record q { pending = (env ∷ unread) ++ q.pending }))
        (count test (env ∷ unread)) shared
        (λ q. omega (arith, count-append test (env ∷ unread) q.pending)),
  )

  held_by-record_ack :
      (b : Backend V) (env : Envelope V) (kind : AckKind)
      → held_by (record_ack b env kind) ≡ one test env + held_by b
  unfolding record_ack
  held_by-record_ack b env kind = omega (
    arith,
    stored-with_queue test env.queue (λ q. record q { settled = q.settled ++ (env, kind) ∷ [] })
        (one test env) b.shared
        (λ q. omega (
          arith,
          count-append (λ (s : Envelope V × AckKind). test s.0) q.settled ((env, kind) ∷ []),
        )),
  )

  held_by-dead_letter :
      (b : Backend V) (env : Envelope V) (reason : String)
      → held_by (dead_letter b env reason).1 + count test (dropped_if b.shared.closed (env ∷ []))
        ≡ one test env + held_by b
  unfolding dead_letter
  held_by-dead_letter b env reason = ground (
    arith,
    stored-with_queue test env.queue (λ q. record q { dead = q.dead ++ (env, reason) ∷ [] })
        (one test env) b.shared
        (λ q. omega (
          arith,
          count-append (λ (s : Envelope V × String). test s.0) q.dead ((env, reason) ∷ []),
        )),
  )

  count-split :
      (before : List (Envelope V)) (env : Envelope V) (after hands : List (Envelope V))
      → hands ≡ before ++ env ∷ after
      → count test hands ≡ count test (before ++ after) + one test env
  count-split before env after hands e = omega (
    arith,
    ap (count test) e,
    count-append test before (env ∷ after),
    count-append test before after,
  )

  Step-everything :
      {w w' : World V} {c d : List (Envelope V)}
      → Step w c d w'
      → everything w' + count test d ≡ everything w + count test c
  unfolding close declare register unregister put_back wake stored
  Step-everything {w} (ticks time h) = omega arith
  Step-everything {w} (declares configs) =
      ground (arith, stored-declare_all test w.backend.shared.queues configs)
  Step-everything {w} (schedules env delay) = omega (arith, held_by-schedule w.backend env delay)
  Step-everything {w} (holds env delay) = omega (arith, held_by-hold w.backend env delay)
  Step-everything {w} (fires before timer after e due) =
      omega (arith, held_by-fire w.backend before timer after e)
  Step-everything {w} (aborts before timer after e) =
      omega (arith, held_by-abort w.backend before timer after e)
  Step-everything {w} (registers queue semaphore) = ground (
    arith,
    stored-with_queue test queue (λ q. record q { consumers = q.consumers ++ semaphore ∷ [] }) 0
        w.backend.shared (λ q. omega arith),
  )
  Step-everything {w} (unregisters queue semaphore) = ground (
    arith,
    stored-on_queue test queue
        (λ q. record q { consumers = keep (λ s. not (s == semaphore)) q.consumers }) 0
        w.backend.shared (λ q. omega arith),
  )
  Step-everything {w} (pulls queue env e) =
      omega (arith, stored-pull test w.backend.shared queue env e)
  Step-everything {w} (puts_back queue before env after e) = ground (
    arith,
    stored-on_queue test queue (λ q. wake (record q { pending = env ∷ q.pending })) (one test env)
        w.backend.shared (λ q. omega arith),
    count-split before env after w.hands e,
  )
  Step-everything {w} (requeues queue before unread after e) = omega (
    arith,
    stored-requeue w.backend.shared queue unread,
    ap (count test) e,
    count-append test before (unread ++ after),
    count-append test unread after,
    count-append test before after,
  )
  Step-everything {w} (acks kind before env after e) =
      omega (arith, held_by-record_ack w.backend env kind, count-split before env after w.hands e)
  Step-everything {w} (dead_letters reason before env after e) =
      omega
        (arith, held_by-dead_letter w.backend env reason, count-split before env after w.hands e)
  Step-everything {w} (abandons before env after e) =
      omega (arith, count-split before env after w.hands e)
  Step-everything {w} closes = omega (arith, stored-close_queues test w.backend.shared.queues)

  -- Whatever the tasks do and in whatever order, and whichever messages are counted: what a history
  -- created is, with what there was before, in the world that it ends in (pending, settled or dead
  -- in a queue, waiting for a timer, or in hand) or among the messages that it dropped.
  pub Run-everything :
      {w w' : World V} {c d : List (Envelope V)}
      → Run w c d w'
      → everything w' + count test d ≡ everything w + count test c
  Run-everything start = refl
  Run-everything (then_step {c} {d} {c' = c'} {d' = d'} before step) = omega (
    arith,
    Run-everything before,
    Step-everything step,
    count-append test c c',
    count-append test d d',
  )
