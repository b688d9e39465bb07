-- ===== src/Memory/Orderly.antt =====
-- What a backend drops while it is open: nothing, unless a task is killed.
use queuey.Common.{
  ap, ◌+◌, ◌≡◌, refl, Bool, false, none, some, List, [], ◌∷◌, count, arith, Option, String,
}
use queuey.Common.Map.{get}
use queuey.Envelope.{Envelope}
use queuey.Memory.{Shared, on_queue, release_hold}
use queuey.Memory.Api.{
  declare, schedule, hold, fire, abort, record_ack, dead_letter, close, enqueue_now,
}
use queuey.Memory.Consumer.{register, unregister, pull, pop_front, put_back, requeue}
use queuey.Memory.World.{
  World, Step, Run, is_closed, is_none, ticks, declares, schedules, holds, fires, aborts, registers,
  unregisters, pulls, puts_back, requeues, acks, dead_letters, abandons, closes, start, then_step,
}
use queuey.Memory.Conservation.{everything, Run-everything}

module _ {V : Type 0} where
  -- A step that tears nothing down: no task is aborted, no delivery is dropped unsettled, and a
  -- message goes back to a queue that exists.
  abbrev pub IsOrderly : {w w' : World V} {c d : List (Envelope V)} → Step w c d w' → Type 0
  IsOrderly (aborts before timer after e) = ⊥
  IsOrderly (abandons before env after e) = ⊥
  IsOrderly {w} (puts_back queue before env after e) =
      is_none (get queue w.backend.shared.queues) ≡ false
  IsOrderly _ = Unit {0}

  abbrev pub AllOrderly : {w w' : World V} {c d : List (Envelope V)} → Run w c d w' → Type 0
  AllOrderly start = Unit {0}
  AllOrderly (then_step before step) = AllOrderly before × IsOrderly step

  closed-enqueue_now :
      (shared : Shared V) (env : Envelope V) (guard : Option String)
      → (enqueue_now shared env guard).closed ≡ shared.closed
  unfolding enqueue_now release_hold on_queue
  closed-enqueue_now shared env none = ground arith
  closed-enqueue_now shared env (some name) = ground arith

  closed-pull : (shared : Shared V) (queue : String) → (pull shared queue).1.closed ≡ shared.closed
  unfolding pull pop_front
  closed-pull shared queue = ground arith

  -- A closed backend is not opened again.
  pub Step-closed :
      {w w' : World V} {c d : List (Envelope V)}
      → Step w c d w'
      → is_closed w' ≡ false
      → is_closed w ≡ false
  unfolding schedule hold fire abort record_ack release_hold on_queue
  Step-closed (ticks time h) o = o
  Step-closed {w} (declares configs) o = unfold declare in ground arith
  Step-closed {w} (schedules env delay) o =
      ground (arith, closed-enqueue_now w.backend.shared env none)
  Step-closed {w} (holds env delay) o = ground (arith, closed-enqueue_now w.backend.shared env none)
  Step-closed {w} (fires before timer after e due) o =
      ground (arith, closed-enqueue_now w.backend.shared timer.envelope timer.guard)
  Step-closed {w} (aborts before timer after e) o = ground arith
  Step-closed {w} (registers queue semaphore) o = unfold register in ground arith
  Step-closed {w} (unregisters queue semaphore) o = unfold unregister in o
  Step-closed {w} (pulls queue env e) o = ground (arith, closed-pull w.backend.shared queue)
  Step-closed {w} (puts_back queue before env after e) o = unfold put_back in o
  Step-closed {w} (requeues queue before [] after e) o = unfold requeue in o
  Step-closed {w} (requeues queue before (x ∷ unread) after e) o = unfold requeue in ground arith
  Step-closed {w} (acks kind before env after e) o = o
  Step-closed {w} (dead_letters reason before env after e) o = unfold dead_letter in ground arith
  Step-closed {w} (abandons before env after e) o = o
  Step-closed {w} closes o = unfold close in cc

  Step-dropped :
      {w w' : World V} {c d : List (Envelope V)} (s : Step w c d w')
      → IsOrderly s
      → is_closed w ≡ false
      → d ≡ []
  Step-dropped {w} (aborts before timer after e) h o = absurd h
  Step-dropped {w} (abandons before env after e) h o = absurd h
  Step-dropped {w} (puts_back queue before env after e) h o = ground arith
  Step-dropped {w} (schedules env delay) h o = ground arith
  Step-dropped {w} (holds env delay) h o = ground arith
  Step-dropped {w} (fires before timer after e due) h o = ground arith
  Step-dropped {w} (requeues queue before unread after e) h o = ground arith
  Step-dropped {w} (dead_letters reason before env after e) h o = ground arith
  Step-dropped _ h o = refl

  Run-dropped :
      {w w' : World V} {c d : List (Envelope V)} (r : Run w c d w')
      → AllOrderly r
      → is_closed w' ≡ false
      → d ≡ []
  Run-dropped start h o = refl
  Run-dropped (then_step before step) h o =
      let open' = Step-closed step o in
      cc (Run-dropped before h.0 open', Step-dropped step h.1 open')

  -- As long as the backend is not closed, no task is killed, no handler drops its delivery and no
  -- message goes back to a queue that is unknown, every message that was there or was published is
  -- still there, whatever the order of the steps: pending, settled or dead in a queue, waiting for a
  -- timer, or in hand.
  pub Run-keeps :
      (test : Envelope V → Bool) {w w' : World V} {c d : List (Envelope V)} (r : Run w c d w')
      → AllOrderly r
      → is_closed w' ≡ false
      → everything test w' ≡ everything test w + count test c
  Run-keeps test r h o = omega (arith, Run-everything test r, ap (count test) (Run-dropped r h o))
