-- ===== src/Worker/RunLoop/Work.antt =====
-- A number that falls with every step of the drain of `Worker::run` (crates/core/src/worker.rs).
use queuey.Common.{
  ◌*◌, ℕ, ◌+◌, ◌<◌, ◌≡◌, refl, ap, Bool, true, false, List, [], ◌∷◌, ◌++◌, length, length-append,
  arith,
}
use queuey.Worker.RunLoop.{
  starting, delivery, failed, ended, ConsumerPhase, checking, waiting, sending, ending, gone,
  Consumer, LoopPhase, choosing, permitted, draining, drain_permitted, joining, finished, Session,
  drain_event,
}
use queuey.Worker.RunLoop.Steps.{
  starts_loop, refuses_start, starts, Step, checks, sees_stop, pulls, stream_fails, stream_ends,
  sends, sends_ended, job_ends, shuts_down, takes_permit, sees_shutdown, gives_up_permit, receives,
  loses_consumers, takes_drain_permit, drains, drained, joins,
}
use queuey.Worker.RunLoop.Limits.{IsSound, has_left}

abbrev loop_work : LoopPhase → ℕ
loop_work (starting queues) = 4
loop_work choosing = 4
loop_work permitted = 4
loop_work draining = 3
loop_work drain_permitted = 2
loop_work joining = 1
loop_work finished = 0

abbrev signal_work : Bool → ℕ
signal_work true = 0
signal_work false = 1

module _ {D : Type 0} where
  -- How many steps a part of the state may still cause, once the loop is left.
  abbrev consumer_work : ConsumerPhase D → ℕ
  consumer_work checking = 1
  consumer_work waiting = 6
  consumer_work (sending event) = 5
  consumer_work ending = 4
  consumer_work gone = 0

  abbrev consumers_work : List (Consumer D) → ℕ
  consumers_work [] = 0
  consumers_work (c ∷ cs) = consumer_work c.phase + consumers_work cs

  abbrev pub work_left : Session D → ℕ
  work_left s =
      consumers_work s.consumers
      + 3 * length s.channel
      + length s.in_flight
      + loop_work s.phase
      + signal_work s.shutdown

  consumers_work-append :
      (cs ds : List (Consumer D))
      → consumers_work (cs ++ ds) ≡ consumers_work cs + consumers_work ds
  consumers_work-append [] ds = omega arith
  consumers_work-append (c ∷ cs) ds = omega (arith, consumers_work-append cs ds)

  consumers_work-with_phase :
      (cs before : List (Consumer D)) (c : Consumer D) (after : List (Consumer D))
      (phase : ConsumerPhase D)
      → cs ≡ before ++ c ∷ after
      → consumers_work (before ++ record c { phase = phase } ∷ after) + consumer_work c.phase
        ≡ consumers_work cs + consumer_work phase
  consumers_work-with_phase cs before c after phase e = omega (
    arith,
    ap consumers_work e,
    consumers_work-append before (c ∷ after),
    consumers_work-append before (record c { phase = phase } ∷ after),
  )

  pub Step-work_left :
      {concurrency capacity : ℕ} {s t : Session D} {ds : List D}
      → Step s ds t
      → IsSound concurrency capacity s
      → has_left s.phase ≡ true
      → (work_left t < work_left s) × (has_left t.phase ≡ true)
  unfolding drain_event
  Step-work_left {s} (checks before c after e at) v left = ground (
    arith,
    consumers_work-with_phase s.consumers before c after gone e,
    ap consumer_work at,
    v.stops,
  )
  Step-work_left {s} (sees_stop before c after e at told) v left = (
    omega (arith, consumers_work-with_phase s.consumers before c after gone e, ap consumer_work at),
    left,
  )
  Step-work_left {s} (pulls before c after d e at) v left = (
    omega (
      arith,
      consumers_work-with_phase s.consumers before c after (sending (delivery d)) e,
      ap consumer_work at,
    ),
    left,
  )
  Step-work_left {s} (stream_fails before c after reason e at) v left = (
    omega (
      arith,
      consumers_work-with_phase s.consumers before c after (sending (failed reason)) e,
      ap consumer_work at,
    ),
    left,
  )
  Step-work_left {s} (stream_ends before c after e at) v left = (
    omega
        (arith, consumers_work-with_phase s.consumers before c after ending e, ap consumer_work at),
    left,
  )
  Step-work_left {s} (sends before c after event e at room) v left = (
    omega (
      arith,
      consumers_work-with_phase s.consumers before c after checking e,
      ap consumer_work at,
      length-append s.channel (event ∷ []),
    ),
    left,
  )
  Step-work_left {s} (sends_ended before c after e at room) v left = (
    omega (
      arith,
      consumers_work-with_phase s.consumers before c after gone e,
      ap consumer_work at,
      length-append s.channel (ended c.queue ∷ []),
    ),
    left,
  )
  Step-work_left (job_ends before d after e) v left = (
    omega (arith, ap length e, length-append before (d ∷ after), length-append before after),
    left,
  )
  Step-work_left (shuts_down h) v left = (ground (arith, ap signal_work h), left)
  Step-work_left (starts config rest at) v left = absurd (ground arith)
  Step-work_left (refuses_start config rest e at) v left = absurd (ground arith)
  Step-work_left (starts_loop at) v left = absurd (ground arith)
  Step-work_left (takes_permit free at e) v left = absurd (ground arith)
  Step-work_left (sees_shutdown at h) v left = absurd (ground arith)
  Step-work_left (gives_up_permit at h) v left = absurd (ground arith)
  Step-work_left (receives event rest at e) v left = absurd (ground arith)
  Step-work_left (loses_consumers at e h) v left = absurd (ground arith)
  Step-work_left (takes_drain_permit free at e) v left = (omega (arith, ap loop_work at), refl)
  Step-work_left (drains (delivery d) rest at e) v left =
      (omega (arith, ap loop_work at, ap length e), refl)
  Step-work_left (drains (failed reason) rest at e) v left =
      (omega (arith, ap loop_work at, ap length e), refl)
  Step-work_left (drains (ended queue) rest at e) v left =
      (omega (arith, ap loop_work at, ap length e), refl)
  Step-work_left (drained at e h) v left = (omega (arith, ap loop_work at), refl)
  Step-work_left (joins closed at h e) v left = (omega (arith, ap loop_work at), refl)
