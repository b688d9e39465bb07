-- ===== src/Worker/RunLoop/Flow.antt =====
-- Where a delivery is, from the stream to its settlement, over the steps of `Worker::run`
-- (crates/core/src/worker.rs).
use queuey.Common.{
  ℕ, ◌+◌, ◌≡◌, ap, Bool, List, [], ◌∷◌, ◌++◌, if◌then◌else◌, count, count-append, arith,
}
use queuey.Worker.RunLoop.{
  start_consumer, ConsumerEvent, delivery, failed, ended, ConsumerPhase, checking, waiting, sending,
  ending, gone, Consumer, Session, handle_event, drain_event,
}
use queuey.Worker.RunLoop.Steps.{
  starts_loop, refuses_start, starts, Step, checks, sees_stop, pulls, stream_fails, stream_ends,
  sends, sends_ended, job_ends, shuts_down, takes_permit, sees_shutdown, gives_up_permit, receives,
  loses_consumers, takes_drain_permit, drains, drained, joins, Run, start, then_step,
}

module _ {D : Type 0} (test : D → Bool) where
  abbrev pub in_event : ConsumerEvent D → ℕ
  in_event (delivery d) = if test d then 1 else 0
  in_event (failed e) = 0
  in_event (ended queue) = 0

  abbrev pub in_phase : ConsumerPhase D → ℕ
  in_phase checking = 0
  in_phase waiting = 0
  in_phase (sending event) = in_event event
  in_phase ending = 0
  in_phase gone = 0

  abbrev pub in_hands : List (Consumer D) → ℕ
  in_hands [] = 0
  in_hands (c ∷ cs) = in_phase c.phase + in_hands cs

  abbrev pub in_channel : List (ConsumerEvent D) → ℕ
  in_channel [] = 0
  in_channel (event ∷ events) = in_event event + in_channel events

  -- The deliveries that pass the test: with a consumer task, in the channel, running, or processed.
  abbrev pub flow : Session D → ℕ
  flow s =
      in_hands s.consumers + in_channel s.channel + count test s.in_flight + count test s.processed

  in_hands-append : (cs ds : List (Consumer D)) → in_hands (cs ++ ds) ≡ in_hands cs + in_hands ds
  in_hands-append [] ds = omega arith
  in_hands-append (c ∷ cs) ds = omega (arith, in_hands-append cs ds)

  in_channel-append :
      (xs ys : List (ConsumerEvent D)) → in_channel (xs ++ ys) ≡ in_channel xs + in_channel ys
  in_channel-append [] ys = omega arith
  in_channel-append (x ∷ xs) ys = omega (arith, in_channel-append xs ys)

  -- One consumer changes.
  in_hands-with_phase :
      (cs before : List (Consumer D)) (c : Consumer D) (after : List (Consumer D))
      (phase : ConsumerPhase D)
      → cs ≡ before ++ c ∷ after
      → in_hands (before ++ record c { phase = phase } ∷ after) + in_phase c.phase
        ≡ in_hands cs + in_phase phase
  in_hands-with_phase cs before c after phase e = omega (
    arith,
    ap in_hands e,
    in_hands-append before (c ∷ after),
    in_hands-append before (record c { phase = phase } ∷ after),
  )

  handle_event-flow :
      (s : Session D) (event : ConsumerEvent D)
      → flow (handle_event s event) ≡ flow s + in_event event
  unfolding handle_event
  handle_event-flow s (delivery d) = omega arith
  handle_event-flow s (failed e) = omega arith
  handle_event-flow s (ended queue) = omega arith

  drain_event-flow :
      (s : Session D) (event : ConsumerEvent D)
      → flow (drain_event s event) ≡ flow s + in_event event
  unfolding drain_event
  drain_event-flow s (delivery d) = omega arith
  drain_event-flow s (failed e) = omega arith
  drain_event-flow s (ended queue) = omega arith

  Step-flow : {s t : Session D} {ds : List D} → Step s ds t → flow t ≡ flow s + count test ds
  unfolding start_consumer
  Step-flow {s} (checks before c after e at) = ground (
    arith,
    in_hands-with_phase s.consumers before c after (if s.stop then gone else waiting) e,
    ap in_phase at,
  )
  Step-flow {s} (sees_stop before c after e at told) =
      omega (arith, in_hands-with_phase s.consumers before c after gone e, ap in_phase at)
  Step-flow {s} (pulls before c after d e at) = omega (
    arith,
    in_hands-with_phase s.consumers before c after (sending (delivery d)) e,
    ap in_phase at,
  )
  Step-flow {s} (stream_fails before c after reason e at) = omega (
    arith,
    in_hands-with_phase s.consumers before c after (sending (failed reason)) e,
    ap in_phase at,
  )
  Step-flow {s} (stream_ends before c after e at) =
      omega (arith, in_hands-with_phase s.consumers before c after ending e, ap in_phase at)
  Step-flow {s} (sends before c after event e at room) = omega (
    arith,
    in_hands-with_phase s.consumers before c after checking e,
    in_channel-append s.channel (event ∷ []),
    ap in_phase at,
  )
  Step-flow {s} (sends_ended before c after e at room) = omega (
    arith,
    in_hands-with_phase s.consumers before c after gone e,
    in_channel-append s.channel (ended c.queue ∷ []),
    ap in_phase at,
  )
  Step-flow {s} (job_ends before d after e) = omega (
    arith,
    ap (count test) e,
    count-append test before (d ∷ after),
    count-append test before after,
  )
  Step-flow {s} (receives event rest at e) =
      omega (arith, handle_event-flow (record s { channel = rest }) event, ap in_channel e)
  Step-flow {s} (drains event rest at e) =
      omega (arith, drain_event-flow (record s { channel = rest }) event, ap in_channel e)
  Step-flow (shuts_down h) = omega arith
  Step-flow {s} (starts config rest at) =
      omega
        (arith, in_hands-append s.consumers (record { queue = config.name; phase = checking } ∷ []))
  Step-flow (refuses_start config rest e at) = omega arith
  Step-flow (starts_loop at) = omega arith
  Step-flow (takes_permit free at e) = omega arith
  Step-flow (sees_shutdown at h) = omega arith
  Step-flow (gives_up_permit at h) = omega arith
  Step-flow (loses_consumers at e h) = omega arith
  Step-flow (takes_drain_permit free at e) = omega arith
  Step-flow (drained at e h) = omega arith
  Step-flow (joins closed at h e) = omega arith

  -- What was taken off the streams is with a consumer task, in the channel, running or processed.
  pub Run-flow :
      {s t : Session D} {n : ℕ} {ds : List D} → Run s n ds t → flow t ≡ flow s + count test ds
  Run-flow start = omega arith
  Run-flow (then_step {ds} {es} before step) =
      omega (arith, Run-flow before, Step-flow step, count-append test ds es)
