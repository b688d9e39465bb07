-- ===== src/Worker/RunLoop/Limits.antt =====
-- What holds in every state of `Worker::run` (crates/core/src/worker.rs): the concurrency slots, the bound of
-- the channel, and what the phases of the loop mean.
use queuey.Common.{
  ℕ, ◌+◌, ◌<◌, ◌≤◌, ◌≡◌, ap, Bool, true, false, none, List, [], ◌∷◌, ◌++◌, length, length-append,
  arith, max,
}
use queuey.QueueConfig.{QueueConfig}
use queuey.Worker.RunLoop.{
  starting, start_consumer, ConsumerEvent, delivery, failed, ended, ConsumerPhase, Consumer,
  LoopPhase, choosing, permitted, draining, drain_permitted, joining, finished, Session, start_run,
  handle_event, drain_event, is_gone, all_gone, with_phase, send_event,
}
use queuey.Worker.RunLoop.Steps.{
  starts_loop, refuses_start, starts, Step, checks, sees_stop, pulls, stream_fails, stream_ends,
  sends, sends_ended, job_ends, shuts_down, takes_permit, sees_shutdown, gives_up_permit, receives,
  loses_consumers, takes_drain_permit, drains, drained, joins, Run, start, then_step,
}

-- Whether the loop itself holds a permit, has been left, is past the drain, has returned.
abbrev pub held : LoopPhase → ℕ
held (starting queues) = 0
held choosing = 0
held permitted = 1
held draining = 0
held drain_permitted = 1
held joining = 0
held finished = 0

abbrev pub has_left : LoopPhase → Bool
has_left (starting queues) = false
has_left choosing = false
has_left permitted = false
has_left draining = true
has_left drain_permitted = true
has_left joining = true
has_left finished = true

abbrev pub has_drained : LoopPhase → Bool
has_drained (starting queues) = false
has_drained choosing = false
has_drained permitted = false
has_drained draining = false
has_drained drain_permitted = false
has_drained joining = true
has_drained finished = true

abbrev pub has_returned : LoopPhase → Bool
has_returned (starting queues) = false
has_returned choosing = false
has_returned permitted = false
has_returned draining = false
has_returned drain_permitted = false
has_returned joining = false
has_returned finished = true

module _ {D : Type 0} where
  pub record IsSound (concurrency capacity : ℕ) (s : Session D) : Type 0 where
    pub slots : s.permits + length s.in_flight + held s.phase ≡ concurrency
    pub wide : s.capacity ≡ capacity
    pub room : length s.channel ≤ s.capacity
    pub stops : s.stop ≡ has_left s.phase
    pub no_error : has_left s.phase ≡ false → s.outcome ≡ none
    pub all_sent : has_drained s.phase ≡ true → (s.channel ≡ []) × (all_gone s.consumers ≡ true)
    pub all_run : has_returned s.phase ≡ true → s.in_flight ≡ []

  all_gone-split :
      (before : List (Consumer D)) (c : Consumer D) (after : List (Consumer D))
      → all_gone (before ++ c ∷ after) ≡ true
      → is_gone c.phase ≡ true
  all_gone-split [] c after h = ground arith
  all_gone-split (b ∷ before) c after h = ground (arith, all_gone-split before c after)

  -- A consumer that is not gone is none of a list that is.
  not_gone :
      {cs : List (Consumer D)} (before : List (Consumer D)) (c : Consumer D)
      (after : List (Consumer D))
      → cs ≡ before ++ c ∷ after
      → is_gone c.phase ≡ false
      → all_gone cs ≡ false
  not_gone {cs} before c after e h = ground (arith, ap all_gone e, all_gone-split before c after)

  -- A step of one consumer, with or without an event sent.
  consumer-IsSound :
      {concurrency capacity : ℕ} {s : Session D} (before : List (Consumer D)) (c : Consumer D)
      (after : List (Consumer D)) (phase : ConsumerPhase D)
      → IsSound concurrency capacity s
      → s.consumers ≡ before ++ c ∷ after
      → is_gone c.phase ≡ false
      → IsSound concurrency capacity (with_phase s before c after phase)
  consumer-IsSound {s} before c after phase v e h =
      let alive = not_gone before c after e h in
      record {
        slots = v.slots;
        wide = v.wide;
        room = v.room;
        stops = v.stops;
        no_error = v.no_error;
        all_sent = λ over. absurd (cc ((v.all_sent over).1, alive));
        all_run = v.all_run;
      }

  send-IsSound :
      {concurrency capacity : ℕ} {s : Session D} (before : List (Consumer D)) (c : Consumer D)
      (after : List (Consumer D)) (phase : ConsumerPhase D) (event : ConsumerEvent D)
      → IsSound concurrency capacity s
      → s.consumers ≡ before ++ c ∷ after
      → is_gone c.phase ≡ false
      → length s.channel < s.capacity
      → IsSound concurrency capacity (send_event (with_phase s before c after phase) event)
  send-IsSound {s} before c after phase event v e h free =
      let alive = not_gone before c after e h in
      record {
        slots = v.slots;
        wide = v.wide;
        room = omega (arith, length-append s.channel (event ∷ []));
        stops = v.stops;
        no_error = v.no_error;
        all_sent = λ over. absurd (cc ((v.all_sent over).1, alive));
        all_run = v.all_run;
      }

  pub Step-IsSound :
      {concurrency capacity : ℕ} {s t : Session D} {ds : List D}
      → Step s ds t
      → IsSound concurrency capacity s
      → IsSound concurrency capacity t
  unfolding handle_event drain_event start_consumer
  Step-IsSound (checks before c after e at) v =
      consumer-IsSound before c after _ v e (ap is_gone at)
  Step-IsSound (sees_stop before c after e at told) v =
      consumer-IsSound before c after _ v e (ap is_gone at)
  Step-IsSound (pulls before c after d e at) v =
      consumer-IsSound before c after _ v e (ap is_gone at)
  Step-IsSound (stream_fails before c after reason e at) v =
      consumer-IsSound before c after _ v e (ap is_gone at)
  Step-IsSound (stream_ends before c after e at) v =
      consumer-IsSound before c after _ v e (ap is_gone at)
  Step-IsSound (sends before c after event e at free) v =
      send-IsSound before c after _ event v e (ap is_gone at) free
  Step-IsSound (sends_ended before c after e at free) v =
      send-IsSound before c after _ _ v e (ap is_gone at) free
  Step-IsSound {s} (job_ends before d after e) v = record {
    slots =
        omega (
          arith,
          v.slots,
          ap length e,
          length-append before (d ∷ after),
          length-append before after,
        );
    wide = v.wide;
    room = v.room;
    stops = v.stops;
    no_error = v.no_error;
    all_sent = v.all_sent;
    all_run = λ over.
        absurd (ground (arith, v.all_run over, e, ap length e, length-append before (d ∷ after)));
  }
  Step-IsSound (shuts_down h) v = ground arith
  Step-IsSound (starts config rest at) v = ground (arith, v.no_error)
  Step-IsSound (refuses_start config rest e at) v = ground (arith, v.no_error)
  Step-IsSound (starts_loop at) v = ground (arith, v.no_error)
  Step-IsSound (takes_permit free at e) v = ground (arith, v.no_error)
  Step-IsSound (sees_shutdown at h) v = ground (arith, v.no_error)
  Step-IsSound (gives_up_permit at h) v = ground arith
  Step-IsSound (receives (delivery d) rest at e) v = ground (arith, v.no_error, ap length e)
  Step-IsSound (receives (failed reason) rest at e) v = ground (arith, v.no_error, ap length e)
  Step-IsSound (receives (ended queue) rest at e) v = ground (arith, v.no_error, ap length e)
  Step-IsSound (loses_consumers at e h) v = ground arith
  Step-IsSound (takes_drain_permit free at e) v = ground arith
  Step-IsSound (drains (delivery d) rest at e) v = ground (arith, ap length e)
  Step-IsSound (drains (failed reason) rest at e) v = ground (arith, ap length e)
  Step-IsSound (drains (ended queue) rest at e) v = ground (arith, ap length e)
  Step-IsSound (drained at e h) v = ground arith
  Step-IsSound (joins closed at h e) v = ground (arith, v.all_sent)

  pub Run-IsSound :
      {concurrency capacity : ℕ} {s t : Session D} {n : ℕ} {ds : List D}
      → Run s n ds t
      → IsSound concurrency capacity s
      → IsSound concurrency capacity t
  Run-IsSound start v = v
  Run-IsSound (then_step before step) v = Step-IsSound step (Run-IsSound before v)

  pub start_run-IsSound :
      (queues : List QueueConfig) (concurrency : ℕ)
      → IsSound concurrency (max (length queues) 1) (start_run queues concurrency)
  unfolding start_run
  start_run-IsSound queues concurrency = ground arith

  -- At no time are more jobs running than the concurrency of the worker, and the channel never holds
  -- more events than the worker has queues, or one.
  pub Run-limits :
      (queues : List QueueConfig) (concurrency : ℕ) {n : ℕ} {t : Session D} {ds : List D}
      → Run (start_run queues concurrency) n ds t
      → (length t.in_flight ≤ concurrency) × (length t.channel ≤ max (length queues) 1)
  Run-limits queues concurrency run =
      let v = Run-IsSound run (start_run-IsSound queues concurrency) in
      (omega (arith, v.slots), omega (arith, v.room, v.wide))
