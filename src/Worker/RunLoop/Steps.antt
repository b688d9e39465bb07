-- ===== src/Worker/RunLoop/Steps.antt =====
-- The steps of the tasks around `Worker::run` (crates/core/src/worker.rs), one task at a time and in any
-- order: the consumers of `consume_into`, the jobs, the handle and the loop itself.
use queuey.Common.{
  some, Bool, ℕ, suc, ◌+◌, ◌<◌, ◌≡◌, String, true, false, Option, List, [], ◌∷◌, ◌++◌, length,
  if◌then◌else◌,
}
use queuey.Worker.RunLoop.{
  reported, start_consumer, starting, QueueConfig, ConsumerEvent, delivery, failed, ended, checking,
  waiting, sending, ending, gone, Consumer, choosing, permitted, draining, drain_permitted, joining,
  finished, Session, leave_loop, handle_event, drain_event, close_outcome, all_gone, with_phase,
  send_event, with_permits,
}

-- One step of one task, with the deliveries that it takes off a stream.
pub data Step {D : Type 0} (s : Session D) : List D → Session D → Type 0 where
  checks :
      (before : List (Consumer D)) (c : Consumer D) (after : List (Consumer D))
      → s.consumers ≡ before ++ c ∷ after
      → c.phase ≡ checking
      → Step s [] (with_phase s before c after (if s.stop then gone else waiting))
  sees_stop :
      (before : List (Consumer D)) (c : Consumer D) (after : List (Consumer D))
      → s.consumers ≡ before ++ c ∷ after
      → c.phase ≡ waiting
      → s.stop ≡ true
      → Step s [] (with_phase s before c after gone)
  pulls :
      (before : List (Consumer D)) (c : Consumer D) (after : List (Consumer D)) (d : D)
      → s.consumers ≡ before ++ c ∷ after
      → c.phase ≡ waiting
      → Step s (d ∷ []) (with_phase s before c after (sending (delivery d)))
  stream_fails :
      (before : List (Consumer D)) (c : Consumer D) (after : List (Consumer D)) (e : String)
      → s.consumers ≡ before ++ c ∷ after
      → c.phase ≡ waiting
      → Step s [] (with_phase s before c after (sending (failed e)))
  stream_ends :
      (before : List (Consumer D)) (c : Consumer D) (after : List (Consumer D))
      → s.consumers ≡ before ++ c ∷ after
      → c.phase ≡ waiting
      → Step s [] (with_phase s before c after ending)
  sends :
      (before : List (Consumer D)) (c : Consumer D) (after : List (Consumer D))
      (event : ConsumerEvent D)
      → s.consumers ≡ before ++ c ∷ after
      → c.phase ≡ sending event
      → length s.channel < s.capacity
      → Step s [] (send_event (with_phase s before c after checking) event)
  sends_ended :
      (before : List (Consumer D)) (c : Consumer D) (after : List (Consumer D))
      → s.consumers ≡ before ++ c ∷ after
      → c.phase ≡ ending
      → length s.channel < s.capacity
      → Step s [] (send_event (with_phase s before c after gone) (ended c.queue))
  job_ends :
      (before : List D) (d : D) (after : List D)
      → s.in_flight ≡ before ++ d ∷ after
      → Step s [] (record s {
        in_flight = before ++ after;
        processed = d ∷ s.processed;
        permits = s.permits + 1;
      })
  shuts_down : s.shutdown ≡ false → Step s [] (record s { shutdown = true })
  starts :
      (config : QueueConfig) (rest : List QueueConfig)
      → s.phase ≡ starting (config ∷ rest)
      → Step s [] (start_consumer s config rest)
  refuses_start :
      (config : QueueConfig) (rest : List QueueConfig) (e : String)
      → s.phase ≡ starting (config ∷ rest)
      → Step s [] (leave_loop s (some (reported e)))
  starts_loop : s.phase ≡ starting [] → Step s [] (record s { phase = choosing })
  takes_permit :
      (free : ℕ)
      → s.phase ≡ choosing
      → s.permits ≡ suc free
      → Step s [] (with_permits s free permitted)
  sees_shutdown : s.phase ≡ choosing → s.shutdown ≡ true → Step s [] (leave_loop s s.outcome)
  gives_up_permit :
      s.phase ≡ permitted
      → s.shutdown ≡ true
      → Step s [] (leave_loop (record s { permits = s.permits + 1 }) s.outcome)
  receives :
      (event : ConsumerEvent D) (rest : List (ConsumerEvent D))
      → s.phase ≡ permitted
      → s.channel ≡ event ∷ rest
      → Step s [] (handle_event (record s { channel = rest }) event)
  loses_consumers :
      s.phase ≡ permitted
      → s.channel ≡ []
      → all_gone s.consumers ≡ true
      → Step s [] (leave_loop (record s { permits = s.permits + 1 }) s.outcome)
  takes_drain_permit :
      (free : ℕ)
      → s.phase ≡ draining
      → s.permits ≡ suc free
      → Step s [] (with_permits s free drain_permitted)
  drains :
      (event : ConsumerEvent D) (rest : List (ConsumerEvent D))
      → s.phase ≡ drain_permitted
      → s.channel ≡ event ∷ rest
      → Step s [] (drain_event (record s { channel = rest }) event)
  drained :
      s.phase ≡ drain_permitted
      → s.channel ≡ []
      → all_gone s.consumers ≡ true
      → Step s [] (with_permits s (s.permits + 1) joining)
  joins :
      (closed : Option String)
      → s.phase ≡ joining
      → all_gone s.consumers ≡ true
      → s.in_flight ≡ []
      → Step s [] (record s { phase = finished; outcome = close_outcome s.outcome closed })

-- A history, with all deliveries that it took off the streams and the number of its steps.
pub data Run {D : Type 0} (s : Session D) : ℕ → List D → Session D → Type 0 where
  start : Run s 0 [] s
  then_step :
      {n : ℕ} {ds es : List D} {t u : Session D}
      → Run s n ds t
      → Step t es u
      → Run s (suc n) (ds ++ es) u

-- The steps that `run`, its consumers and its jobs make by themselves: all but those of a stream that
-- gives something, which it need not do, and of the handle.
abbrev pub is_own : {D : Type 0} {s t : Session D} {ds : List D} → Step s ds t → Bool
is_own (pulls before c after d e at) = false
is_own (stream_fails before c after reason e at) = false
is_own (stream_ends before c after e at) = false
is_own (shuts_down h) = false
is_own _ = true

abbrev pub all_own : {D : Type 0} {s t : Session D} {n : ℕ} {ds : List D} → Run s n ds t → Bool
all_own start = true
all_own (then_step before step) = if is_own step then all_own before else false
