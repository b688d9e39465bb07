-- ===== src/Worker/RunLoop/Tests.antt =====
-- A worker of one queue that gets a delivery, is shut down and drains.
use queuey.Worker.RunLoop.Drain.{drain_ends, CanFinish}
use queuey.Worker.RunLoop.Progress.{CanStep}
use queuey.Worker.RunLoop.Reason.{Run-reason}
use queuey.Worker.RunLoop.Work.{work_left}
use queuey.Worker.RunLoop.Ending.{Run-processed}
use queuey.Worker.RunLoop.Limits.{Run-limits}
use queuey.Common.{
  some, false, ℕ, ◌≤◌, ◌≡◌, ◌⊎◌, refl, true, none, List, [], ◌∷◌, length, max, arith, count,
}
use queuey.QueueConfig.{QueueConfig, new_config}
use queuey.Worker.RunLoop.{
  reported, drain_event, start_consumer, all_gone, handle_event, Consumer, checking, waiting,
  sending, delivery, gone, Session, draining, finished, start_run,
}
use queuey.Worker.RunLoop.Steps.{
  drains, refuses_start, starts_loop, starts, checks, pulls, sends, job_ends, shuts_down,
  takes_permit, sees_shutdown, receives, takes_drain_permit, drained, joins, Run, start, then_step,
}

abbrev queues : List QueueConfig
queues = new_config "emails" ∷ []

abbrev begin : Session ℕ
begin = start_run queues 1

abbrev emails : Consumer ℕ
emails = record { queue = "emails"; phase = checking }

abbrev at_work : Session ℕ
at_work = record {
  consumers = record emails { phase = checking } ∷ [];
  channel = [];
  capacity = 1;
  stop = true;
  shutdown = true;
  permits = 0;
  in_flight = 7 ∷ [];
  processed = [];
  outcome = none;
  phase = draining;
}

abbrev to_work : Run begin 9 (7 ∷ []) at_work
unfolding start_run start_consumer handle_event new_config
to_work =
    then_step
      (then_step
        (then_step
          (then_step
            (then_step
              (then_step
                (then_step
                  (then_step (then_step start (starts (new_config "emails") [] refl))
                    (starts_loop refl))
                  (checks [] emails [] refl refl))
                (pulls [] (record emails { phase = waiting }) [] 7 refl refl))
              (sends [] (record emails { phase = sending (delivery 7) }) [] (delivery 7) refl refl
                (omega arith)))
            (takes_permit 0 refl refl))
          (receives (delivery 7) [] refl refl))
        (shuts_down refl))
      (sees_shutdown refl refl)

abbrev sent : List ℕ
sent = 7 ∷ []

abbrev at_end : Session ℕ
at_end = record {
  consumers = record emails { phase = gone } ∷ [];
  channel = [];
  capacity = 1;
  stop = true;
  shutdown = true;
  permits = 1;
  in_flight = [];
  processed = 7 ∷ [];
  outcome = none;
  phase = finished;
}

abbrev to_end : Run begin 14 (7 ∷ []) at_end
unfolding start_run start_consumer handle_event new_config
to_end =
    then_step
      (then_step
        (then_step
          (then_step (then_step to_work (job_ends [] 7 [] refl)) (checks [] emails [] refl refl))
          (takes_drain_permit 0 refl refl))
        (drained refl refl refl))
      (joins none refl refl refl)

-- The second consumer cannot be started after the first one has pulled a delivery.
abbrev two_queues : List QueueConfig
two_queues = new_config "emails" ∷ new_config "sms" ∷ []

abbrev refused_end : Session ℕ
refused_end = record {
  consumers = record emails { phase = gone } ∷ [];
  channel = [];
  capacity = 2;
  stop = true;
  shutdown = false;
  permits = 1;
  in_flight = [];
  processed = 7 ∷ [];
  outcome = some (reported "no such queue");
  phase = finished;
}

abbrev to_refused_end : Run (start_run two_queues 1) 12 (7 ∷ []) refused_end
unfolding start_run start_consumer drain_event new_config
to_refused_end =
    then_step
      (then_step
        (then_step
          (then_step
            (then_step
              (then_step
                (then_step
                  (then_step
                    (then_step
                      (then_step
                        (then_step
                          (then_step start
                            (starts (new_config "emails") (new_config "sms" ∷ []) refl))
                          (checks [] emails [] refl refl))
                        (pulls [] (record emails { phase = waiting }) [] 7 refl refl))
                      (refuses_start (new_config "sms") [] "no such queue" refl))
                    (sends [] (record emails { phase = sending (delivery 7) }) [] (delivery 7) refl
                      refl (omega arith)))
                  (takes_drain_permit 0 refl refl))
                (drains (delivery 7) [] refl refl))
              (job_ends [] 7 [] refl))
            (checks [] emails [] refl refl))
          (takes_drain_permit 0 refl refl))
        (drained refl refl refl))
      (joins none refl refl refl)

Run-processed_example :
    (count (λ d. true) refused_end.processed ≡ count (λ d. true) sent)
    × (refused_end.in_flight ≡ [])
    × (refused_end.channel ≡ [])
    × (all_gone refused_end.consumers ≡ true)
Run-processed_example = Run-processed (λ d. true) two_queues 1 to_refused_end refl

Run-limits_example :
    (length at_work.in_flight ≤ 1) × (length at_work.channel ≤ max (length queues) 1)
Run-limits_example = Run-limits queues 1 to_work

Run-reason_example : (at_end.shutdown ≡ true) ⊎ (queues ≡ [])
Run-reason_example = Run-reason queues 1 to_end refl refl

drain_ends_example :
    ((m : ℕ) (es : List ℕ) (u : Session ℕ)
      → Run at_work m es u
      → (m ≤ work_left at_work) × ((u.phase ≡ finished) ⊎ CanStep u))
    × CanFinish at_work
drain_ends_example = drain_ends queues 1 (omega arith) to_work refl
