-- ===== src/Memory/Lanes/Tests.antt =====
-- Three envelopes of two priorities, and one consumer more than there are.
use queuey.Common.{ℕ, ◌≡◌, refl, none, some, List, [], ◌∷◌, arith}
use queuey.Envelope.{Envelope}
use queuey.Memory.{insert_by_priority}
use queuey.Memory.Lanes.{Op, enqueue, dequeue, run_pending, run_lanes}
use queuey.Memory.Lanes.Refinement.{run_pending-run_lanes}

abbrev job : ℕ → ℕ → Envelope ℕ
job id priority = record {
  job_id = id;
  job_type = "send";
  queue = "emails";
  attempt = 1;
  enqueued_at_ms = 0;
  deferrals = 0;
  priority = priority;
  correlation_id = none;
  payload = 0;
}

abbrev history : List (Op ℕ)
history =
    enqueue (job 1 0)
    ∷ enqueue (job 2 9)
    ∷ enqueue (job 3 9)
    ∷ dequeue
    ∷ dequeue
    ∷ dequeue
    ∷ dequeue
    ∷ []

in_order : run_pending history [] ≡ some (job 2 9) ∷ some (job 3 9) ∷ some (job 1 0) ∷ none ∷ []
unfolding run_pending insert_by_priority
in_order = refl

run_pending-run_lanes_example : run_pending history [] ≡ run_lanes history (λ p. [])
run_pending-run_lanes_example =
    run_pending-run_lanes history (omega arith, (omega arith, (omega arith, tt)))
