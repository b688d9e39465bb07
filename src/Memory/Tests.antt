-- ===== src/Memory/Tests.antt =====
-- Histories and backlogs of a backend with one queue.
use queuey.Memory.Race.{record_ack-close}
use queuey.Memory.Requeue.{requeue-pull_many, enqueue_now-requeue, pull_many}
use queuey.Memory.Orderly.{Run-keeps}
use queuey.Memory.HoldCounts.{deferred_count-guards}
use queuey.Common.Map.{get, put}
use queuey.Memory.Consumer.{pulled, requeue, pull}
use queuey.Memory.Priority.{insert_by_priority_lem, below, at_least}
use queuey.Memory.Holds.{guards}
use queuey.Memory.Api.{
  record_ack, fire, enqueue_now, Backend, schedule, Timer, hold, deferred_count, close,
}
use queuey.Memory.Conservation.{Run-everything, everything}
use queuey.Memory.Outcomes.{settled_of, pending_of}
use queuey.Memory.World.{
  is_closed, fires, ticks, schedules, holds, closes, acks, start, then_step, Run, pulls,
  with_shared, settle, World,
}
use queuey.Common.{
  count, ◌++◌, ◌+◌, ℕ, List, ◌≡◌, refl, String, true, false, none, some, [], ◌∷◌, arith,
}
use queuey.Retry.{no_backoff}
use queuey.Envelope.{Envelope}
use queuey.Memory.{retried, wake, release_hold, insert_by_priority, QueueState, succeeded}

abbrev letter : ℕ → ℕ → Envelope String
letter id priority = record {
  job_id = id;
  job_type = "SendEmail";
  queue = "emails";
  attempt = 1;
  enqueued_at_ms = 1000;
  deferrals = 0;
  priority = priority;
  correlation_id = none;
  payload = "{}";
}

abbrev backlog : List (Envelope String)
backlog = letter 1 5 ∷ letter 2 5 ∷ letter 3 0 ∷ []

abbrev queue_with : List (Envelope String) → QueueState String
queue_with envs = record {
  config = record {
    name = "emails";
    prefetch = 2;
    retry = record { max_attempts = 3; backoff = no_backoff };
    durable = true;
    message_ttl = none;
    max_priority = some 10;
  };
  pending = envs;
  settled = [];
  dead = [];
  consumers = [];
  held = 0;
  signal = 0;
}

abbrev backend_with : List (Envelope String) → Backend String
backend_with envs = record {
  shared = record { queues = ("emails", queue_with envs) ∷ []; closed = false };
  timers = [];
  now = 0;
}

abbrev idle : World String
idle = record { backend = backend_with []; hands = [] }

-- A message is held for 5 ns, fires, and is pulled and acknowledged.
abbrev held : World String
held = record idle { backend = hold idle.backend (letter 1 0) 5 }

abbrev timer : Timer String
timer = record { envelope = letter 1 0; deadline = 5; guard = some "emails" }

abbrev later : World String
later = record held { backend = record held.backend { now = 5 } }

abbrev fired : World String
fired = record later { backend = fire later.backend [] timer [] }

abbrev taken : World String
taken = record (with_shared fired (pull fired.backend.shared "emails").1) {
  hands = letter 1 0 ∷ fired.hands;
}

abbrev acked : World String
acked = settle taken [] (record_ack taken.backend (letter 1 0) succeeded)

abbrev until_fired : Run idle (letter 1 0 ∷ []) [] fired
unfolding hold fire
until_fired =
    then_step (then_step (then_step start (holds (letter 1 0) 5)) (ticks 5 (omega arith)))
      (fires [] timer [] refl (omega arith))

taken_first : (pull fired.backend.shared "emails").0 ≡ pulled (letter 1 0)
unfolding hold fire pull enqueue_now release_hold get put wake insert_by_priority
taken_first = refl

abbrev whole_history : Run idle (letter 1 0 ∷ []) [] acked
unfolding hold fire
whole_history =
    then_step (then_step until_fired (pulls "emails" (letter 1 0) taken_first))
      (acks succeeded [] (letter 1 0) [] refl)

acked_open : is_closed acked ≡ false
unfolding hold fire record_ack pull enqueue_now release_hold get put wake insert_by_priority
acked_open = refl

Run-keeps_example :
    everything (λ e. true) acked ≡ everything (λ e. true) idle + count (λ e. true) (letter 1 0 ∷ [])
unfolding hold fire
Run-keeps_example = Run-keeps (λ e. true) whole_history (((((tt, tt), tt), tt), tt), tt) acked_open

abbrev shut : World String
shut = record idle { backend = (close idle.backend).1 }

abbrev late : World String
late = record shut { backend = schedule shut.backend (letter 1 0) 0 }

abbrev late_publish : Run idle (letter 1 0 ∷ []) (letter 1 0 ∷ []) late
unfolding close schedule
late_publish = then_step (then_step start closes) (schedules (letter 1 0) 0)

Run-everything_example :
    everything (λ e. true) late + count (λ e. true) (letter 1 0 ∷ [])
    ≡ everything (λ e. true) idle + count (λ e. true) (letter 1 0 ∷ [])
Run-everything_example = Run-everything (λ e. true) late_publish

deferred_count-guards_example :
    deferred_count fired.backend "emails" ≡ guards "emails" fired.backend.timers
unfolding deferred_count get hold fire
deferred_count-guards_example = deferred_count-guards "emails" until_fired refl

insert_by_priority_lem_example :
    insert_by_priority (letter 4 3) backlog ≡ at_least 3 backlog ++ letter 4 3 ∷ below 3 backlog
insert_by_priority_lem_example =
    insert_by_priority_lem (letter 4 3) backlog
      ((omega arith, (omega arith, tt)), ((omega arith, tt), (tt, tt)))

requeue-pull_many_example :
    pending_of "emails" (
      requeue
        (pull_many 2 (backend_with backlog).shared "emails").1
        "emails"
        (pull_many 2 (backend_with backlog).shared "emails").0)
    ≡ pending_of "emails" (backend_with backlog).shared
requeue-pull_many_example = requeue-pull_many 2 (backend_with backlog).shared "emails" "emails" refl

enqueue_now-requeue_example :
    pending_of "emails" (
      enqueue_now
        (requeue (backend_with backlog).shared "emails" (letter 4 0 ∷ []))
        (letter 5 5)
        none)
    ≡ letter 4 0 ∷ letter 1 5 ∷ insert_by_priority (letter 5 5) (letter 2 5 ∷ letter 3 0 ∷ [])
unfolding get
enqueue_now-requeue_example =
    enqueue_now-requeue (backend_with backlog).shared (letter 4 0) (letter 1 5) (letter 5 5)
      (letter 2 5 ∷ letter 3 0 ∷ []) refl refl (omega arith) (omega arith)

abbrev wait : ℕ
wait = 9

record_ack-close_example :
    let shut = (close (backend_with backlog)).1 in
    let after = record_ack (schedule shut (letter 5 2) 0) (letter 4 0) retried in
    ((name : String) → pending_of name after.shared ≡ pending_of name shut.shared)
    × (after.timers ≡ shut.timers)
    × (settled_of "emails" after.shared
        ≡ settled_of "emails" shut.shared ++ (letter 4 0, retried) ∷ [])
record_ack-close_example = record_ack-close (backend_with backlog) (letter 4 0) (letter 5 2)
