-- ===== src/Memory/Window/Tests.antt =====
-- A consumer with a prefetch of one, on a queue with two messages and on an empty queue.
use queuey.Common.{
  ℕ, ◌+◌, ◌<◌, ◌≤◌, ◌≡◌, ◌≢◌, refl, String, true, false, none, some, List, [], ◌∷◌, arith, length,
}
use queuey.Common.Map.{get, put}
use queuey.QueueConfig.{QueueConfig}
use queuey.Retry.{no_backoff}
use queuey.Envelope.{Envelope}
use queuey.Memory.{QueueState, Shared, wake, insert_by_priority}
use queuey.Memory.Api.{schedule, enqueue_now}
use queuey.Memory.Consumer.{permits_for, register, pull}
use queuey.Memory.World
use queuey.Memory.World.{World}
use queuey.Memory.Window.{
  Phase, acquiring, waiting, finished, Window, new_window, TaskStep, acquires, looks, sends, task,
  hands_out, others, Run, start, then_step,
}
use queuey.Memory.Window.Bounds.{permits_of}
use queuey.Memory.Window.Progress.{Run-window, Run-progress}

abbrev letter : ℕ → Envelope String
letter id = record {
  job_id = id;
  job_type = "SendEmail";
  queue = "emails";
  attempt = 1;
  enqueued_at_ms = 1000;
  deferrals = 0;
  priority = 0;
  correlation_id = none;
  payload = "{}";
}

abbrev emails : QueueConfig
emails = record {
  name = "emails";
  prefetch = 1;
  retry = record { max_attempts = 3; backoff = no_backoff };
  durable = true;
  message_ttl = none;
  max_priority = some 10;
}

abbrev queue_with : List (Envelope String) → List ℕ → ℕ → QueueState String
queue_with envs consumers signal = record {
  config = emails;
  pending = envs;
  settled = [];
  dead = [];
  consumers = consumers;
  held = 0;
  signal = signal;
}

abbrev shared_with : List (Envelope String) → List ℕ → ℕ → Shared String
shared_with envs consumers signal = record {
  queues = ("emails", queue_with envs consumers signal) ∷ [];
  closed = false;
}

abbrev window :
    Shared String
    → ℕ
    → Phase String
    → List (Envelope String)
    → List (Envelope String)
    → Window String
window shared free phase channel out = record {
  shared = shared;
  queue = "emails";
  semaphore = 9;
  free = free;
  semaphore_closed = false;
  phase = phase;
  changed = false;
  channel = channel;
  stream_open = true;
  out = out;
}

abbrev busy : Window String
busy = window (shared_with (letter 2 ∷ []) (9 ∷ []) 0) 0 acquiring [] (letter 1 ∷ [])

taken : Run (new_window (shared_with (letter 1 ∷ letter 2 ∷ []) [] 0) emails 9) busy
unfolding new_window register pull permits_for get put
taken =
    then_step
      (then_step
        (then_step (then_step start (task (acquires refl refl refl (omega arith))))
          (task (looks refl)))
        (task (sends (letter 1) refl)))
      (hands_out (letter 1) [] refl refl)

Run-window_example :
    (busy.free + permits_of busy.phase + length busy.channel + length busy.out ≡ permits_for emails)
    × (length busy.channel + length busy.out ≤ permits_for emails)
Run-window_example = Run-window (shared_with (letter 1 ∷ letter 2 ∷ []) [] 0) emails 9 refl taken

-- The task waits when a message comes.
abbrev called : Window String
called = record (window (shared_with (letter 3 ∷ []) (9 ∷ []) 1) 0 waiting [] []) { changed = true }

abbrev idle_world : World String
idle_world = record {
  backend = record { shared = shared_with [] (9 ∷ []) 0; timers = []; now = 0 };
  hands = [];
}

abbrev called_world : World String
called_world = record {
  backend = record { shared = shared_with (letter 3 ∷ []) (9 ∷ []) 1; timers = []; now = 0 };
  hands = [];
}

comes : World.Step idle_world (letter 3 ∷ []) [] called_world
unfolding schedule enqueue_now get put insert_by_priority wake
comes = World.schedules (letter 3) 0

woken : Run (new_window (shared_with [] [] 0) emails 9) called
unfolding new_window register pull permits_for get put
woken =
    then_step
      (then_step (then_step start (task (acquires refl refl refl (omega arith))))
        (task (looks refl)))
      (others idle_world called_world refl comes)

found : get called.queue called.shared.queues ≡ some (queue_with (letter 3 ∷ []) (9 ∷ []) 1)
unfolding get
found = refl

going : called.phase ≢ finished
going e = cc

room : length called.channel + length called.out < permits_for emails
unfolding permits_for
room = omega arith

Run-progress_example : (x : Window String) × TaskStep called x
Run-progress_example =
    Run-progress (shared_with [] [] 0) emails 9 (letter 3) []
      (queue_with (letter 3 ∷ []) (9 ∷ []) 1) refl woken going refl found refl room
