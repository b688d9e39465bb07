-- ===== src/Worker/RunLoop.antt =====
-- `Worker::run`, `consume_into` and `ConsumerEvent` of crates/core/src/worker.rs: the tasks around the
-- dispatch loop, as steps of one task each in any order. A delivery is a value of `D`; what the
-- backend answers to `consume`, `close` and on a stream is an argument of the step. A job that runs ends by
-- itself (`process` is `dispatch`, of Dispatch). The future that `run` returns is not dropped, so the
-- receiving end of the channel lives as long as the consumers.
pub mod Steps
pub mod Flow
pub mod Limits
pub mod Work
pub mod Progress
pub mod Drain
pub mod Ending
pub mod Watch
pub mod Reason
mod Tests
use queuey.Common.{
  ℕ, suc, ◌+◌, ◌<◌, ◌≡◌, ◌⊎◌, String, Bool, true, false, Option, none, some, List, [], ◌∷◌, ◌++◌,
  length, max, if◌then◌else◌,
}
use queuey.QueueConfig.{QueueConfig}

-- `Error`, as far as `run` makes it: `ConsumerStopped`, or what the backend reported.
pub data RunError : Type 0 where
  consumer_stopped : (queue : String) → RunError
  reported : String → RunError

pub data ConsumerEvent (D : Type 0) : Type 0 where
  delivery : D → ConsumerEvent D
  failed : String → ConsumerEvent D
  ended : (queue : String) → ConsumerEvent D

-- Where a task of `consume_into` stands: before the test of `stop`, at the `select!`, with an event
-- that it has to send, with `Ended` to send, or returned.
pub data ConsumerPhase (D : Type 0) : Type 0 where
  checking waiting : ConsumerPhase D
  sending : ConsumerEvent D → ConsumerPhase D
  ending gone : ConsumerPhase D

pub record Consumer (D : Type 0) : Type 0 where
  pub queue : String
  pub phase : ConsumerPhase D

-- Where `run` stands: starting consumers, with the queues that are left, in the dispatch loop without and with a permit, in the drain without and with
-- one, waiting for its tasks, or returned.
pub data LoopPhase : Type 0 where
  starting : List QueueConfig → LoopPhase
  choosing permitted draining drain_permitted joining finished : LoopPhase

pub record Session (D : Type 0) : Type 0 where
  pub consumers : List (Consumer D)
  pub channel : List (ConsumerEvent D)
  pub capacity : ℕ
  pub stop : Bool  -- stop_tx
  pub shutdown : Bool  -- the handle's signal
  pub permits : ℕ  -- free concurrency slots
  pub in_flight : List D
  pub processed : List D  -- deliveries whose `process` has returned
  pub outcome : Option RunError  -- `none` is `Ok(())`
  pub phase : LoopPhase

abbrev pub or_error : Option RunError → RunError → Option RunError
or_error none e = some e
or_error (some first) e = some first

-- The end of `run`, for the answer of `close` if the backend is closed.
abbrev pub close_outcome : Option RunError → Option String → Option RunError
close_outcome outcome none = outcome
close_outcome outcome (some e) = or_error outcome (reported e)

module _ {D : Type 0} where
  -- `run`, up to the first call of `consume`.
  pub start_run : List QueueConfig → (concurrency : ℕ) → Session D
  start_run queues concurrency = record {
    consumers = [];
    channel = [];
    capacity = max (length queues) 1;
    stop = false;
    shutdown = false;
    permits = concurrency;
    in_flight = [];
    processed = [];
    outcome = none;
    phase = starting queues;
  }

  -- `consume` gave a stream, and the task for it is spawned.
  pub start_consumer : Session D → QueueConfig → List QueueConfig → Session D
  start_consumer s config rest = record s {
    consumers = s.consumers ++ record { queue = config.name; phase = checking } ∷ [];
    phase = starting rest;
  }

  -- The loop is left: `stop_tx.send_replace(true)`, with an error or without.
  abbrev pub leave_loop : Session D → Option RunError → Session D
  leave_loop s outcome = record s { stop = true; outcome = outcome; phase = draining }

  -- The match on an event in the dispatch loop, which holds a permit; a job takes it along.
  pub handle_event : Session D → ConsumerEvent D → Session D
  handle_event s (delivery d) = record s { in_flight = d ∷ s.in_flight; phase = choosing }
  handle_event s (failed e) = leave_loop (record s { permits = s.permits + 1 }) (some (reported e))
  handle_event s (ended queue) =
      leave_loop (record s { permits = s.permits + 1 }) (some (consumer_stopped queue))

  -- The match on an event in the drain.
  pub drain_event : Session D → ConsumerEvent D → Session D
  drain_event s (delivery d) = record s { in_flight = d ∷ s.in_flight; phase = draining }
  drain_event s (failed e) = record s {
    permits = s.permits + 1;
    outcome = or_error s.outcome (reported e);
    phase = draining;
  }
  drain_event s (ended queue) = record s { permits = s.permits + 1; phase = draining }

  abbrev pub is_gone : ConsumerPhase D → Bool
  is_gone gone = true
  is_gone _ = false

  -- `rx.recv()` gives `None` when all senders are dropped and the channel is empty.
  abbrev pub all_gone : List (Consumer D) → Bool
  all_gone [] = true
  all_gone (c ∷ cs) = if is_gone c.phase then all_gone cs else false

  abbrev pub with_phase :
      Session D → List (Consumer D) → Consumer D → List (Consumer D) → ConsumerPhase D → Session D
  with_phase s before c after phase = record s {
    consumers = before ++ record c { phase = phase } ∷ after;
  }

  abbrev pub send_event : Session D → ConsumerEvent D → Session D
  send_event s event = record s { channel = s.channel ++ event ∷ [] }

  -- A permit that is taken, or given back.
  abbrev pub with_permits : Session D → ℕ → LoopPhase → Session D
  with_permits s permits phase = record s { permits = permits; phase = phase }
