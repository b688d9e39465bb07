-- ===== src/Producer/Memory.antt =====
-- A producer on the in-memory backend (crates/core/src/producer.rs and memory.rs): what is enqueued is
-- what a consumer gets.
use queuey.Memory.Fifo.{insert_cases}
use queuey.Common.{
  str_eq, if◌then◌else◌, ◌++◌, ℕ, ◌≡◌, refl, String, false, Option, none, some, List, [], ◌∷◌,
  arith,
}
use queuey.Envelope.{Envelope, Job, decoded, raw, new_envelope, decode}
use queuey.Memory.{insert_by_priority}
use queuey.Memory.Api.{
  enqueue_now, Backend, Outcome, done, shut_down, declare, publish, defer, schedule,
}
use queuey.Memory.Outcomes.{pending_of, enqueue_now_lists}
use queuey.Producer.{BackendOps, enqueued, now, send, enqueue_with}

module _ {V : Type 0} where
  -- The one error of the in-memory backend.
  abbrev pub error_of : Outcome × Backend V → Option Outcome × Backend V
  error_of (done, b) = (none, b)
  error_of (shut_down, b) = (some shut_down, b)

  abbrev pub memory_ops : BackendOps (Backend V) V Outcome
  memory_ops = record {
    declare = λ b configs. error_of (declare b configs);
    publish = λ b env delay. error_of (publish b env delay);
    defer = λ b env delay. error_of (defer b env delay);
  }

  -- The envelope of a job, as the producer makes it.
  abbrev pub made_for : {J : Type 0} → Job V J → (id time : ℕ) → V → Option String → Envelope V
  made_for spec id time payload correlation_id = record {
    job_id = id;
    job_type = spec.name;
    queue = spec.queue_name;
    attempt = 1;
    enqueued_at_ms = time;
    deferrals = 0;
    priority = 0;
    correlation_id = correlation_id;
    payload = payload;
  }

  enqueue_with_now :
      {J : Type 0} (spec : Job V J) (id time : ℕ) (job : J) (payload : V)
      (correlation_id : Option String) (b : Backend V)
      → spec.to_value job ≡ some payload
      → b.shared.closed ≡ false
      → enqueue_with memory_ops spec id time job
          (record { correlation_id = correlation_id; schedule = now })
          b
        ≡ (enqueued id, schedule b (made_for spec id time payload correlation_id) 0)
  unfolding enqueue_with send new_envelope raw publish
  enqueue_with_now spec id time job payload correlation_id b made opened =
      ground (arith, made, opened)

  insert_last :
      (env : Envelope V) (es : List (Envelope V))
      → env.priority ≡ 0
      → insert_by_priority env es ≡ es ++ env ∷ []
  unfolding insert_by_priority
  insert_last env [] zero = refl
  insert_last env (e ∷ es) zero = ground (arith, insert_cases env e es, insert_last env es zero)

  schedule_now :
      (b : Backend V) (env : Envelope V)
      → schedule b env 0 ≡ record b { shared = enqueue_now b.shared env none }
  unfolding schedule
  schedule_now b env = refl

  -- On an open backend a job that is enqueued without a delay gets the id that was made for it and
  -- goes behind all that is pending in its queue, whatever is there; no other queue changes. The
  -- envelope is a first attempt with the correlation id that was asked for, and it decodes to the
  -- job if serde reads back what it wrote.
  pub enqueue_with-pending_of :
      {J : Type 0} (spec : Job V J) (id time : ℕ) (job : J) (payload : V)
      (correlation_id : Option String) (b : Backend V)
      → spec.to_value job ≡ some payload
      → spec.from_value payload ≡ decoded job
      → b.shared.closed ≡ false
      → let (result, later) =
          enqueue_with memory_ops spec id time job
            (record { correlation_id = correlation_id; schedule = now })
            b in
        (result ≡ enqueued id)
        × ((env : Envelope V) × ((name : String)
              → pending_of name later.shared ≡ (
                  if str_eq spec.queue_name name
                  then pending_of name b.shared ++ env ∷ []
                  else pending_of name b.shared))
            × (decode spec env ≡ decoded job)
            × (env.attempt ≡ 1)
            × (env.correlation_id ≡ correlation_id))
  unfolding decode
  enqueue_with-pending_of spec id time job payload correlation_id b made read opened =
      let env = made_for spec id time payload correlation_id in
      let lists = λ (name : String). enqueue_now_lists name b.shared env opened in
      rw
        (enqueue_with_now spec id time job payload correlation_id b made opened, schedule_now b env)
        (
          refl,
          (
            env,
            λ name. ground (arith, (lists name).0, insert_last env (pending_of name b.shared) refl),
            read,
            refl,
            refl,
          ),
        )
