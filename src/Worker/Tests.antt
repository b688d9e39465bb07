-- ===== src/Worker/Tests.antt =====
-- A worker with one handler, which fails every run.
use queuey.QueueConfig.{new_config}
use queuey.Worker.Life.{life_exhausts, AlwaysFails, life}
use queuey.Worker.Attempts.{dispatch-retry, settles, settlement_of}
use queuey.Envelope.{decode, decoded, Job, Envelope}
use queuey.Common.Map.{Map, get}
use queuey.Worker.Settling.{dispatch-SettlesOnce, SettlesOnce}
use queuey.Retry.{decide, compute_delay, fixed, RetryPolicy}
use queuey.Worker.Dispatch.{attempts_exhausted, dead_letter, retry_as, defer_as, dispatch}
use queuey.Worker.{
  outcome_of, await_task, retryable_error, context_for, returned_error, run_job, erase, JobHandler,
  Failure, reported, retryable, deferral, ErasedHandler,
}
use queuey.Common.{
  max, ◌-◌, suc, ◌+◌, count, ◌<◌, ◌≡◌, refl, String, true, none, some, [], ◌∷◌, arith,
}
use queuey.Retry.Tests.{whole_floats}

abbrev patience : RetryPolicy
patience = record { max_attempts = 3; backoff = fixed 20 }

abbrev send_email : Job String String
send_email = record {
  name = "SendEmail";
  queue_name = "emails";
  queue_config = new_config "emails";
  retry_policy = some patience;
  to_value = λ job. some job;
  from_value = λ value. decoded value;
}

-- It fails in time, at each attempt with another text.
abbrev mailer : JobHandler String
mailer = record {
  handle = λ job ctx. record {
    joined = returned_error (retryable_error "refused");
    within = λ limit. true;
  };
  set_retry_policy = λ job. none;
}

abbrev flaky : ErasedHandler String
flaky = record {
  declared_policy = patience;
  queue = "emails";
  defer_priority = 10;
  run = λ now env limit configured. (retryable (reported "refused"), patience);
}

abbrev mailing : ErasedHandler String
unfolding erase
mailing = erase send_email mailer

abbrev polite : ErasedHandler String
polite = record {
  declared_policy = patience;
  queue = "emails";
  defer_priority = 10;
  run = λ now env limit configured. (deferral 30 "not yet", configured);
}

abbrev first_try : Envelope String
first_try = record {
  job_id = 7;
  job_type = "SendEmail";
  queue = "emails";
  attempt = 1;
  enqueued_at_ms = 1000;
  deferrals = 0;
  priority = 4;
  correlation_id = none;
  payload = "{}";
}

abbrev handlers_of : ErasedHandler String → Map (ErasedHandler String)
handlers_of handler = ("SendEmail", handler) ∷ []

abbrev refused : Envelope String → Failure
refused env = reported "refused"

mailing_fails :
    AlwaysFails whole_floats
      (handlers_of mailing)
      []
      true
      none
      2000
      mailing
      "SendEmail"
      "{}"
      patience
      refused
unfolding erase run_job context_for await_task outcome_of decode get
mailing_fails = record { run_fails = λ env typed loaded. refl; small = omega arith }

mailing_found : get "SendEmail" (handlers_of mailing) ≡ some mailing
unfolding get
mailing_found = refl

flaky_found : get "SendEmail" (handlers_of flaky) ≡ some flaky
unfolding get
flaky_found = refl

polite_found : get "SendEmail" (handlers_of polite) ≡ some polite
unfolding get
polite_found = refl

life_exhausts_example :
    (count settles (life whole_floats (handlers_of mailing) [] true none 2000 5 first_try)
      ≡ suc (3 - 1))
    × ((e : Failure) × (settlement_of
            (life whole_floats (handlers_of mailing) [] true none 2000 5 first_try)
          ≡ some (dead_letter (attempts_exhausted 3 (max 3 1) e))))
life_exhausts_example =
    life_exhausts whole_floats (handlers_of mailing) [] true none 2000 mailing "SendEmail" "{}"
      patience refused mailing_fails mailing_found 5 first_try refl refl (omega arith)

dispatch-SettlesOnce_example :
    SettlesOnce true first_try
      (dispatch whole_floats (handlers_of flaky) [] true none 2000 first_try)
dispatch-SettlesOnce_example =
    dispatch-SettlesOnce whole_floats (handlers_of flaky) [] true none 2000 first_try

flaky_retries :
    settlement_of (dispatch whole_floats (handlers_of flaky) [] true none 2000 first_try)
    ≡ some (retry_as (record first_try { attempt = 2; priority = 0 }) 20)
unfolding dispatch settlement_of get decide compute_delay
flaky_retries = refl

dispatch-retry_example :
    (1 < 3)
    × (record first_try { attempt = 2; priority = 0 }
        ≡ record first_try { attempt = 1 + 1; priority = 0 })
    × (20 ≡ compute_delay whole_floats (fixed 20) 1)
dispatch-retry_example =
    dispatch-retry whole_floats (handlers_of flaky) [] true none 2000 first_try flaky flaky_found
      (record first_try { attempt = 2; priority = 0 }) 20 (omega arith) flaky_retries

polite_defers :
    settlement_of (dispatch whole_floats (handlers_of polite) [] true none 2000 first_try)
    ≡ some (defer_as (record first_try { deferrals = 1; priority = 10 }) 30)
unfolding dispatch settlement_of get
polite_defers = refl
