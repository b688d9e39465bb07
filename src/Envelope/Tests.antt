-- ===== src/Envelope/Tests.antt =====
-- An envelope that is deferred, retried and deferred again.
use queuey.Common.{String, none}
use queuey.Envelope.{Envelope}

abbrev fresh : Envelope String
fresh = record {
  job_id = 7;
  job_type = "SendEmail";
  queue = "emails";
  attempt = 1;
  enqueued_at_ms = 1000;
  deferrals = 0;
  priority = 0;
  correlation_id = none;
  payload = "{}";
}
