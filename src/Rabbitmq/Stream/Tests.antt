-- ===== src/Rabbitmq/Stream/Tests.antt =====
-- A stream of the queue "emails": a message, an outage in which the first attempt to subscribe fails, a
-- message that does not decode, and another message. Then the handle is closed.
use queuey.Common.{
  ℕ, zero, suc, ◌≡◌, ◌≤◌, refl, String, Bool, true, false, Option, none, some, List, [], ◌∷◌, count,
  ltb, leb, ◌==◌, arith, if◌then◌else◌,
}
use mathlib.Core.Path.{subst}
use queuey.Envelope.{Envelope}
use queuey.Reconnect.{attempt_after, Rebuilding}
use queuey.Topology.Names.{decimal_on}
use queuey.Rabbitmq.Codec.{truncate_at_boundary}
use queuey.Rabbitmq.Errors.{short_string}
use queuey.Rabbitmq.Samples.{willing, emails, options}
use queuey.Rabbitmq.Options.{ReconnectPolicy}
use queuey.Rabbitmq.Calls.{Reply, ok, failed}
use queuey.Rabbitmq.Publisher.{Publisher}
use queuey.Rabbitmq.Delivery.{RabbitMqDelivery, discard_malformed}
use queuey.Rabbitmq.Stream.Tag.{consumer_tag}
use queuey.Rabbitmq.Stream.Ask.{Question, polls, Environment, subscribe}
use queuey.Rabbitmq.Stream.{
  ConsumeState, resubscribe, close_consumer_channel, recover, next_delivery, deliveries,
}
use queuey.Rabbitmq.Stream.Messages.{received}
use queuey.Rabbitmq.Stream.Handed.{handed, discarded}
use queuey.Rabbitmq.Stream.InOrder.{deliveries_in_order}
use queuey.Rabbitmq.Stream.Attempts.{is_attempt}
use queuey.Rabbitmq.Stream.Recovery.{Recovers, recover-Recovers}

abbrev three_failures : ReconnectPolicy
three_failures = record { delay_of = λ attempt. if ltb attempt.failures 3 then some 5 else none }

abbrev publisher : Publisher ℕ ℕ
publisher = record {
  options = record options { declare_dead_letter_queues = false; reconnect = some three_failures };
  configs = [];
  to_bytes = λ envelope. some envelope.payload;
  uuid_text = λ id. "id";
}

abbrev state : ConsumeState ℕ ℕ
state = record {
  consumer = "tag";
  channel = 1;
  publisher = publisher;
  config = emails;
  generation = 1;
}

abbrev job : ℕ → Envelope ℕ
job payload = record {
  job_id = 1;
  job_type = "send";
  queue = "emails";
  attempt = 1;
  enqueued_at_ms = 0;
  deferrals = 0;
  priority = 0;
  correlation_id = none;
  payload = payload;
}

-- Bytes below ten decode.
abbrev from_bytes : ℕ → Option (Envelope ℕ)
from_bytes payload = if ltb payload 10 then some (job payload) else none

abbrev is_poll : Question → Bool
is_poll (polls consumer) = true
is_poll _ = false

abbrev message : ℕ → Option (Reply ℕ)
message (suc zero) = some (ok 7)
message (suc (suc (suc zero))) = some (ok 70)
message (suc (suc (suc (suc zero)))) = some (ok 8)
message _ = none

abbrev environment : Environment ℕ
environment = record {
  polled = λ asked. message (count is_poll asked);
  closing = λ asked. leb 5 (count is_poll asked);
  connected = λ asked. none;
  generation = λ asked. 2;
  channel_created =
      λ asked. if count is_attempt asked == 1 then failed "closed" else ok (count is_attempt asked);
  prefetch_set = λ asked. ok tt;
  clock = λ asked. (1000, count is_attempt asked);
  consuming = λ asked. ok tt;
  channel_open = λ asked. false;
  slept = λ asked. none;
  error_text = λ e. "failed";
}

abbrev hand : ℕ → RabbitMqDelivery ℕ ℕ
hand payload = record { envelope = job payload; publisher = publisher }

given_through_an_outage :
    (deliveries environment willing from_bytes 5 9 3 state [] []).1 ≡ hand 7 ∷ hand 8 ∷ []
unfolding deliveries next_delivery recover resubscribe close_consumer_channel subscribe
    discard_malformed consumer_tag attempt_after short_string truncate_at_boundary decimal_on
given_through_an_outage = refl

deliveries_in_order_example :
    let ((asked', log'), given) = deliveries environment willing from_bytes 5 9 3 state [] [] in
    (new : List ℕ) × (received environment asked' ≡ new)
    × (given ≡ handed from_bytes publisher new)
    × (log' ≡ discarded willing from_bytes publisher "emails" new [])
deliveries_in_order_example = deliveries_in_order environment willing from_bytes 5 9 3 state [] []

three_failures-declines :
    (policy : ReconnectPolicy) (failures : ℕ) (e : String)
    → some three_failures ≡ some policy
    → 3 ≤ failures
    → policy.delay_of (attempt_after Rebuilding.consumer failures e) ≡ none
unfolding attempt_after
three_failures-declines policy failures e is over =
    let same : three_failures ≡ policy = cc in
    subst
      (λ (p : ReconnectPolicy). p.delay_of (attempt_after Rebuilding.consumer failures e) ≡ none)
      same (ground arith)

recover-Recovers_example : Recovers environment 3 state [] (recover environment 3 state [])
recover-Recovers_example =
    recover-Recovers environment 3 3 state [] three_failures-declines (omega arith) (omega arith)
