-- ===== src/Topology/Tests.antt =====
-- Runs of the hold queue's time-to-live: the examples of `deferred_ttl_ms`'s documentation.
use queuey.Common.{ℕ, ◌*◌, ◌≤◌, ◌<◌, ◌≡◌, ◌⊎◌, refl, true, some, none, arith}
use queuey.QueueConfig.{QueueConfig}
use queuey.Retry.{no_backoff}
use queuey.Topology.{deferred_ttl_ms, hold_step, max_deferral_ms}
use queuey.Topology.HoldTtl.{deferred_ttl_ms_least}

abbrev jobs : QueueConfig
jobs = record {
  name = "jobs";
  prefetch = 16;
  retry = record { max_attempts = 1; backoff = no_backoff };
  durable = true;
  message_ttl = some 1500000;
  max_priority = some 10;
}

abbrev second : ℕ
second = 1000000000

rounds_up : deferred_ttl_ms 29200000000 second ≡ some 30000
unfolding deferred_ttl_ms
rounds_up = refl

one_step : deferred_ttl_ms 0 second ≡ some 1000
unfolding deferred_ttl_ms
one_step = refl

refused : deferred_ttl_ms (2592000 * second) second ≡ none
unfolding deferred_ttl_ms
refused = refl

step_second : hold_step second ≡ 1000
unfolding hold_step
step_second = refl

deferred_ttl_ms_least_example :
    ((t : ℕ) × (deferred_ttl_ms 29200000000 second ≡ some t)
      × ((steps : ℕ) × (1 ≤ steps) × (t ≡ steps * hold_step second))
      × (29200000000 ≤ t * 1000000)
      × (t ≤ max_deferral_ms)
      × (t ≤ 31 * hold_step second))
    ⊎ ((deferred_ttl_ms 29200000000 second ≡ none) × (max_deferral_ms < 31 * hold_step second))
deferred_ttl_ms_least_example =
    deferred_ttl_ms_least 29200000000 second 31 (omega arith) (omega (arith, step_second))
