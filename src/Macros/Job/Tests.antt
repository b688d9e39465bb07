-- ===== src/Macros/Job/Tests.antt =====
-- A job with a queue and a retry policy, in a crate that depends on queuey-core.
use queuey.Macros.Attrs.Retry.{
  parse_retry, factor_of, finish_exponential, attempts_of, kind_of, finish_kind, finish, add_key,
  add_keys,
}
use queuey.Macros.Attrs.{
  ok, not_a_variant, policy_of, set_once, reject, unknown_key, lit_f64, lit_int, err,
  exponential_spec, text, integer,
}
use queuey.Macros.Attrs.CratePath.{choose_crate_path, named, absent}
use queuey.Macros.Queues.{Host}
use queuey.Macros.Job.Runs.{derive_job-runs, IsRunnable, IsVariantOf}
use queuey.Macros.Job.{
  job_queue_set, core_path, job_impl, with_value, with_keys, add_job_key, with_path, JobMeta,
  parse_job_attr, derive_job, JobImpl,
}
use queuey.Retry.{usable_factor}
use queuey.Common.{String, some, true, [], false, ◌∷◌, List, ◌≡◌, refl}
use queuey.Retry.Tests.{whole_floats}

abbrev host : Host
host = record {
  fl = whole_floats;
  two = 2;
  literals = record { of_integer = λ n. n; negated = λ x. 0 };
  white = λ c. false;
  unicode = record {
    is_uppercase = λ c. false;
    is_lowercase = λ c. true;
    to_lowercase = λ c. String.◌∷◌ c String.[];
  };
  is_path = λ path. true;
}

abbrev metas : List JobMeta
metas =
    with_path "queue" ("AppQueues" ∷ "Emails" ∷ [])
    ∷ with_keys "retry" (("max_attempts", integer 5) ∷ ("factor", integer 3) ∷ [])
    ∷ []

abbrev expected : JobImpl
expected = record {
  core = "::queuey_core";
  queue_set = "AppQueues" ∷ [];
  queue = "AppQueues" ∷ "Emails" ∷ [];
  name = "mail::SendEmail";
  retry =
      some (policy_of (record { max_attempts = 5; backoff = exponential_spec 1000 3 300000 true }));
}

derived : derive_job host false "mail" "SendEmail" absent (named "queuey_core") metas ≡ ok expected
unfolding derive_job parse_job_attr add_job_key parse_retry add_keys add_key lit_int lit_f64
    set_once finish finish_kind kind_of attempts_of finish_exponential factor_of reject job_impl
    core_path job_queue_set choose_crate_path policy_of
derived = refl

no_such_key :
    derive_job host false "mail" "SendEmail" absent absent (with_value "kind" (text "x") ∷ [])
    ≡ err (unknown_key "kind")
unfolding derive_job parse_job_attr add_job_key
no_such_key = refl

no_set :
    derive_job host false "mail" "SendEmail" absent
      (named "queuey_core")
      (with_path "queue" ("Emails" ∷ []) ∷ [])
    ≡ err not_a_variant
unfolding derive_job parse_job_attr add_job_key set_once job_impl core_path job_queue_set
    choose_crate_path
no_set = refl

two_usable : usable_factor whole_floats 2 ≡ 2
unfolding usable_factor
two_usable = refl

derive_job-runs_example :
    IsVariantOf expected.queue expected.queue_set × IsRunnable whole_floats expected.retry
derive_job-runs_example =
    derive_job-runs host false "mail" "SendEmail" absent (named "queuey_core") metas expected
      two_usable derived
