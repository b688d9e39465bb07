-- ===== src/Worker/Build/Tests.antt =====
-- A build with two handlers and an override for one queue.
use queuey.Worker.Build.Policies.{build-policies}
use queuey.Retry.{no_backoff}
use queuey.Common.Map.{put, get, DistinctKeys}
use queuey.Worker.Build.{
  sum_prefetch, select, ok, resolve, resolve_all, Result, collect_handlers, Worker, named, Builder,
  build,
}
use queuey.Worker.Build.Queues.{build-queues, has_name, DistinctNames}
use queuey.Worker.{or_else, RetryPolicy, success, ErasedHandler}
use queuey.Common.{max, ◌≤◌, ℕ, List, ◌≡◌, refl, String, false, none, some, [], ◌∷◌}
use queuey.QueueConfig.{QueueConfig, QueueSet, new_config}

data AppQueues : Type 0 where
  emails images : AppQueues

abbrev app_name : AppQueues → String
app_name emails = "emails"
app_name images = "images"

abbrev app_queues : QueueSet AppQueues
app_queues = record {
  all = emails ∷ images ∷ [];
  name = app_name;
  config = λ q. new_config (app_name q);
}

abbrev policy_of : ℕ → RetryPolicy
policy_of attempts = record { max_attempts = attempts; backoff = no_backoff }

abbrev works : String → ErasedHandler String
works queue = record {
  declared_policy = policy_of 1;
  queue = queue;
  defer_priority = 10;
  run = λ now env limit configured. (success, configured);
}

abbrev accepts_all : List QueueConfig → Result (Unit {0})
accepts_all queues = ok tt

abbrev app : Builder String AppQueues
app = record {
  handlers = ("SendEmail", works "emails") ∷ ("Resize", works "images") ∷ [];
  queue_retry = ("emails", policy_of 4) ∷ [];
  job_retry = ("Resize", policy_of 6) ∷ [];
  dead_letter_hook = false;
  queues = some (emails ∷ emails ∷ []);
  concurrency = none;
  job_timeout = none;
  close_backend = false;
}

abbrev app_worker : Worker String
app_worker = record {
  handlers = ("SendEmail", works "emails") ∷ ("Resize", works "images") ∷ [];
  policies = ("SendEmail", policy_of 4) ∷ ("Resize", policy_of 6) ∷ [];
  dead_letter_hook = false;
  queues = new_config "emails" ∷ [];
  concurrency = 16;
  job_timeout = none;
  close_backend = false;
}

app_builds : build app_queues accepts_all app ≡ ok app_worker
unfolding build collect_handlers resolve_all resolve select get put new_config
app_builds = refl

build-policies_example :
    DistinctKeys app.handlers
    × ((name : String) → get name app_worker.handlers ≡ get name app.handlers)
    × ((name : String) (handler : ErasedHandler String)
        → get name app.handlers ≡ some handler
        → get name app_worker.policies
          ≡ some (
              or_else
                (get name app.job_retry)
                (or_else (get handler.queue app.queue_retry) handler.declared_policy)))
build-policies_example = build-policies app_queues accepts_all app app_worker app_builds

build-queues_example :
    DistinctNames app_worker.queues
    × ((name : String)
        → named name app_worker.queues ≡ has_name app_queues name (emails ∷ emails ∷ []))
    × (1 ≤ app_worker.concurrency)
    × (app_worker.concurrency ≡ max (sum_prefetch app_worker.queues) 1)
build-queues_example = build-queues app_queues accepts_all app app_worker app_builds
