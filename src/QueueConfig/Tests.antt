-- ===== src/QueueConfig/Tests.antt =====
-- A queue set of two queues: the one in the documentation of `QueueSet`.
use queuey.Common.{String, ◌≡◌, refl, some, [], ◌∷◌}
use queuey.QueueConfig.{QueueSet, new_config, from_name}

data AppQueues : Type 0 where
  emails images : AppQueues

abbrev app_name : AppQueues → String
app_name emails = "myapp.emails"
app_name images = "myapp.img"

abbrev app_queues : QueueSet AppQueues
app_queues = record {
  all = emails ∷ images ∷ [];
  name = app_name;
  config = λ q. new_config (app_name q);
}

finds_images : from_name app_queues "myapp.img" ≡ some images
unfolding from_name
finds_images = refl
