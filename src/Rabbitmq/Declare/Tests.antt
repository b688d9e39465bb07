-- ===== src/Rabbitmq/Declare/Tests.antt =====
-- Declaring the queue "mails" next to "emails", with a broker that answers well.
use queuey.Common.{ℕ, ◌⊎◌, some, String, ◌↔◌, ◌≤◌, ◌≡◌, refl, none, [], ◌∷◌, All}
use queuey.Common.Map.{get, Map}
use queuey.QueueConfig.{QueueConfig}
use queuey.Topology.Names.{
  check_deferrable_name, deferred_queue_name, decimal, decimal_on, dead_queue_name,
}
use queuey.Rabbitmq.Samples.{willing, emails, options}
use queuey.Rabbitmq.Errors.{short_string}
use queuey.Rabbitmq.Declare.{
  creates_channel, Log, declare_topology, declare_one, declare_each, declare_queues, check_names,
}
use queuey.Rabbitmq.Declare.Replay.{redeclare-declare_each}
use queuey.Rabbitmq.Declare.{redeclare}
use queuey.Rabbitmq.Declare.Remembers.{last_named, IsKnown, declare_queues-IsKnown}

abbrev known : Map QueueConfig
known = ("emails", emails) ∷ []

abbrev mails : QueueConfig
mails = record emails { name = "mails" }

abbrev fresh : Map QueueConfig
fresh = []

declared : (declare_queues willing options (mails ∷ []) [] fresh).1 ≡ none
unfolding declare_queues declare_each declare_one declare_topology check_names check_deferrable_name
    deferred_queue_name decimal decimal_on short_string dead_queue_name get
declared = refl

declare_queues-IsKnown_example :
    All (IsKnown (declare_queues willing options (mails ∷ []) [] fresh).0.1) (mails ∷ [])
    × All (λ config. check_deferrable_name config.name options.deferred_suffix ≡ none) (mails ∷ [])
    × (get "mails" (declare_queues willing options (mails ∷ []) [] fresh).0.1
        ≡ last_named "mails" (mails ∷ []) (get "mails" fresh))
declare_queues-IsKnown_example =
    declare_queues-IsKnown willing options (mails ∷ []) [] fresh "mails" declared

abbrev reopened : Log ℕ
reopened = creates_channel ∷ []

redeclare-declare_each_example :
    let (log', declared) = redeclare willing options (mails ∷ emails ∷ []) [] in
    let ((log'', known'), failure) =
      declare_each willing options (mails ∷ emails ∷ []) reopened fresh in
    ((e : String) × (willing.channel_created reopened ≡ some e)
      × (log' ≡ reopened)
      × (declared ≡ 0))
    ⊎ ((willing.channel_created reopened ≡ none)
        × (log' ≡ log'')
        × (declared ≤ 2)
        × ((declared ≡ 2) ↔ (failure ≡ none)))
redeclare-declare_each_example = redeclare-declare_each willing options mails (emails ∷ []) [] fresh
