-- ===== src/Rabbitmq/Declare/Replay.antt =====
-- What a reconnect declares again: `redeclare` of crates/rabbitmq/src/connection.rs against `declare` of
-- crates/rabbitmq/src/backend.rs.
use queuey.Common.{
  Option-cases, inl, inr, String, ◌⊎◌, suc, [], ℕ, ◌+◌, ◌≤◌, ◌≡◌, ◌↔◌, refl, Option, none, some,
  List, ◌∷◌, arith, length,
}
use mathlib.Core.Path.{subst⁻¹}
use queuey.Common.Map.{Map}
use queuey.QueueConfig.{QueueConfig}
use queuey.Rabbitmq.Errors.{RabbitMqError}
use queuey.Rabbitmq.Calls.{creates_channel, Broker, Log}
use queuey.Rabbitmq.Declare.{
  declare_topology, RabbitMqOptions, declare_each, redeclare, Declared, remember, declare_one,
  replayed, replay,
}

module _ {B : Type 0} where
  -- The same calls, and all queues counted exactly if nothing failed.
  abbrev Matches : (total : ℕ) → Log B × ℕ → Declared B → Type 0
  Matches total replay declare =
      (replay.0 ≡ declare.0.0) × (replay.1 ≤ total) × ((replay.1 ≡ total) ↔ (declare.1 ≡ none))

  replayed-Matches :
      (config : QueueConfig) (configs : List QueueConfig) (declared : ℕ) (known : Map QueueConfig)
      (next : ℕ → Log B → Log B × ℕ) (then_declare : Log B → Map QueueConfig → Declared B)
      → ((log : Log B) (known : Map QueueConfig)
          → Matches
              (declared + 1 + length configs)
              (next (declared + 1) log)
              (then_declare log known))
      → (first : Log B × Option RabbitMqError)
      → Matches
          (declared + suc (length configs))
          (replayed next declared first)
          (declare_one config then_declare first known)
  unfolding declare_one
  replayed-Matches config configs declared known next then_declare rest (log, none) =
      let (same, few, all) = rest log (remember config known) in
      (same, omega (arith, few), ((λ e. all.0 (omega (arith, e))), λ e. omega (arith, all.1 e)))
  replayed-Matches config configs declared known next then_declare rest (log, some e) =
      (refl, omega arith, ((λ e. absurd (omega (arith, e))), λ e. absurd (cc)))

  replay-Matches :
      (broker : Broker B) (options : RabbitMqOptions) (configs : List QueueConfig) (declared : ℕ)
      (log : Log B) (known : Map QueueConfig)
      → Matches
          (declared + length configs)
          (replay broker options configs declared log)
          (declare_each broker options configs log known)
  unfolding replay declare_each
  replay-Matches broker options [] declared log known =
      (refl, omega arith, ((λ e. refl), λ e. omega arith))
  replay-Matches broker options (config ∷ configs) declared log known =
      replayed-Matches config configs declared known (replay broker options configs)
        (declare_each broker options configs)
        (λ log' known'. replay-Matches broker options configs (declared + 1) log' known')
        (declare_topology broker options config log)

  -- After a reconnect, a handle with queues asks the new connection for one channel. If it gets none, it
  -- makes no other call and declares no queue. If it gets one, it makes the calls that the loop of
  -- `declare` makes for the same queues on that channel, with the same answers; it counts no more
  -- queues than there are, and all of them exactly if that loop succeeds.
  pub redeclare-declare_each :
      (broker : Broker B) (options : RabbitMqOptions) (config : QueueConfig)
      (configs : List QueueConfig) (log : Log B) (known : Map QueueConfig)
      → let (log', declared) = redeclare broker options (config ∷ configs) log in
        let opened = creates_channel ∷ log in
        let ((log'', known'), failure) =
          declare_each broker options (config ∷ configs) opened known in
        ((e : String) × (broker.channel_created opened ≡ some e) × (log' ≡ opened) × (declared ≡ 0))
        ⊎ ((broker.channel_created opened ≡ none)
            × (log' ≡ log'')
            × (declared ≤ length (config ∷ configs))
            × ((declared ≡ length (config ∷ configs)) ↔ (failure ≡ none)))
  unfolding redeclare
  redeclare-declare_each broker options config configs log known =
      let opened = creates_channel ∷ log in
      elim (Option-cases (broker.channel_created opened)) [
        | inr (e, refused) ↦ inl (e, refused, ground arith, ground arith)
        | inl got ↦
            let same : redeclare broker options (config ∷ configs) log
                ≡ replay broker options (config ∷ configs) 0 opened =
              ground arith in
            subst⁻¹
              (λ (r : Log B × ℕ).
                let d = declare_each broker options (config ∷ configs) opened known in
                ((e : String) × (broker.channel_created opened ≡ some e)
                  × (r.0 ≡ opened)
                  × (r.1 ≡ 0))
                ⊎ ((broker.channel_created opened ≡ none)
                    × (r.0 ≡ d.0.0)
                    × (r.1 ≤ length (config ∷ configs))
                    × ((r.1 ≡ length (config ∷ configs)) ↔ (d.1 ≡ none))))
              same
              (let (calls_same, few, all) =
                  replay-Matches broker options (config ∷ configs) 0 opened known in
                inr (
                  got,
                  calls_same,
                  omega (arith, few),
                  ((λ e. all.0 (omega (arith, e))), λ e. omega (arith, all.1 e)),
                ))
      ]
