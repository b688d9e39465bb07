-- ===== src/Rabbitmq/Declare/Remembers.antt =====
-- What a successful `declare` of crates/rabbitmq/src/backend.rs leaves: queues that can be deferred on.
use queuey.Common.{
  ap, if◌then◌else◌, ◌≡◌, inl, inr, refl, ◌∙◌, String, Option, none, some, List, [], ◌∷◌, All,
  arith, eq_iff, str_eq, Bool-cases,
}
use queuey.Common.Map.{Map, put, get, get-put}
use queuey.QueueConfig.{QueueConfig}
use queuey.Topology.Names.{NameTooLong, check_deferrable_name}
use queuey.Rabbitmq.Options.{RabbitMqOptions}
use queuey.Rabbitmq.Errors.{RabbitMqError}
use queuey.Rabbitmq.Calls.{Log, Broker, takes_declare_channel, calls}
use queuey.Rabbitmq.Declare.{
  Declared, remember, check_names, declare_topology, declare_one, declare_each, declare_queues,
  declare_checked, declare_on,
}

-- The last configuration of a name in a list, or the one given where the list has none.
abbrev pub last_named : String → List QueueConfig → Option QueueConfig → Option QueueConfig
last_named name [] old = old
last_named name (config ∷ queues) old =
    last_named name queues (if str_eq config.name name then some config else old)

abbrev pub IsKnown : Map QueueConfig → QueueConfig → Type 0
IsKnown configs config = (known : QueueConfig) × (get config.name configs ≡ some known)

remember-keeps :
    (config other : QueueConfig) (configs : Map QueueConfig)
    → IsKnown configs other
    → IsKnown (remember config configs) other
unfolding remember
remember-keeps config other configs (known, e) = elim (Bool-cases (str_eq config.name other.name)) [
  | inl same ↦ (config, get-put config.name other.name config configs ∙ cc)
  | inr differ ↦ (known, get-put config.name other.name config configs ∙ cc)
]

remember-IsKnown :
    (config : QueueConfig) (configs : Map QueueConfig) → IsKnown (remember config configs) config
unfolding remember
remember-IsKnown config configs = (
  config,
  get-put config.name config.name config configs ∙ ground (arith, eq_iff config.name config.name),
)

check_names-All :
    (suffix : String) (queues : List QueueConfig)
    → check_names suffix queues ≡ none
    → All (λ config. check_deferrable_name config.name suffix ≡ none) queues
unfolding check_names
check_names-All suffix [] h = tt
check_names-All suffix (config ∷ queues) h =
    (ground arith, check_names-All suffix queues (ground arith))

-- What is known before stays so afterwards, and the queues become known.
abbrev AllKnown : (before after : Map QueueConfig) → List QueueConfig → Type 0
AllKnown before after queues =
    ((other : QueueConfig) → IsKnown before other → IsKnown after other)
    × All (IsKnown after) queues

module _ {B : Type 0} where
  declare_one-known :
      (config : QueueConfig) (queues : List QueueConfig)
      (next : Log B → Map QueueConfig → Declared B) (result : Log B × Option RabbitMqError)
      (configs : Map QueueConfig)
      → ((log : Log B) (known : Map QueueConfig)
          → (next log known).1 ≡ none
          → AllKnown known (next log known).0.1 queues)
      → (declare_one config next result configs).1 ≡ none
      → AllKnown configs (declare_one config next result configs).0.1 (config ∷ queues)
  unfolding declare_one
  declare_one-known config queues next (after, none) configs rest e =
      let (keeps, all) = rest after (remember config configs) e in
      (
        (λ other known. keeps other (remember-keeps config other configs known)),
        (keeps config (remember-IsKnown config configs), all),
      )
  declare_one-known config queues next (after, some error) configs rest e = absurd (cc)

  declare_each-known :
      (broker : Broker B) (options : RabbitMqOptions) (queues : List QueueConfig) (log : Log B)
      (configs : Map QueueConfig)
      → (declare_each broker options queues log configs).1 ≡ none
      → AllKnown configs (declare_each broker options queues log configs).0.1 queues
  unfolding declare_each
  declare_each-known broker options [] log configs h = (λ other known. known, tt)
  declare_each-known broker options (config ∷ queues) log configs h =
      declare_one-known config queues (declare_each broker options queues)
        (declare_topology broker options config log) configs
        (λ after known. declare_each-known broker options queues after known) h

  declare_on-known :
      (queues : List QueueConfig) (next : Log B → Map QueueConfig → Declared B)
      (result : Log B × Option RabbitMqError) (configs : Map QueueConfig)
      → ((log : Log B)
          → (next log configs).1 ≡ none
          → AllKnown configs (next log configs).0.1 queues)
      → (declare_on next result configs).1 ≡ none
      → AllKnown configs (declare_on next result configs).0.1 queues
  declare_on-known queues next (log, none) configs rest e = rest log e
  declare_on-known queues next (log, some error) configs rest e = absurd (cc)

  declare_some-known :
      (broker : Broker B) (options : RabbitMqOptions) (queues : List QueueConfig) (log : Log B)
      (configs : Map QueueConfig) (checked : Option NameTooLong)
      → check_names options.deferred_suffix queues ≡ checked
      → (declare_checked broker options queues log configs checked).1 ≡ none
      → AllKnown configs (declare_checked broker options queues log configs checked).0.1 queues
        × All (λ config. check_deferrable_name config.name options.deferred_suffix ≡ none) queues
  declare_some-known broker options queues log configs none accepted e = (
    declare_on-known queues (declare_each broker options queues)
        (calls (takes_declare_channel "declare") broker.channel_taken log) configs
        (λ after. declare_each-known broker options queues after configs) e,
    check_names-All options.deferred_suffix queues accepted,
  )
  declare_some-known broker options queues log configs (some error) refused e = absurd (cc)

  declare_queues-AllKnown :
      (broker : Broker B) (options : RabbitMqOptions) (queues : List QueueConfig) (log : Log B)
      (configs : Map QueueConfig)
      → (declare_queues broker options queues log configs).1 ≡ none
      → AllKnown configs (declare_queues broker options queues log configs).0.1 queues
        × All (λ config. check_deferrable_name config.name options.deferred_suffix ≡ none) queues
  unfolding declare_queues
  declare_queues-AllKnown broker options [] log configs h = ((λ other known. known, tt), tt)
  declare_queues-AllKnown broker options (config ∷ queues) log configs h =
      declare_some-known broker options (config ∷ queues) log configs
        (check_names options.deferred_suffix (config ∷ queues)) refl h

  declare_one-last :
      (name : String) (config : QueueConfig) (queues : List QueueConfig)
      (next : Log B → Map QueueConfig → Declared B) (result : Log B × Option RabbitMqError)
      (configs : Map QueueConfig)
      → ((log : Log B) (known : Map QueueConfig)
          → (next log known).1 ≡ none
          → get name (next log known).0.1 ≡ last_named name queues (get name known))
      → (declare_one config next result configs).1 ≡ none
      → get name (declare_one config next result configs).0.1
        ≡ last_named name (config ∷ queues) (get name configs)
  unfolding declare_one remember
  declare_one-last name config queues next (after, none) configs rest e =
      rest after (put config.name config configs) e
      ∙ ap (last_named name queues) (get-put config.name name config configs)
  declare_one-last name config queues next (after, some error) configs rest e = absurd (cc)

  declare_each-last :
      (name : String) (broker : Broker B) (options : RabbitMqOptions) (queues : List QueueConfig)
      (log : Log B) (configs : Map QueueConfig)
      → (declare_each broker options queues log configs).1 ≡ none
      → get name (declare_each broker options queues log configs).0.1
        ≡ last_named name queues (get name configs)
  unfolding declare_each
  declare_each-last name broker options [] log configs h = refl
  declare_each-last name broker options (config ∷ queues) log configs h =
      declare_one-last name config queues (declare_each broker options queues)
        (declare_topology broker options config log) configs
        (λ after known. declare_each-last name broker options queues after known) h

  declare_on-last :
      (name : String) (queues : List QueueConfig) (next : Log B → Map QueueConfig → Declared B)
      (result : Log B × Option RabbitMqError) (configs : Map QueueConfig)
      → ((log : Log B)
          → (next log configs).1 ≡ none
          → get name (next log configs).0.1 ≡ last_named name queues (get name configs))
      → (declare_on next result configs).1 ≡ none
      → get name (declare_on next result configs).0.1 ≡ last_named name queues (get name configs)
  declare_on-last name queues next (log, none) configs rest e = rest log e
  declare_on-last name queues next (log, some error) configs rest e = absurd (cc)

  declare_checked-last :
      (name : String) (broker : Broker B) (options : RabbitMqOptions) (queues : List QueueConfig)
      (log : Log B) (configs : Map QueueConfig) (checked : Option NameTooLong)
      → (declare_checked broker options queues log configs checked).1 ≡ none
      → get name (declare_checked broker options queues log configs checked).0.1
        ≡ last_named name queues (get name configs)
  declare_checked-last name broker options queues log configs none e =
      declare_on-last name queues (declare_each broker options queues)
        (calls (takes_declare_channel "declare") broker.channel_taken log) configs
        (λ after. declare_each-last name broker options queues after configs) e
  declare_checked-last name broker options queues log configs (some error) e = absurd (cc)

  declare_queues-last :
      (name : String) (broker : Broker B) (options : RabbitMqOptions) (queues : List QueueConfig)
      (log : Log B) (configs : Map QueueConfig)
      → (declare_queues broker options queues log configs).1 ≡ none
      → get name (declare_queues broker options queues log configs).0.1
        ≡ last_named name queues (get name configs)
  unfolding declare_queues
  declare_queues-last name broker options [] log configs h = refl
  declare_queues-last name broker options (config ∷ queues) log configs h =
      declare_checked-last name broker options (config ∷ queues) log configs
        (check_names options.deferred_suffix (config ∷ queues)) h

  -- If declaring queues succeeds, on a handle that remembers any queues or none, the handle has
  -- afterwards a configuration for the name of each of them, and the name of each leaves room for its
  -- hold queues. For any name, what the handle has then is the last of the declared configurations
  -- with that name, or what it had before where there is none.
  pub declare_queues-IsKnown :
      (broker : Broker B) (options : RabbitMqOptions) (queues : List QueueConfig) (log : Log B)
      (configs : Map QueueConfig) (name : String)
      → (declare_queues broker options queues log configs).1 ≡ none
      → All (IsKnown (declare_queues broker options queues log configs).0.1) queues
        × All (λ config. check_deferrable_name config.name options.deferred_suffix ≡ none) queues
        × (get name (declare_queues broker options queues log configs).0.1
            ≡ last_named name queues (get name configs))
  declare_queues-IsKnown broker options queues log configs name h =
      let ((_, all), fit) = declare_queues-AllKnown broker options queues log configs h in
      (all, fit, declare_queues-last name broker options queues log configs h)
