-- ===== src/Rabbitmq/Stream/InOrder.antt =====
-- What a stream of crates/rabbitmq/src/backend.rs gives, against the messages that its consumers received.
use queuey.Rabbitmq.Stream.Own.{KeepsOwn, recover-KeepsOwn, IsOwn}
use queuey.Rabbitmq.Stream.Handed.{
  discarded-none, handed-none, discarded, discarded_one, handed_one, discarded-append, handed,
  handed-append,
}
use queuey.Common.{
  ℕ, zero, suc, ◌≡◌, refl, ap, sym, ◌∙◌, String, Option, none, some, List, [], ◌∷◌, ◌++◌,
}
use mathlib.Core.List.{append-nil, append_assoc}
use queuey.Envelope.{Envelope}
use queuey.Rabbitmq.Calls.{Log, Reply, ok, failed, Broker}
use queuey.Rabbitmq.Publisher.{Publisher}
use queuey.Rabbitmq.Delivery.{RabbitMqDelivery, discard_malformed}
use queuey.Rabbitmq.Stream.Ask.{polls, Asked, Environment}
use queuey.Rabbitmq.Stream.{
  ConsumeState, Recovered, resubscribed, stop, gave_up, out_of_fuel, Next, item, failure, ended,
  tired, recover, Polled, after_recover, after_decode, after_poll, next_delivery, after_next,
  deliveries,
}
use queuey.Rabbitmq.Stream.Messages.{message_of, received, received-recover}

module _ {V B : Type 0} (environment : Environment B) (broker : Broker B)
    (from_bytes : B → Option (Envelope V)) (publisher : Publisher V B) (queue : String) where
  -- The messages received between two points, what became of them in order, and nothing else.
  abbrev Accounts :
      (asked : Asked) (log : Log B) → (Asked × Log B) × List (RabbitMqDelivery V B) → Type 0
  Accounts asked log (logs, given) =
      (new : List B) × (received environment logs.0 ≡ received environment asked ++ new)
      × (given ≡ handed from_bytes publisher new)
      × (logs.1 ≡ discarded broker from_bytes publisher queue new log)

  Accounts-trans :
      (a b : Asked) (l m : Log B) (logs : Asked × Log B) (early late : List (RabbitMqDelivery V B))
      → Accounts a l ((b, m), early)
      → Accounts b m (logs, late)
      → Accounts a l (logs, early ++ late)
  Accounts-trans a b l m logs early late (xs, e1, e2, e3) (ys, f1, f2, f3) = (
    xs ++ ys,
    simp (f1, e1, append_assoc),
    simp (e2, f2, handed-append),
    simp (f3, e3, discarded-append),
  )

  -- What a poll of the stream gives, and that it goes on as the same stream.
  abbrev given : Next V B → List (RabbitMqDelivery V B)
  given (item delivery state) = delivery ∷ []
  given _ = []

  abbrev GoesOn : Next V B → Type 0
  GoesOn (item delivery state) = IsOwn environment publisher queue state
  GoesOn (failure e state) = IsOwn environment publisher queue state
  GoesOn _ = Unit

  abbrev IsFair : Asked → Log B → Polled V B → Type 0
  IsFair asked log (logs, next) = Accounts asked log (logs, given next) × GoesOn next

  after_recover-IsFair :
      (again : ConsumeState V B → Asked → Log B → Polled V B)
      → ((state : ConsumeState V B) (asked : Asked) (log : Log B)
          → IsOwn environment publisher queue state
          → IsFair asked log (again state asked log))
      → (state : ConsumeState V B) (asked : Asked) (log : Log B)
      → IsOwn environment publisher queue state
      → (result : Asked × Recovered V B)
      → received environment result.0 ≡ received environment asked
      → KeepsOwn environment publisher queue result.1
      → IsFair asked log (after_recover environment broker from_bytes again state log result)
  after_recover-IsFair again rest state asked log own (later, resubscribed renewed) e keeps =
      let ((new, f1, f2, f3), on) = rest renewed later log keeps in
      ((new, f1 ∙ ap (λ xs. xs ++ new) e, f2, f3), on)
  after_recover-IsFair again rest state asked log own (later, stop) e keeps =
      (([], e ∙ sym (append-nil _), refl, refl), tt)
  after_recover-IsFair again rest state asked log own (later, gave_up error) e keeps =
      (([], e ∙ sym (append-nil _), refl, refl), own)
  after_recover-IsFair again rest state asked log own (later, out_of_fuel) e keeps =
      (([], e ∙ sym (append-nil _), refl, refl), tt)

  after_decode-IsFair :
      (again : ConsumeState V B → Asked → Log B → Polled V B)
      → ((state : ConsumeState V B) (asked : Asked) (log : Log B)
          → IsOwn environment publisher queue state
          → IsFair asked log (again state asked log))
      → (state : ConsumeState V B) (before asked : Asked) (log : Log B) (payload : B)
      → IsOwn environment publisher queue state
      → received environment asked ≡ received environment before ++ payload ∷ []
      → (decoded : Option (Envelope V)) → from_bytes payload ≡ decoded
      → IsFair before log
          (after_decode environment broker from_bytes again state asked log payload decoded)
  after_decode-IsFair again rest state before asked log payload own e (some envelope) decodes = (
    (
      payload ∷ [],
      e,
      cc (handed_one from_bytes publisher payload envelope [] decodes),
      cc (discarded_one broker from_bytes publisher queue payload envelope [] log decodes),
    ),
    own,
  )
  after_decode-IsFair again rest state before asked log payload own e none fails =
      let discards = discard_malformed broker state.publisher state.config.name payload log in
      let ((new, f1, f2, f3), on) = rest state asked discards own in
      (
        (
          payload ∷ new,
          f1
              ∙ ap (λ xs. xs ++ new) e
              ∙ append_assoc (received environment before) (payload ∷ []) new,
          f2 ∙ sym (handed-none from_bytes publisher payload new fails),
          cc (discarded-none broker from_bytes publisher queue payload new log fails),
        ),
        on,
      )

  after_poll-IsFair :
      (fuel : ℕ) (again : ConsumeState V B → Asked → Log B → Polled V B)
      → ((state : ConsumeState V B) (asked : Asked) (log : Log B)
          → IsOwn environment publisher queue state
          → IsFair asked log (again state asked log))
      → (state : ConsumeState V B) (before asked : Asked) (log : Log B)
      → IsOwn environment publisher queue state
      → (answer : Option (Reply B))
      → received environment asked ≡ received environment before ++ message_of environment answer
      → IsFair before log
          (after_poll environment broker from_bytes fuel again state asked log answer)
  after_poll-IsFair fuel again rest state before asked log own (some (ok payload)) e =
      after_decode-IsFair again rest state before asked log payload own e (from_bytes payload) refl
  after_poll-IsFair fuel again rest state before asked log own (some (failed error)) e =
      after_recover-IsFair again rest state before log own (recover environment fuel state asked)
        (received-recover environment fuel state asked ∙ e ∙ append-nil _)
        (recover-KeepsOwn environment publisher queue fuel state asked own)
  after_poll-IsFair fuel again rest state before asked log own none e =
      after_recover-IsFair again rest state before log own (recover environment fuel state asked)
        (received-recover environment fuel state asked ∙ e ∙ append-nil _)
        (recover-KeepsOwn environment publisher queue fuel state asked own)

  next_delivery-IsFair :
      (rounds fuel : ℕ) (state : ConsumeState V B) (asked : Asked) (log : Log B)
      → IsOwn environment publisher queue state
      → IsFair asked log (next_delivery environment broker from_bytes rounds fuel state asked log)
  unfolding next_delivery
  next_delivery-IsFair zero fuel state asked log own = (([], sym (append-nil _), refl, refl), tt)
  next_delivery-IsFair (suc rounds) fuel state asked log own =
      after_poll-IsFair fuel (next_delivery environment broker from_bytes rounds fuel)
        (λ s a l. next_delivery-IsFair rounds fuel s a l) state asked (polls state.consumer ∷ asked)
        log own (environment.polled (polls state.consumer ∷ asked)) refl

  after_next-Accounts :
      (more : ConsumeState V B → Asked → Log B → (Asked × Log B) × List (RabbitMqDelivery V B))
      → ((state : ConsumeState V B) (asked : Asked) (log : Log B)
          → IsOwn environment publisher queue state
          → Accounts asked log (more state asked log))
      → (asked : Asked) (log : Log B) (polled : Polled V B) → IsFair asked log polled
      → Accounts asked log (after_next environment broker from_bytes more polled)
  after_next-Accounts more rest asked log ((a, l), item delivery state) (fair, own) =
      Accounts-trans asked a log l (more state a l).0 (delivery ∷ []) (more state a l).1 fair
        (rest state a l own)
  after_next-Accounts more rest asked log ((a, l), failure e state) (fair, own) =
      Accounts-trans asked a log l (more state a l).0 [] (more state a l).1 fair
        (rest state a l own)
  after_next-Accounts more rest asked log (logs, ended) (fair, _) = fair
  after_next-Accounts more rest asked log (logs, tired) (fair, _) = fair

  deliveries-Accounts :
      (times rounds fuel : ℕ) (state : ConsumeState V B) (asked : Asked) (log : Log B)
      → IsOwn environment publisher queue state
      → Accounts asked log
          (deliveries environment broker from_bytes times rounds fuel state asked log)
  unfolding deliveries
  deliveries-Accounts zero rounds fuel state asked log own = ([], sym (append-nil _), refl, refl)
  deliveries-Accounts (suc times) rounds fuel state asked log own =
      after_next-Accounts (deliveries environment broker from_bytes times rounds fuel)
        (λ s a l. deliveries-Accounts times rounds fuel s a l) asked log
        (next_delivery environment broker from_bytes rounds fuel state asked log)
        (next_delivery-IsFair rounds fuel state asked log own)

-- However often a stream is polled, and through whatever outages and resubscriptions, the messages
-- that its consumers received meanwhile are dealt with in their order and once each: it hands over
-- those that decode, with its own publisher, and discards the others as `discard_malformed` does.
-- It hands over nothing else, and settles nothing else.
pub deliveries_in_order :
    {V B : Type 0} (environment : Environment B) (broker : Broker B)
    (from_bytes : B → Option (Envelope V)) (times rounds fuel : ℕ) (state : ConsumeState V B)
    (asked : Asked) (log : Log B)
    → let ((asked', log'), given) =
        deliveries environment broker from_bytes times rounds fuel state asked log in
      (new : List B) × (received environment asked' ≡ received environment asked ++ new)
      × (given ≡ handed from_bytes state.publisher new)
      × (log' ≡ discarded broker from_bytes state.publisher state.config.name new log)
deliveries_in_order environment broker from_bytes times rounds fuel state asked log =
    deliveries-Accounts environment broker from_bytes state.publisher state.config.name times rounds
      fuel state asked log (refl, refl)
