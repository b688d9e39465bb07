-- ===== src/Rabbitmq/Stream/Handed.antt =====
-- What becomes of messages that a stream of crates/rabbitmq/src/backend.rs receives, without its loops.
use queuey.Common.{◌≡◌, refl, String, Option, none, some, List, [], ◌∷◌, ◌++◌, arith}
use queuey.Envelope.{Envelope}
use queuey.Rabbitmq.Calls.{Log, Broker}
use queuey.Rabbitmq.Publisher.{Publisher}
use queuey.Rabbitmq.Delivery.{RabbitMqDelivery, discard_malformed}

module _ {V B : Type 0} (from_bytes : B → Option (Envelope V)) (publisher : Publisher V B) where
  -- The deliveries that messages make, if each that decodes is handed over.
  abbrev pub handed : List B → List (RabbitMqDelivery V B)
  handed [] = []
  handed (payload ∷ rest) = elim (from_bytes payload) [
    | some envelope ↦ record { envelope = envelope; publisher = publisher } ∷ handed rest
    | none ↦ handed rest
  ]

  pub handed-append : (xs ys : List B) → handed (xs ++ ys) ≡ handed xs ++ handed ys
  handed-append [] ys = refl
  handed-append (x ∷ xs) ys = ground (arith, handed-append xs ys)

  pub handed_one :
      (payload : B) (envelope : Envelope V) (rest : List B)
      → from_bytes payload ≡ some envelope
      → handed (payload ∷ rest)
        ≡ record { envelope = envelope; publisher = publisher } ∷ handed rest
  handed_one payload envelope rest decodes = ground arith

  pub handed-none :
      (payload : B) (rest : List B)
      → from_bytes payload ≡ none
      → handed (payload ∷ rest) ≡ handed rest
  handed-none payload rest fails = ground arith

module _ {V B : Type 0} (broker : Broker B) (from_bytes : B → Option (Envelope V))
    (publisher : Publisher V B) (queue : String) where
  -- The calls that they cause, if each that does not decode is discarded.
  abbrev pub discarded : List B → Log B → Log B
  discarded [] log = log
  discarded (payload ∷ rest) log = elim (from_bytes payload) [
    | some envelope ↦ discarded rest log
    | none ↦ discarded rest (discard_malformed broker publisher queue payload log)
  ]

  pub discarded-append :
      (xs ys : List B) (log : Log B) → discarded (xs ++ ys) log ≡ discarded ys (discarded xs log)
  discarded-append [] ys log = refl
  discarded-append (x ∷ xs) ys log = ground (
    arith,
    discarded-append xs ys log,
    discarded-append xs ys (discard_malformed broker publisher queue x log),
  )

  pub discarded_one :
      (payload : B) (envelope : Envelope V) (rest : List B) (log : Log B)
      → from_bytes payload ≡ some envelope
      → discarded (payload ∷ rest) log ≡ discarded rest log
  discarded_one payload envelope rest log decodes = ground arith

  pub discarded-none :
      (payload : B) (rest : List B) (log : Log B)
      → from_bytes payload ≡ none
      → discarded (payload ∷ rest) log
        ≡ discarded rest (discard_malformed broker publisher queue payload log)
  discarded-none payload rest log fails = ground arith
