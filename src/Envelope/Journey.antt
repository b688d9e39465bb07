-- ===== src/Envelope/Journey.antt =====
-- What an envelope keeps while it is retried and deferred (crates/core/src/envelope.rs).
use queuey.Common.{ℕ, suc, ◌+◌, ◌<◌, ◌≡◌, List, [], ◌∷◌, arith}
use queuey.Envelope.{Envelope, next_attempt, deferred, u32}

-- One rescheduling: a retry, or a deferral with the priority that it is given.
pub data Hop : Type 0 where
  retried : Hop
  deferred_at : (priority : ℕ) → Hop

abbrev pub count_retried : List Hop → ℕ
count_retried [] = 0
count_retried (retried ∷ hops) = suc (count_retried hops)
count_retried (deferred_at p ∷ hops) = count_retried hops

abbrev pub count_deferred : List Hop → ℕ
count_deferred [] = 0
count_deferred (retried ∷ hops) = count_deferred hops
count_deferred (deferred_at p ∷ hops) = suc (count_deferred hops)

-- The priority that the last rescheduling leaves.
abbrev pub last_priority : ℕ → List Hop → ℕ
last_priority p [] = p
last_priority p (retried ∷ hops) = last_priority 0 hops
last_priority p (deferred_at q ∷ hops) = last_priority q hops

module _ {V : Type 0} where
  pub travel : Envelope V → List Hop → Envelope V
  unfolding next_attempt deferred
  travel env [] = env
  travel env (retried ∷ hops) = travel (next_attempt env) hops
  travel env (deferred_at p ∷ hops) = travel (deferred env p) hops

  -- Through any sequence of retries and deferrals an envelope keeps its id, type, queue, enqueue
  -- time, correlation id and payload. The attempt grows by the number of retries and nothing else,
  -- the deferral counter by the number of deferrals, both in 32 bits, and the priority is what the
  -- last rescheduling set: 0 for a retry, the given one for a deferral.
  travel_lem :
      (env : Envelope V) (hops : List Hop)
      → env.attempt < 4294967296
      → env.deferrals < 4294967296
      → travel env hops ≡ record env {
        attempt = u32 (env.attempt + count_retried hops);
        deferrals = u32 (env.deferrals + count_deferred hops);
        priority = last_priority env.priority hops;
      }
  unfolding travel
  travel_lem env [] ha hd = ground arith
  travel_lem env (retried ∷ hops) ha hd =
      ground (arith, travel_lem (next_attempt env) hops (omega arith) hd)
  travel_lem env (deferred_at p ∷ hops) ha hd =
      ground (arith, travel_lem (deferred env p) hops ha (omega arith))
