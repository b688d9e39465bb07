-- ===== src/Memory/Race.antt =====
-- A `close` between the two critical sections of `MemoryDelivery::retry` (crates/core/src/memory.rs): the
-- check of `closed` has passed, and the rest of the operation finds a closed backend.
use queuey.Common.{◌≡◌, refl, true, String, [], ◌∷◌, ◌++◌, arith}
use queuey.Envelope.{Envelope}
use queuey.Memory.{retried}
use queuey.Memory.Api.{Backend, schedule, record_ack, enqueue_now, close}
use queuey.Memory.Outcomes.{pending_of, settled_of, record_ack_lists, record_ack_timers}

module _ {V : Type 0} where
  schedule-closed :
      (b : Backend V) (env : Envelope V) → b.shared.closed ≡ true → schedule b env 0 ≡ b
  unfolding schedule enqueue_now
  schedule-closed b env shut = ground (arith, shut)

  -- If the backend is closed after a retry without a delay has passed its check, the rest of the retry
  -- records the original as retried, and the next attempt is in no queue and in no timer: every
  -- pending list and the timers are as `close` left them.
  pub record_ack-close :
      (b : Backend V) (env next : Envelope V)
      → let shut = (close b).1 in
        let after = record_ack (schedule shut next 0) env retried in
        ((name : String) → pending_of name after.shared ≡ pending_of name shut.shared)
        × (after.timers ≡ shut.timers)
        × (settled_of env.queue after.shared
            ≡ settled_of env.queue shut.shared ++ (env, retried) ∷ [])
  record_ack-close b env next =
      let shut = (close b).1 in
      let lists = λ (name : String). record_ack_lists name shut env retried in
      rw (schedule-closed shut next (unfold close in refl))
        (λ name. (lists name).0, record_ack_timers shut env retried, (lists env.queue).1)
