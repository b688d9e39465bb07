-- ===== src/Topology/Names/Tests.antt =====
-- Names of hold queues, as in the documentation of `deferred_queue_name`.
use Prim.Native.String.{len}
use queuey.Common.{String, ℕ, ◌≤◌, ◌<◌, ◌≡◌, refl, none, some, arith}
use queuey.Topology.{max_deferral_ms}
use queuey.Topology.Names.{
  decimal_on, decimal, dead_queue_name, deferred_queue_name, check_deferrable_name, NameTooLong,
  max_short_string_length,
}
use queuey.Topology.Names.Deferrable.{deferred_queue_name_injective, check_deferrable_name_iff}

abbrev emails : String
emails = "emails"

abbrev half_minute : ℕ
half_minute = 30000

documented : deferred_queue_name "myapp.emails" ".deferred" 30000 ≡ "myapp.emails.deferred.30000"
unfolding deferred_queue_name decimal decimal_on
documented = refl

dead : dead_queue_name "myapp.emails" ".dead" ≡ "myapp.emails.dead"
unfolding dead_queue_name
dead = refl

accepted : check_deferrable_name "myapp.emails" ".deferred" ≡ none
unfolding check_deferrable_name deferred_queue_name decimal decimal_on
accepted = refl

deferred_queue_name_injective_example : (emails ≡ emails) × (half_minute ≡ half_minute)
deferred_queue_name_injective_example =
    deferred_queue_name_injective emails emails ".deferred" half_minute half_minute (omega arith)
      (omega arith) refl

check_deferrable_name_iff_example :
    (check_deferrable_name "myapp.emails" ".deferred" ≡ none
      → (t : ℕ) → len (deferred_queue_name "myapp.emails" ".deferred" t) ≤ max_short_string_length)
    × ((e : NameTooLong)
        → check_deferrable_name "myapp.emails" ".deferred" ≡ some e
        → (max_short_string_length < e.length)
          × (e.length ≡ len e.hold)
          × (e.hold ≡ deferred_queue_name "myapp.emails" ".deferred" max_deferral_ms)
          × (e.queue ≡ "myapp.emails")
          × (e.limit ≡ max_short_string_length))
check_deferrable_name_iff_example = check_deferrable_name_iff "myapp.emails" ".deferred"
