-- ===== src/Topology/Names/Deferrable.antt =====
-- What the names of hold queues promise (crates/rabbitmq/src/topology.rs), and what
-- `check_deferrable_name` of crates/rabbitmq/src/backend.rs makes sure of.
use Prim.Native.String.{◌++◌, len}
use text.Mathlib.TextLemmas.{append_assoc, append_cancel_right}
use text.Mathlib.TextPositions.{len-append}
use queuey.Common.{ℕ, ◌+◌, ◌≤◌, ◌<◌, ◌≡◌, refl, sym, ap, ◌∙◌, String, none, some, arith}
use queuey.Topology.{max_ttl_ms, max_deferral_ms}
use queuey.Topology.Names.{
  NameTooLong, decimal_on, decimal, deferred_queue_name, check_deferrable_name,
  max_short_string_length,
}
use queuey.Topology.Names.Decimal.{decimal_injective, decimal-behind_dot, len-decimal}

-- The name up to its last dot.
stem_name :
    (queue suffix : String) (t : ℕ)
    → deferred_queue_name queue suffix t ≡ (queue ++ suffix) ++ ("." ++ decimal t)
unfolding deferred_queue_name
stem_name queue suffix t = sym (append_assoc queue suffix ("." ++ decimal t))

-- With one suffix, two hold queues have one name only if they are of one queue and hold for one
-- time, for times in milliseconds that a `u32` holds: every pair of a queue and a time has a queue
-- of its own, whatever the names contain.
pub deferred_queue_name_injective :
    (queue other suffix : String) (t u : ℕ)
    → t ≤ max_ttl_ms
    → u ≤ max_ttl_ms
    → deferred_queue_name queue suffix t ≡ deferred_queue_name other suffix u
    → (queue ≡ other) × (t ≡ u)
deferred_queue_name_injective queue other suffix t u ht hu same =
    let e : (queue ++ suffix) ++ ("." ++ decimal t) ≡ (other ++ suffix) ++ ("." ++ decimal u) =
      sym (stem_name queue suffix t) ∙ (same ∙ stem_name other suffix u) in
    let d : decimal t ≡ decimal u = decimal-behind_dot (queue ++ suffix) (other ++ suffix) t u e in
    let stems : (queue ++ suffix) ++ ("." ++ decimal t) ≡ (other ++ suffix) ++ ("." ++ decimal t) =
      e ∙ ap (λ x. (other ++ suffix) ++ ("." ++ x)) (sym d) in
    (
      append_cancel_right queue other suffix
          (append_cancel_right (queue ++ suffix) (other ++ suffix) ("." ++ decimal t) stems),
      decimal_injective t u (omega arith) (omega arith) d,
    )

len-deferred_queue_name :
    (queue suffix : String) (t : ℕ)
    → len (deferred_queue_name queue suffix t) ≡ len queue + (len suffix + (1 + len (decimal t)))
unfolding deferred_queue_name
len-deferred_queue_name queue suffix t = omega (
  arith,
  len-append queue (suffix ++ ("." ++ decimal t)),
  len-append suffix ("." ++ decimal t),
  len-append "." (decimal t),
)

longest : len (decimal max_deferral_ms) ≡ 10
unfolding decimal decimal_on
longest = refl

-- If the test accepts a queue's name with the suffix of hold queues, then the name of its hold queue
-- for any time at all fits an AMQP short string; if the test refuses it, then the name of its
-- hold queue for the longest deferral does not fit, and the error names that hold queue, its length
-- and the limit.
pub check_deferrable_name_iff :
    (queue suffix : String)
    → (check_deferrable_name queue suffix ≡ none
        → (t : ℕ) → len (deferred_queue_name queue suffix t) ≤ max_short_string_length)
      × ((e : NameTooLong)
          → check_deferrable_name queue suffix ≡ some e
          → (max_short_string_length < e.length)
            × (e.length ≡ len e.hold)
            × (e.hold ≡ deferred_queue_name queue suffix max_deferral_ms)
            × (e.queue ≡ queue)
            × (e.limit ≡ max_short_string_length))
unfolding check_deferrable_name
check_deferrable_name_iff queue suffix = (
  λ ok t.
      let l = len-decimal t in
      let m = longest in
      let a = len-deferred_queue_name queue suffix t in
      let b = len-deferred_queue_name queue suffix max_deferral_ms in ground (arith),
  λ e refused. ground arith,
)
