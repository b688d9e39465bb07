-- ===== src/Rabbitmq/Connection/Numbering.antt =====
-- The generation of a handle (crates/rabbitmq/src/connection.rs) against the connections that it made current.
use queuey.Rabbitmq.Connection.{
  numbering, start_attempts, after_policy, ask_policy, attempt_of, with_calls, u64, u64, with_calls,
  attempt_of, after_policy, ask_policy, start_attempts, ReconnectPolicy, Duration, live, CallPhase,
  ConnectionHandle,
}
use queuey.Common.{
  count-append, ◌≤◌, none, count, some, ◌∷◌, arith, true, ◌+◌, ◌++◌, String, false, List, Bool, ℕ,
  ◌≡◌, Option, ap, refl, if◌then◌else◌,
}

-- How a count changes where one call moves.
pub count-moved :
    (test : CallPhase → Bool) (calls before after : List CallPhase) (c d : CallPhase)
    → calls ≡ before ++ c ∷ after
    → (count test (before ++ d ∷ after) + (if test c then 1 else 0)
        ≡ count test calls + (if test d then 1 else 0))
      × ((if test c then 1 else 0) ≤ count test calls)
count-moved test calls before after c d e =
    let old = count-append test before (c ∷ after) in
    (
      omega (arith, ap (count test) e, old, count-append test before (d ∷ after)),
      omega (arith, ap (count test) e, old),
    )

-- A call whose connection is current, and which has not raised the generation.
abbrev pub is_numbering : CallPhase → Bool
is_numbering numbering = true
is_numbering _ = false

-- The generation counts all connections that were current but for those of such calls.
abbrev pub IsNumbered : ConnectionHandle → Type 0
IsNumbered h = (n : ℕ) × (h.opened ≡ n + count is_numbering h.calls) × (h.generation ≡ u64 n)

-- Where a call moves on that neither was such a call nor is one.
pub moved-IsNumbered :
    (h : ConnectionHandle) (before after : List CallPhase) (c d : CallPhase)
    → h.calls ≡ before ++ c ∷ after
    → is_numbering c ≡ false
    → is_numbering d ≡ false
    → IsNumbered h
    → IsNumbered (with_calls h before d after)
moved-IsNumbered h before after c d e was_not is_not (n, all, same) =
    let m = count-moved is_numbering h.calls before after c d e in (n, ground (arith, all, m), same)

pub live-unnumbered :
    (h : ConnectionHandle) (d : CallPhase)
    → is_numbering d ≡ false
    → is_numbering (live h d) ≡ false
unfolding live
live-unnumbered h d e = ground arith

pub start_attempts-unnumbered :
    (reconnect : Option ReconnectPolicy) → is_numbering (start_attempts reconnect) ≡ false
start_attempts-unnumbered none = refl
start_attempts-unnumbered (some policy) = refl

after_policy-unnumbered :
    (answer : Option Duration) (failures : ℕ) (last : Option String)
    → is_numbering (after_policy answer failures last) ≡ false
after_policy-unnumbered none failures last = refl
after_policy-unnumbered (some delay) failures last = ground arith

pub ask_policy-unnumbered :
    (reconnect : Option ReconnectPolicy) (failures : ℕ) (last : Option String)
    → is_numbering (ask_policy reconnect failures last) ≡ false
ask_policy-unnumbered none failures last = refl
ask_policy-unnumbered (some policy) failures last =
    after_policy-unnumbered (policy.delay_of (attempt_of failures last)) failures last
