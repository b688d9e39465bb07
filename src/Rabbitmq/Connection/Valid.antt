-- ===== src/Rabbitmq/Connection/Valid.antt =====
-- What holds of the calls of a handle between their steps (crates/rabbitmq/src/connection.rs).
use queuey.Rabbitmq.Connection.Numbering.{count-moved, is_numbering, IsNumbered, moved-IsNumbered}
use queuey.Common.{
  ℕ, ◌+◌, ◌≤◌, ◌≡◌, refl, ap, Bool, true, false, List, [], ◌∷◌, ◌++◌, ◌⊎◌, ◌∙◌, count, count-append,
  arith, if◌then◌else◌,
}
use queuey.Rabbitmq.Connection.{
  numbering, ConnectionHandle, CallPhase, starting, queued, locked, installing, redeclaring,
  returned, u64, live, has_lock, with_calls, moves,
}

abbrev one_if : Bool → ℕ
one_if b = if b then 1 else 0

-- A call that found the connection dead under the lock, and has not replaced it.
abbrev pub is_rebuilding : CallPhase → Bool
is_rebuilding starting = false
is_rebuilding queued = false
is_rebuilding locked = false
is_rebuilding numbering = false
is_rebuilding redeclaring = false
is_rebuilding (returned result) = false
is_rebuilding _ = true

pub record IsValid (h : ConnectionHandle) : Type 0 where
  pub one_holder : count has_lock h.calls ≡ one_if h.reconnecting
  pub all_dead : h.connected ≡ true → count is_rebuilding h.calls ≡ 0
  pub counted : h.opened ≡ h.lost + one_if h.connected
  pub numbered : IsNumbered h

-- A rebuilding call has the lock.
rebuilding-le : (calls : List CallPhase) → count is_rebuilding calls ≤ count has_lock calls
rebuilding-le [] = omega arith
rebuilding-le (c ∷ cs) = ground (arith, rebuilding-le cs)

-- A call that has the lock moves on. It may only begin to rebuild where the connection is dead.
pub moves-IsValid :
    (h : ConnectionHandle) (before after : List CallPhase) (c d : CallPhase)
    → h.calls ≡ before ++ c ∷ after
    → has_lock c ≡ true
    → is_numbering c ≡ false
    → is_numbering d ≡ false
    → (is_rebuilding d ≡ false) ⊎ (is_rebuilding c ≡ true) ⊎ (h.connected ≡ false)
    → IsValid h
    → IsValid (moves h before d after)
moves-IsValid h before after c d e holds was_not is_not allowed v =
    let holders = count-moved has_lock h.calls before after c d e in
    let rebuilders = count-moved is_rebuilding h.calls before after c d e in
    record {
      one_holder = ground (arith, v.one_holder);
      all_dead = λ up. ground (arith, v.all_dead up);
      counted = v.counted;
      numbered = moved-IsNumbered h before after c d e was_not is_not v.numbered;
    }

-- A call that has no lock moves on without it.
pub with_calls-IsValid :
    (h : ConnectionHandle) (before after : List CallPhase) (c d : CallPhase)
    → h.calls ≡ before ++ c ∷ after
    → has_lock c ≡ false
    → has_lock d ≡ false
    → is_rebuilding c ≡ false
    → is_rebuilding d ≡ false
    → is_numbering c ≡ false
    → is_numbering d ≡ false
    → IsValid h
    → IsValid (with_calls h before d after)
with_calls-IsValid h before after c d e free still_free idle still_idle was_not is_not v =
    let holders = count-moved has_lock h.calls before after c d e in
    let rebuilders = count-moved is_rebuilding h.calls before after c d e in
    record {
      one_holder = ground (arith, v.one_holder);
      all_dead = λ up. ground (arith, v.all_dead up);
      counted = v.counted;
      numbered = moved-IsNumbered h before after c d e was_not is_not v.numbered;
    }

pub takes_lock-IsValid :
    (h : ConnectionHandle) (before after : List CallPhase)
    → h.calls ≡ before ++ queued ∷ after
    → h.reconnecting ≡ false
    → IsValid h
    → IsValid (moves h before locked after)
takes_lock-IsValid h before after e free v =
    let holders = count-moved has_lock h.calls before after queued locked e in
    let rebuilders = count-moved is_rebuilding h.calls before after queued locked e in
    record {
      one_holder = ground (arith, v.one_holder);
      all_dead = λ up. ground (arith, v.all_dead up);
      counted = v.counted;
      numbered = moved-IsNumbered h before after queued locked e refl refl v.numbered;
    }

u64_next : (n : ℕ) → u64 (u64 n + 1) ≡ u64 (n + 1)
u64_next n = omega arith

pub installs-IsValid :
    (h : ConnectionHandle) (before after : List CallPhase)
    → h.calls ≡ before ++ installing ∷ after
    → IsValid h
    → IsValid (record (moves h before numbering after) { connected = true; opened = h.opened + 1 })
installs-IsValid h before after e v =
    let holders = count-moved has_lock h.calls before after installing numbering e in
    let numberers = count-moved is_numbering h.calls before after installing numbering e in
    let b = rebuilding-le before in
    let a = rebuilding-le after in
    let split = count-append has_lock before (numbering ∷ after) in
    let split' = count-append is_rebuilding before (numbering ∷ after) in
    let (n, all, same) = v.numbered in
    record {
      one_holder = ground (arith, v.one_holder);
      all_dead = λ up. ground (
        arith,
        v.one_holder,
        count-moved is_rebuilding h.calls before after installing numbering e,
      );
      counted = ground (
        arith,
        v.counted,
        v.all_dead,
        count-moved is_rebuilding h.calls before after installing numbering e,
      );
      numbered = (n, omega (arith, all, numberers.0), same);
    }

pub numbers-IsValid :
    (h : ConnectionHandle) (before after : List CallPhase)
    → h.calls ≡ before ++ numbering ∷ after
    → IsValid h
    → IsValid (record (moves h before redeclaring after) { generation = u64 (h.generation + 1) })
numbers-IsValid h before after e v =
    let holders = count-moved has_lock h.calls before after numbering redeclaring e in
    let rebuilders = count-moved is_rebuilding h.calls before after numbering redeclaring e in
    let numberers = count-moved is_numbering h.calls before after numbering redeclaring e in
    let (n, all, same) = v.numbered in
    record {
      one_holder = ground (arith, v.one_holder);
      all_dead = λ up. ground (arith, v.all_dead up);
      counted = v.counted;
      numbered = (n + 1, omega (arith, all, numberers.0), ap (λ g. u64 (g + 1)) same ∙ u64_next n);
    }

pub live-idle :
    (h : ConnectionHandle)
    → (has_lock (live h queued) ≡ false) × (is_rebuilding (live h queued) ≡ false)
unfolding live
live-idle h = (ground arith, ground arith)

pub live-allowed :
    (h : ConnectionHandle) (d : CallPhase)
    → (is_rebuilding (live h d) ≡ false) ⊎ (h.connected ≡ false)
unfolding live
live-allowed h d = ground arith
