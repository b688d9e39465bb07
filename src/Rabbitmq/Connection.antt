-- ===== src/Rabbitmq/Connection.antt =====
-- `ConnectionHandle` of crates/rabbitmq/src/connection.rs: the tasks that ask for a connection while it drops,
-- is replaced and is closed, as steps of one of them in any order. A step is what a task does
-- between two points where another may run. Whether dialling succeeds, when the connection drops, and
-- the text of an error are lapin's and the broker's.
pub mod Numbering
pub mod Valid
pub mod SingleFlight
pub mod Closing
mod Tests
use queuey.Common.{
  ℕ, ◌+◌, ◌%◌, ◌≡◌, ◌==◌, String, Bool, true, false, Option, none, some, List, [], ◌∷◌, ◌++◌,
  if◌then◌else◌,
}
use queuey.Envelope.{u32}
use queuey.Retry.{Duration}
use queuey.Reconnect.{Attempt, connection, first_attempt, attempt_after}
use queuey.Rabbitmq.Options.{ReconnectPolicy}
use queuey.Rabbitmq.Errors.{RabbitMqError, closed, connection_lost, reconnect_exhausted}

-- Where a call of `ensure_connected` stands; from `locked` to `redeclaring` it holds `reconnecting`.
pub data CallPhase : Type 0 where
  starting queued locked : CallPhase
  deciding : (failures : ℕ) (last : Option String) → CallPhase
  sleeping opening dialling : (failures : ℕ) (last : Option String) → CallPhase
  dialled installing numbering redeclaring : CallPhase
  returned : Option RabbitMqError → CallPhase

pub record ConnectionHandle : Type 0 where
  pub reconnect : Option ReconnectPolicy  -- of the options
  pub connected : Bool  -- of `current`
  pub generation : ℕ
  pub reconnecting : Bool  -- the lock is held
  pub closing : Bool
  pub calls : List CallPhase
  pub opened : ℕ  -- connections that were ever current
  pub lost : ℕ  -- those that dropped or were closed

abbrev pub u64 : ℕ → ℕ
u64 n = n % 18446744073709551616

-- ConnectionHandle::connect, when it dials successfully
pub new_handle : Option ReconnectPolicy → ConnectionHandle
new_handle reconnect = record {
  reconnect = reconnect;
  connected = true;
  generation = 1;
  reconnecting = false;
  closing = false;
  calls = [];
  opened = 1;
  lost = 0;
}

-- ConnectionHandle::live, as what a call does that is not yet allowed to dial
pub live : ConnectionHandle → (next : CallPhase) → CallPhase
live handle next =
    if handle.closing
    then returned (some closed)
    else if handle.connected
    then returned none
    else next

-- ConnectionHandle::check_open
pub check_open : ConnectionHandle → (next : CallPhase) → CallPhase
check_open handle next = if handle.closing then returned (some closed) else next

abbrev pub start_attempts : Option ReconnectPolicy → CallPhase
start_attempts none = returned (some connection_lost)
start_attempts (some policy) = deciding 0 none

abbrev pub attempt_of : ℕ → Option String → Attempt String
attempt_of failures none = first_attempt connection
attempt_of failures (some e) = attempt_after connection failures e

-- The policy's answer.
abbrev pub after_policy : Option Duration → ℕ → Option String → CallPhase
after_policy none failures last = returned (some (reconnect_exhausted failures last))
after_policy (some delay) failures last =
    if delay == 0 then opening failures last else sleeping failures last

abbrev pub ask_policy : Option ReconnectPolicy → ℕ → Option String → CallPhase
ask_policy none failures last = returned (some connection_lost)
ask_policy (some policy) failures last =
    after_policy (policy.delay_of (attempt_of failures last)) failures last

-- Whether a phase has the lock.
abbrev pub has_lock : CallPhase → Bool
has_lock starting = false
has_lock queued = false
has_lock (returned result) = false
has_lock _ = true

abbrev pub with_calls :
    ConnectionHandle → List CallPhase → CallPhase → List CallPhase → ConnectionHandle
with_calls handle before phase after = record handle { calls = before ++ phase ∷ after }

-- A call that has the lock goes on; if it returns, the guard is dropped.
abbrev pub moves : ConnectionHandle → List CallPhase → CallPhase → List CallPhase → ConnectionHandle
moves handle before phase after = record handle {
  calls = before ++ phase ∷ after;
  reconnecting = has_lock phase;
}

pub data Step (h : ConnectionHandle) : ConnectionHandle → Type 0 where
  drops : h.connected ≡ true → Step h (record h { connected = false; lost = h.lost + 1 })
  -- mark_closing
  marks_closing : Step h (record h { closing = true })
  asks : Step h (record h { calls = starting ∷ h.calls })
  looks :
      (before after : List CallPhase)
      → h.calls ≡ before ++ starting ∷ after
      → Step h (with_calls h before (live h queued) after)
  takes_lock :
      (before after : List CallPhase)
      → h.calls ≡ before ++ queued ∷ after
      → h.reconnecting ≡ false
      → Step h (moves h before locked after)
  looks_again :
      (before after : List CallPhase)
      → h.calls ≡ before ++ locked ∷ after
      → Step h (moves h before (live h (start_attempts h.reconnect)) after)
  decides :
      (before after : List CallPhase) (failures : ℕ) (last : Option String)
      → h.calls ≡ before ++ deciding failures last ∷ after
      → Step h (moves h before (ask_policy h.reconnect failures last) after)
  -- sleep_unless_closing
  wakes :
      (before after : List CallPhase) (failures : ℕ) (last : Option String)
      → h.calls ≡ before ++ sleeping failures last ∷ after
      → Step h (moves h before (check_open h (opening failures last)) after)
  opens :
      (before after : List CallPhase) (failures : ℕ) (last : Option String)
      → h.calls ≡ before ++ opening failures last ∷ after
      → Step h (moves h before (check_open h (dialling failures last)) after)
  dial_fails :
      (before after : List CallPhase) (failures : ℕ) (last : Option String) (e : String)
      → h.calls ≡ before ++ dialling failures last ∷ after
      → Step h (moves h before (deciding (u32 (failures + 1)) (some e)) after)
  dials :
      (before after : List CallPhase) (failures : ℕ) (last : Option String)
      → h.calls ≡ before ++ dialling failures last ∷ after
      → Step h (moves h before dialled after)
  -- The test of `is_closing` after dialling.
  checks_closing :
      (before after : List CallPhase)
      → h.calls ≡ before ++ dialled ∷ after
      → Step h (moves h before (check_open h installing) after)
  -- install, up to the end of the write of `current`
  installs :
      (before after : List CallPhase)
      → h.calls ≡ before ++ installing ∷ after
      → Step h (record (moves h before numbering after) { connected = true; opened = h.opened + 1 })
  numbers :
      (before after : List CallPhase)
      → h.calls ≡ before ++ numbering ∷ after
      → Step h (record (moves h before redeclaring after) { generation = u64 (h.generation + 1) })
  redeclares :
      (before after : List CallPhase)
      → h.calls ≡ before ++ redeclaring ∷ after
      → Step h (moves h before (returned none) after)

pub data Run (h : ConnectionHandle) : ConnectionHandle → Type 0 where
  start : Run h h
  then_step : {i j : ConnectionHandle} → Run h i → Step i j → Run h j
