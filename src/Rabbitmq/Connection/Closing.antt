-- ===== src/Rabbitmq/Connection/Closing.antt =====
-- A closing handle (crates/rabbitmq/src/connection.rs) opens no connection, but for one that was past its test.
use queuey.Rabbitmq.Connection.Numbering.{count-moved}
use queuey.Common.{
  inr, inl, ap, ◌⊎◌, String, ℕ, ◌+◌, ◌≤◌, ◌≡◌, refl, Bool, true, false, Option, none, some, List,
  [], ◌∷◌, ◌++◌, count, arith,
}
use queuey.Rabbitmq.Options.{ReconnectPolicy}
use queuey.Rabbitmq.Connection.{
  numbers, numbering, attempt_of, Duration, u32, ConnectionHandle, CallPhase, starting, queued,
  locked, deciding, sleeping, opening, dialling, dialled, installing, redeclaring, returned,
  new_handle, live, check_open, ask_policy, start_attempts, after_policy, has_lock, Step, drops,
  marks_closing, asks, looks, takes_lock, looks_again, decides, wakes, opens, dial_fails, dials,
  checks_closing, installs, redeclares, Run, start, then_step,
}
use queuey.Rabbitmq.Connection.SingleFlight.{Run-IsValid, new_handle-IsValid}

-- A call that is past its last test of `closing`.
abbrev pub is_installing : CallPhase → Bool
is_installing installing = true
is_installing _ = false

installing-le : (calls : List CallPhase) → count is_installing calls ≤ count has_lock calls
installing-le [] = omega arith
installing-le (c ∷ cs) = ground (arith, installing-le cs)

after_policy-installs_not :
    (answer : Option Duration) (failures : ℕ) (last : Option String)
    → is_installing (after_policy answer failures last) ≡ false
after_policy-installs_not none failures last = refl
after_policy-installs_not (some delay) failures last = ground arith

ask_policy-installs_not :
    (reconnect : Option ReconnectPolicy) (failures : ℕ) (last : Option String)
    → is_installing (ask_policy reconnect failures last) ≡ false
ask_policy-installs_not none failures last = refl
ask_policy-installs_not (some policy) failures last =
    after_policy-installs_not (policy.delay_of (attempt_of failures last)) failures last

-- What a closing handle keeps.
abbrev StaysClosed : ConnectionHandle → ConnectionHandle → Type 0
StaysClosed h i =
    (i.closing ≡ true)
    × (i.opened + count is_installing i.calls ≤ h.opened + count is_installing h.calls)

Step-StaysClosed : {h i : ConnectionHandle} → Step h i → h.closing ≡ true → StaysClosed h i
unfolding live check_open
Step-StaysClosed (drops up) over = (over, omega arith)
Step-StaysClosed marks_closing over = (refl, omega arith)
Step-StaysClosed asks over = (over, omega arith)
Step-StaysClosed {h} (looks before after e) over =
    let m = count-moved is_installing h.calls before after starting (live h queued) e in
    (over, ground (arith, m))
Step-StaysClosed {h} (takes_lock before after e free) over =
    let m = count-moved is_installing h.calls before after queued locked e in
    (over, omega (arith, m.0))
Step-StaysClosed {h} (looks_again before after e) over =
    let m =
      count-moved is_installing h.calls before after locked (live h (start_attempts h.reconnect))
        e in
    (over, ground (arith, m))
Step-StaysClosed {h} (decides before after failures last e) over =
    let m =
      count-moved is_installing h.calls before after (deciding failures last)
        (ask_policy h.reconnect failures last) e in
    (over, ground (arith, m, ask_policy-installs_not h.reconnect failures last))
Step-StaysClosed {h} (wakes before after failures last e) over =
    let m =
      count-moved is_installing h.calls before after (sleeping failures last)
        (check_open h (opening failures last)) e in
    (over, ground (arith, m))
Step-StaysClosed {h} (opens before after failures last e) over =
    let m =
      count-moved is_installing h.calls before after (opening failures last)
        (check_open h (dialling failures last)) e in
    (over, ground (arith, m))
Step-StaysClosed {h} (dial_fails before after failures last error e) over =
    let m =
      count-moved is_installing h.calls before after (dialling failures last)
        (deciding (u32 (failures + 1)) (some error)) e in
    (over, omega (arith, m.0))
Step-StaysClosed {h} (dials before after failures last e) over =
    let m = count-moved is_installing h.calls before after (dialling failures last) dialled e in
    (over, omega (arith, m.0))
Step-StaysClosed {h} (checks_closing before after e) over =
    let m = count-moved is_installing h.calls before after dialled (check_open h installing) e in
    (over, ground (arith, m))
Step-StaysClosed {h} (installs before after e) over =
    let m = count-moved is_installing h.calls before after installing numbering e in
    (over, omega (arith, m.0))
Step-StaysClosed {h} (numbers before after e) over =
    let m = count-moved is_installing h.calls before after numbering redeclaring e in
    (over, omega (arith, m.0))
Step-StaysClosed {h} (redeclares before after e) over =
    let m = count-moved is_installing h.calls before after redeclaring (returned none) e in
    (over, omega (arith, m.0))

Run-StaysClosed : {h i : ConnectionHandle} → Run h i → h.closing ≡ true → StaysClosed h i
Run-StaysClosed start over = (over, omega arith)
Run-StaysClosed (then_step before step) over =
    let (still, few) = Run-StaysClosed before over in
    let (closed', fewer) = Step-StaysClosed step still in (closed', omega arith)

-- One more call in front of those that were searched.
abbrev behind :
    {calls : List CallPhase} (c : CallPhase)
    → (before : List CallPhase) × (after : List CallPhase) × (calls ≡ before ++ installing ∷ after)
    → (before : List CallPhase) × (after : List CallPhase) × (c ∷ calls
        ≡ before ++ installing ∷ after)
behind c (before, after, e) = (c ∷ before, after, ap (λ cs. c ∷ cs) e)

-- Whether a call is past its last test, and which.
find_installing :
    (calls : List CallPhase)
    → (count is_installing calls ≡ 0)
      ⊎ ((before : List CallPhase) × (after : List CallPhase) × (calls
            ≡ before ++ installing ∷ after))
find_installing [] = inl refl
find_installing (installing ∷ calls) = inr ([], calls, refl)
find_installing (c ∷ calls) = elim (find_installing calls) [
  | inl none_there ↦ inl (ground arith)
  | inr there ↦ inr (behind c there)
]

-- Once a handle is closing it stays so, and from then on it makes at most as many connections current
-- as there are calls past their last test of `closing`, which is one or none. If there is such a
-- call, it can indeed leave the handle closing and with a live connection.
pub closing_final :
    (reconnect : Option ReconnectPolicy) {h i : ConnectionHandle}
    → Run (new_handle reconnect) h
    → h.closing ≡ true
    → Run h i
    → (i.closing ≡ true)
      × (i.opened ≤ h.opened + count is_installing h.calls)
      × (count is_installing h.calls ≤ 1)
      × ((count is_installing h.calls ≡ 0)
          ⊎ ((j : ConnectionHandle) × Run h j × (j.closing ≡ true) × (j.connected ≡ true)))
closing_final reconnect {h} run over later =
    let v = Run-IsValid run (new_handle-IsValid reconnect) in
    let (still, few) = Run-StaysClosed later over in
    let l = installing-le h.calls in
    (
      still,
      omega (arith, few),
      ground (arith, v.one_holder),
      elim (find_installing h.calls) [
        | inl none_there ↦ inl none_there
        | inr (before, after, e) ↦ inr (_, then_step start (installs before after e), over, refl)
      ],
    )
