-- ===== src/Rabbitmq/Connection/SingleFlight.antt =====
-- One connection per outage (crates/rabbitmq/src/connection.rs).
use queuey.Rabbitmq.Connection.Valid.{
  IsValid, moves-IsValid, with_calls-IsValid, takes_lock-IsValid, installs-IsValid, numbers-IsValid,
  live-idle, live-allowed,
}
use queuey.Rabbitmq.Connection.Numbering.{
  is_numbering, live-unnumbered, start_attempts-unnumbered, ask_policy-unnumbered,
}
use queuey.Common.{ℕ, ◌+◌, ◌≤◌, ◌≡◌, refl, Option, none, inl, inr, count, arith, if◌then◌else◌}
use queuey.Rabbitmq.Options.{ReconnectPolicy}
use queuey.Rabbitmq.Connection.{
  numbers, ConnectionHandle, starting, queued, locked, deciding, sleeping, opening, dialling,
  dialled, redeclaring, returned, u64, new_handle, live, check_open, start_attempts, has_lock, Step,
  drops, marks_closing, asks, looks, takes_lock, looks_again, decides, wakes, opens, dial_fails,
  dials, checks_closing, installs, redeclares, Run, start, then_step,
}

Step-IsValid : {h i : ConnectionHandle} → Step h i → IsValid h → IsValid i
unfolding check_open
Step-IsValid (drops up) v = record {
  one_holder = v.one_holder;
  all_dead = λ e. absurd (cc);
  counted = ground (arith, v.counted);
  numbered = v.numbered;
}
Step-IsValid marks_closing v = record {
  one_holder = v.one_holder;
  all_dead = v.all_dead;
  counted = v.counted;
  numbered = v.numbered;
}
Step-IsValid asks v = record {
  one_holder = omega (arith, v.one_holder);
  all_dead = λ up. omega (arith, v.all_dead up);
  counted = v.counted;
  numbered = let (n, all, same) = v.numbered in (n, omega (arith, all), same);
}
Step-IsValid {h} (looks before after e) v =
    let (free, idle) = live-idle h in
    with_calls-IsValid h before after starting (live h queued) e refl free refl idle refl
      (live-unnumbered h queued refl) v
Step-IsValid {h} (takes_lock before after e free) v = takes_lock-IsValid h before after e free v
Step-IsValid {h} (looks_again before after e) v =
    moves-IsValid h before after locked _ e refl refl
      (live-unnumbered h (start_attempts h.reconnect) (start_attempts-unnumbered h.reconnect))
      (elim (live-allowed h (start_attempts h.reconnect)) [ inl a ↦ inl a | inr a ↦ inr (inr a) ]) v
Step-IsValid {h} (decides before after failures last e) v =
    moves-IsValid h before after (deciding failures last) _ e refl refl
      (ask_policy-unnumbered h.reconnect failures last) (inr (inl refl)) v
Step-IsValid {h} (wakes before after failures last e) v =
    moves-IsValid h before after (sleeping failures last) _ e refl refl (ground arith)
      (inr (inl refl)) v
Step-IsValid {h} (opens before after failures last e) v =
    moves-IsValid h before after (opening failures last) _ e refl refl (ground arith)
      (inr (inl refl)) v
Step-IsValid {h} (dial_fails before after failures last error e) v =
    moves-IsValid h before after (dialling failures last) _ e refl refl (ground arith)
      (inr (inl refl)) v
Step-IsValid {h} (dials before after failures last e) v =
    moves-IsValid h before after (dialling failures last) _ e refl refl (ground arith)
      (inr (inl refl)) v
Step-IsValid {h} (checks_closing before after e) v =
    moves-IsValid h before after dialled _ e refl refl (ground arith) (inr (inl refl)) v
Step-IsValid {h} (installs before after e) v = installs-IsValid h before after e v
Step-IsValid {h} (numbers before after e) v = numbers-IsValid h before after e v
Step-IsValid {h} (redeclares before after e) v =
    moves-IsValid h before after redeclaring (returned none) e refl refl refl (inl refl) v

pub new_handle-IsValid : (reconnect : Option ReconnectPolicy) → IsValid (new_handle reconnect)
unfolding new_handle
new_handle-IsValid reconnect = record {
  one_holder = refl;
  all_dead = λ up. refl;
  counted = refl;
  numbered = (1, omega arith, refl);
}

pub Run-IsValid : {h i : ConnectionHandle} → Run h i → IsValid h → IsValid i
Run-IsValid start v = v
Run-IsValid (then_step before step) v = Step-IsValid step (Run-IsValid before v)

-- However many tasks ask for a connection, and in whatever order they run: at most one of them at
-- a time has the lock under which connections are replaced. The connections that were ever current
-- are those that were lost and the one that is up, if it is, so every replacement follows a loss of
-- its own. The generation counts the connections that were ever current, as a `u64`, but for that of
-- a call which has made its connection current and has not raised the generation yet.
pub connections_counted :
    (reconnect : Option ReconnectPolicy) {h : ConnectionHandle}
    → Run (new_handle reconnect) h
    → (count has_lock h.calls ≤ 1)
      × (h.opened ≡ h.lost + (if h.connected then 1 else 0))
      × ((numbered : ℕ) × (h.opened ≡ numbered + count is_numbering h.calls)
          × (h.generation ≡ u64 numbered))
connections_counted reconnect run =
    let v = Run-IsValid run (new_handle-IsValid reconnect) in
    (ground (arith, v.one_holder), ground (arith, v.counted), v.numbered)
