-- ===== src/Rabbitmq/Connection/Tests.antt =====
-- A handle whose connection drops; one task dials a new one while another closes the handle.
use queuey.Rabbitmq.Connection.Numbering.{is_numbering}
use queuey.Common.{
  ℕ, ◌⊎◌, ◌+◌, ◌≤◌, ◌≡◌, refl, true, false, Option, none, some, [], ◌∷◌, count, if◌then◌else◌,
}
use queuey.Rabbitmq.Options.{ReconnectPolicy}
use queuey.Rabbitmq.Connection.{
  numbering, ConnectionHandle, CallPhase, installing, new_handle, live, check_open, u64, has_lock,
  drops, marks_closing, asks, looks, takes_lock, looks_again, decides, opens, dials, checks_closing,
  installs, Run, start, then_step,
}
use queuey.Rabbitmq.Connection.SingleFlight.{connections_counted}
use queuey.Rabbitmq.Connection.Closing.{is_installing, closing_final}

abbrev at_once : Option ReconnectPolicy
at_once = some (record { delay_of = λ attempt. some 0 })

abbrev with_call : CallPhase → ConnectionHandle
with_call phase = record {
  reconnect = at_once;
  connected = false;
  generation = 1;
  reconnecting = true;
  closing = false;
  calls = phase ∷ [];
  opened = 1;
  lost = 1;
}

abbrev past_test : ConnectionHandle
past_test = record (with_call installing) { closing = true }

to_past_test : Run (new_handle at_once) past_test
unfolding new_handle live check_open
to_past_test =
    then_step
      (then_step
        (then_step
          (then_step
            (then_step
              (then_step
                (then_step
                  (then_step (then_step (then_step start (drops refl)) asks) (looks [] [] refl))
                  (takes_lock [] [] refl refl))
                (looks_again [] [] refl))
              (decides [] [] 0 none refl))
            (opens [] [] 0 none refl))
          (dials [] [] 0 none refl))
        (checks_closing [] [] refl))
      marks_closing

abbrev replaced : ConnectionHandle
replaced = record past_test { connected = true; calls = numbering ∷ []; opened = 2 }

replaces : Run past_test replaced
replaces = then_step start (installs [] [] refl)

connections_counted_example :
    (count has_lock past_test.calls ≤ 1)
    × (past_test.opened ≡ past_test.lost + (if past_test.connected then 1 else 0))
    × ((numbered : ℕ) × (past_test.opened ≡ numbered + count is_numbering past_test.calls)
        × (past_test.generation ≡ u64 numbered))
connections_counted_example = connections_counted at_once to_past_test

closing_final_example :
    (replaced.closing ≡ true)
    × (replaced.opened ≤ past_test.opened + count is_installing past_test.calls)
    × (count is_installing past_test.calls ≤ 1)
    × ((count is_installing past_test.calls ≡ 0)
        ⊎ ((j : ConnectionHandle) × Run past_test j × (j.closing ≡ true) × (j.connected ≡ true)))
closing_final_example = closing_final at_once to_past_test refl replaces
