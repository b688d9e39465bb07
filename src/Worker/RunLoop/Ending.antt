-- ===== src/Worker/RunLoop/Ending.antt =====
-- What holds when `Worker::run` (crates/core/src/worker.rs) returns.
use queuey.Common.{ℕ, ◌≡◌, refl, Bool, true, List, [], ◌∷◌, count, arith}
use queuey.QueueConfig.{QueueConfig}
use queuey.Worker.RunLoop.{
  ConsumerPhase, checking, waiting, sending, ending, gone, Consumer, finished, Session, start_run,
  is_gone, all_gone,
}
use queuey.Worker.RunLoop.Steps.{Run}
use queuey.Worker.RunLoop.Flow.{in_hands, in_phase, Run-flow}
use queuey.Worker.RunLoop.Limits.{Run-IsSound, start_run-IsSound}

module _ {D : Type 0} where
  is_gone-in_phase :
      (test : D → Bool) (phase : ConsumerPhase D) → is_gone phase ≡ true → in_phase test phase ≡ 0
  is_gone-in_phase test gone h = refl
  is_gone-in_phase test checking h = absurd (cc)
  is_gone-in_phase test waiting h = absurd (cc)
  is_gone-in_phase test (sending event) h = absurd (cc)
  is_gone-in_phase test ending h = absurd (cc)

  all_gone-in_hands :
      (test : D → Bool) (cs : List (Consumer D)) → all_gone cs ≡ true → in_hands test cs ≡ 0
  all_gone-in_hands test [] h = refl
  all_gone-in_hands test (c ∷ cs) h =
      ground (arith, is_gone-in_phase test c.phase, all_gone-in_hands test cs)

  -- When `run` has returned, every delivery that any consumer took off its stream has been processed,
  -- once, whether a shutdown, an error of a stream, the end of one or a consumer that could not be
  -- started ended the run, and in whatever order the tasks ran: no job runs on, the channel is
  -- empty, and all consumers have ended.
  pub Run-processed :
      (test : D → Bool) (queues : List QueueConfig) (concurrency : ℕ) {n : ℕ} {ds : List D}
      {t : Session D}
      → Run (start_run queues concurrency) n ds t
      → t.phase ≡ finished
      → (count test t.processed ≡ count test ds)
        × (t.in_flight ≡ [])
        × (t.channel ≡ [])
        × (all_gone t.consumers ≡ true)
  unfolding start_run
  Run-processed test queues concurrency {t} run over =
      let v = Run-IsSound run (start_run-IsSound queues concurrency) in
      let (empty, gone_all) = v.all_sent (ground arith) in
      let idle = v.all_run (ground arith) in
      (
        ground (arith, Run-flow test run, all_gone-in_hands test t.consumers gone_all, empty, idle),
        idle,
        empty,
        gone_all,
      )
