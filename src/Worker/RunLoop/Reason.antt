-- ===== src/Worker/RunLoop/Reason.antt =====
-- Why `Worker::run` (crates/core/src/worker.rs) returns `Ok(())`.
use queuey.Worker.RunLoop.Watch.{to_start, Step-IsWatched, IsWatched}
use queuey.Common.{ℕ, ◌≡◌, ◌⊎◌, inl, inr, refl, ap, true, none, List, [], ◌∷◌, length, arith}
use queuey.QueueConfig.{QueueConfig}
use queuey.Worker.RunLoop.{finished, Session, start_run}
use queuey.Worker.RunLoop.Steps.{Run, start, then_step}
use queuey.Worker.RunLoop.Limits.{IsSound, Run-IsSound, start_run-IsSound, has_left}

no_queue : (queues : List QueueConfig) → length queues ≡ 0 → queues ≡ []
no_queue [] h = refl
no_queue (config ∷ queues) h = absurd (omega arith)

module _ {D : Type 0} where
  Run-IsWatched :
      {concurrency capacity started : ℕ} {s t : Session D} {n : ℕ} {ds : List D}
      → Run s n ds t
      → IsSound concurrency capacity s
      → IsWatched started s
      → IsWatched started t
  Run-IsWatched start v w = w
  Run-IsWatched (then_step before step) v w =
      Step-IsWatched step (Run-IsSound before v) (Run-IsWatched before v w)

  start_run-IsWatched :
      (queues : List QueueConfig) (concurrency : ℕ)
      → IsWatched {D = D} (length queues) (start_run queues concurrency)
  unfolding start_run
  start_run-IsWatched queues concurrency = record {
    all_started = λ ok. omega arith;
    last_words = λ loop. omega arith;
    reason = λ left ok. absurd (cc);
  }

  -- `run` returns `Ok(())` only if a shutdown was asked for or the worker has no queue at all.
  pub Run-reason :
      (queues : List QueueConfig) (concurrency : ℕ) {n : ℕ} {ds : List D} {t : Session D}
      → Run (start_run queues concurrency) n ds t
      → t.phase ≡ finished
      → t.outcome ≡ none
      → (t.shutdown ≡ true) ⊎ (queues ≡ [])
  Run-reason queues concurrency {t} run over ok =
      let w =
        Run-IsWatched run (start_run-IsSound queues concurrency)
          (start_run-IsWatched queues concurrency) in
      elim (w.reason (ap has_left over) ok) [
        | inl told ↦ inl told
        | inr none_there ↦ inr (
            no_queue queues
              (omega (arith, w.all_started ok, ap to_start over, ap length none_there)))
      ]
