-- ===== src/Worker/RunLoop/Drain.antt =====
-- The drain of `Worker::run` (crates/core/src/worker.rs) comes to its end.
use queuey.Worker.RunLoop.Progress.{moves_on, CanStep}
use queuey.Worker.RunLoop.Work.{Step-work_left, work_left}
use queuey.Common.{ℕ, zero, suc, ◌+◌, ◌<◌, ◌≤◌, ◌≡◌, refl, ◌⊎◌, inl, inr, true, List, arith}
use queuey.Worker.RunLoop.{start_run, QueueConfig, finished, Session}
use queuey.Worker.RunLoop.Steps.{all_own, Run, start, then_step}
use queuey.Worker.RunLoop.Limits.{start_run-IsSound, Run-IsSound, IsSound, Step-IsSound, has_left}

module _ {D : Type 0} where
  -- A history of the drain is no longer than the work that is left.
  pub Run-le-work_left :
      {concurrency capacity : ℕ} {s t : Session D} {n : ℕ} {ds : List D}
      → Run s n ds t
      → IsSound concurrency capacity s
      → has_left s.phase ≡ true
      → (n + work_left t ≤ work_left s) × IsSound concurrency capacity t × (has_left t.phase ≡ true)
  Run-le-work_left start v left = (omega arith, v, left)
  Run-le-work_left (then_step before step) v left =
      let (bound, sound, later) = Run-le-work_left before v left in
      let (falls, on) = Step-work_left step sound later in
      (omega (arith, bound, falls), Step-IsSound step sound, on)

  abbrev pub CanFinish : Session D → Type 0
  CanFinish s =
      (n : ℕ) × (ds : List D) × (t : Session D) × (run : Run s n ds t) × (all_own run ≡ true)
      × (t.phase ≡ finished)

  runs_on :
      {concurrency capacity : ℕ} (fuel : ℕ) {s t : Session D} {n : ℕ} {ds : List D}
      → (run : Run s n ds t) → all_own run ≡ true
      → IsSound concurrency capacity t
      → 0 < concurrency
      → 0 < capacity
      → has_left t.phase ≡ true
      → work_left t < fuel
      → CanFinish s
  runs_on zero run own v c k left h = absurd (omega arith)
  runs_on (suc fuel) {t} run own v c k left h = elim (moves_on t t.phase refl v c k left) [
    | inl done ↦ (_, _, t, run, own, done)
    | inr (es, u, step, by_itself) ↦
        let (falls, on) = Step-work_left step v left in
        runs_on fuel (then_step run step) (ground (arith, by_itself, own)) (Step-IsSound step v) c k
          on (omega arith)
  ]

  -- Once the loop is left, by a shutdown or an error or because a consumer could not be started, `run`
  -- comes to its end: every order of the tasks' steps stops after at most `work_left` of them; before
  -- `run` has returned, in no order is it stuck, even if no stream gives anything any more and nobody
  -- uses the handle; and so there is an order of such steps in which it returns.
  pub drain_ends :
      (queues : List QueueConfig) (concurrency : ℕ) {n : ℕ} {ds : List D} {t : Session D}
      → 0 < concurrency
      → Run (start_run queues concurrency) n ds t
      → has_left t.phase ≡ true
      → ((m : ℕ) (es : List D) (u : Session D)
          → Run t m es u
          → (m ≤ work_left t) × ((u.phase ≡ finished) ⊎ CanStep u))
        × CanFinish t
  drain_ends queues concurrency {t} c run left =
      let v = Run-IsSound run (start_run-IsSound queues concurrency) in
      (
        λ m es u more.
            let (bound, sound, on) = Run-le-work_left more v left in
            (omega (arith, bound), moves_on u u.phase refl sound c (omega arith) on),
        runs_on (suc (work_left t)) start refl v c (omega arith) left (omega arith),
      )
