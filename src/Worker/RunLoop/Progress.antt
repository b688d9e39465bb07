-- ===== src/Worker/RunLoop/Progress.antt =====
-- The drain of `Worker::run` (crates/core/src/worker.rs) is never stuck before `run` returns.
use queuey.Common.{
  ℕ, zero, suc, ◌+◌, ◌<◌, ◌≡◌, refl, ap, ◌∙◌, ◌⊎◌, inl, inr, Bool-cases, true, false, none, List,
  [], ◌∷◌, ◌++◌, length, arith,
}
use queuey.Worker.RunLoop.{
  starting, ConsumerEvent, ConsumerPhase, checking, waiting, sending, ending, gone, Consumer,
  LoopPhase, choosing, permitted, draining, drain_permitted, joining, finished, Session, is_gone,
  all_gone,
}
use queuey.Worker.RunLoop.Steps.{
  is_own, Step, checks, sees_stop, sends, sends_ended, job_ends, takes_drain_permit, drains,
  drained, joins,
}
use queuey.Worker.RunLoop.Limits.{IsSound, has_left, held}

module _ {D : Type 0} where
  find_alive :
      (cs : List (Consumer D))
      → all_gone cs ≡ false
      → (before : List (Consumer D)) × (c : Consumer D) × (after : List (Consumer D)) × (cs
          ≡ before ++ c ∷ after)
        × (is_gone c.phase ≡ false)
  find_alive [] h = absurd (cc)
  find_alive (c ∷ cs) h = elim (Bool-cases (is_gone c.phase)) [
    | inl over ↦
        let (before, d, after, e, alive) = find_alive cs (ground arith) in
        (c ∷ before, d, after, ap (◌∷◌ c) e, alive)
    | inr alive ↦ ([], c, cs, refl, alive)
  ]

  -- Without anything that a stream gives and without the handle.
  abbrev pub CanStep : Session D → Type 0
  CanStep s = (ds : List D) × (t : Session D) × (step : Step s ds t) × (is_own step ≡ true)

  consumer_moves :
      (s : Session D) (before : List (Consumer D)) (c : Consumer D) (after : List (Consumer D))
      (phase : ConsumerPhase D)
      → s.consumers ≡ before ++ c ∷ after
      → c.phase ≡ phase
      → is_gone c.phase ≡ false
      → s.stop ≡ true
      → length s.channel < s.capacity
      → CanStep s
  consumer_moves s before c after checking e at alive stop room =
      (_, _, checks before c after e at, refl)
  consumer_moves s before c after waiting e at alive stop room =
      (_, _, sees_stop before c after e at stop, refl)
  consumer_moves s before c after (sending event) e at alive stop room =
      (_, _, sends before c after event e at room, refl)
  consumer_moves s before c after ending e at alive stop room =
      (_, _, sends_ended before c after e at room, refl)
  consumer_moves s before c after gone e at alive stop room = absurd (cc (ap is_gone at))

  job_moves : (s : Session D) (jobs : List D) → s.in_flight ≡ jobs → 0 < length jobs → CanStep s
  job_moves s [] e h = absurd (omega arith)
  job_moves s (d ∷ jobs) e h = (_, _, job_ends [] d jobs e, refl)

  -- In the drain, without a permit and with one.
  draining_moves :
      (s : Session D) (permits concurrency : ℕ)
      → s.permits ≡ permits
      → s.phase ≡ draining
      → s.permits + length s.in_flight + held s.phase ≡ concurrency
      → 0 < concurrency
      → CanStep s
  draining_moves s zero concurrency e at slots some' =
      job_moves s s.in_flight refl (omega (arith, ap held at))
  draining_moves s (suc free) concurrency e at slots some' =
      (_, _, takes_drain_permit free at e, refl)

  drain_permitted_moves :
      (s : Session D) (channel : List (ConsumerEvent D))
      → s.channel ≡ channel
      → s.phase ≡ drain_permitted
      → s.stop ≡ true
      → 0 < s.capacity
      → CanStep s
  drain_permitted_moves s (event ∷ rest) e at stop room = (_, _, drains event rest at e, refl)
  drain_permitted_moves s [] e at stop room = elim (Bool-cases (all_gone s.consumers)) [
    | inl over ↦ (_, _, drained at e over, refl)
    | inr alive ↦
        let (before, c, after, split, living) = find_alive s.consumers alive in
        consumer_moves s before c after c.phase split refl living stop (omega (arith, ap length e))
  ]

  joining_moves :
      (s : Session D) (jobs : List D)
      → s.in_flight ≡ jobs
      → s.phase ≡ joining
      → all_gone s.consumers ≡ true
      → CanStep s
  joining_moves s [] e at over = (_, _, joins none at over e, refl)
  joining_moves s (d ∷ jobs) e at over = (_, _, job_ends [] d jobs e, refl)

  -- Until `run` returns, some task of the drain can go on.
  pub moves_on :
      {concurrency capacity : ℕ} (s : Session D) (phase : LoopPhase)
      → s.phase ≡ phase
      → IsSound concurrency capacity s
      → 0 < concurrency
      → 0 < capacity
      → has_left s.phase ≡ true
      → (s.phase ≡ finished) ⊎ CanStep s
  moves_on s (starting queues) at v c k left = absurd (ground arith)
  moves_on s choosing at v c k left = absurd (ground arith)
  moves_on s permitted at v c k left = absurd (ground arith)
  moves_on s draining at v c k left = inr (draining_moves s s.permits _ refl at v.slots c)
  moves_on s drain_permitted at v c k left =
      inr (drain_permitted_moves s s.channel refl at (v.stops ∙ left) (omega (arith, v.wide)))
  moves_on s joining at v c k left =
      inr (joining_moves s s.in_flight refl at (v.all_sent (ground arith)).1)
  moves_on s finished at v c k left = inl at
