-- ===== src/Worker/RunLoop/Watch.antt =====
-- What the loop of `Worker::run` (crates/core/src/worker.rs) knows of its consumers, and why it is left.
use queuey.Common.{
  length-append, ℕ, ◌+◌, ◌≤◌, ◌≡◌, ◌≢◌, ◌⊎◌, inl, inr, refl, sym, ap, ◌∙◌, String, true, false,
  Option, none, some, List, [], ◌∷◌, ◌++◌, length, if◌then◌else◌, arith,
}
use queuey.Worker.RunLoop.{
  checking, starting, start_consumer, LoopPhase, reported, RunError, ConsumerEvent, delivery,
  failed, ended, ConsumerPhase, Consumer, Session, handle_event, drain_event, close_outcome,
  or_error, is_gone, all_gone, with_phase, send_event,
}
use queuey.Worker.RunLoop.Steps.{
  starts_loop, refuses_start, starts, Step, checks, sees_stop, pulls, stream_fails, stream_ends,
  sends, sends_ended, job_ends, shuts_down, takes_permit, sees_shutdown, gives_up_permit, receives,
  loses_consumers, takes_drain_permit, drains, drained, joins,
}
use queuey.Worker.RunLoop.Limits.{IsSound, has_left}

or_error-ne-none : (outcome : Option RunError) (e : RunError) → or_error outcome e ≢ none
or_error-ne-none none e h = cc
or_error-ne-none (some first) e h = cc

close_outcome-none :
    (outcome : Option RunError) (closed : Option String)
    → close_outcome outcome closed ≡ none
    → outcome ≡ none
close_outcome-none outcome none h = h
close_outcome-none outcome (some e) h = absurd (or_error-ne-none outcome (reported e) h)

abbrev pub to_start : LoopPhase → ℕ
to_start (starting queues) = length queues
to_start _ = 0

module _ {D : Type 0} where
  abbrev pub gone_one : ConsumerPhase D → ℕ
  gone_one phase = if is_gone phase then 1 else 0

  abbrev pub gone_count : List (Consumer D) → ℕ
  gone_count [] = 0
  gone_count (c ∷ cs) = gone_one c.phase + gone_count cs

  abbrev pub ended_one : ConsumerEvent D → ℕ
  ended_one (delivery d) = 0
  ended_one (failed e) = 0
  ended_one (ended queue) = 1

  abbrev pub ended_count : List (ConsumerEvent D) → ℕ
  ended_count [] = 0
  ended_count (event ∷ events) = ended_one event + ended_count events

  gone_count-append :
      (cs ds : List (Consumer D)) → gone_count (cs ++ ds) ≡ gone_count cs + gone_count ds
  gone_count-append [] ds = omega arith
  gone_count-append (c ∷ cs) ds = omega (arith, gone_count-append cs ds)

  ended_count-append :
      (xs ys : List (ConsumerEvent D)) → ended_count (xs ++ ys) ≡ ended_count xs + ended_count ys
  ended_count-append [] ys = omega arith
  ended_count-append (x ∷ xs) ys = omega (arith, ended_count-append xs ys)

  gone_count-with_phase :
      (cs before : List (Consumer D)) (c : Consumer D) (after : List (Consumer D))
      (phase : ConsumerPhase D)
      → cs ≡ before ++ c ∷ after
      → gone_count (before ++ record c { phase = phase } ∷ after) + gone_one c.phase
        ≡ gone_count cs + gone_one phase
  gone_count-with_phase cs before c after phase e = omega (
    arith,
    ap gone_count e,
    gone_count-append before (c ∷ after),
    gone_count-append before (record c { phase = phase } ∷ after),
  )

  append-ne-nil :
      (before : List (Consumer D)) (c : Consumer D) (after : List (Consumer D))
      → before ++ c ∷ after ≢ []
  append-ne-nil [] c after h = cc
  append-ne-nil (b ∷ before) c after h = cc

  no_gone : (cs : List (Consumer D)) → all_gone cs ≡ true → gone_count cs ≤ 0 → cs ≡ []
  no_gone [] h k = refl
  no_gone (c ∷ cs) h k = absurd (ground arith)

  length-with_phase :
      (cs before : List (Consumer D)) (c : Consumer D) (after : List (Consumer D))
      (phase : ConsumerPhase D)
      → cs ≡ before ++ c ∷ after
      → length (before ++ record c { phase = phase } ∷ after) ≡ length cs
  length-with_phase cs before c after phase e = omega (
    arith,
    ap length e,
    length-append before (c ∷ after),
    length-append before (record c { phase = phase } ∷ after),
  )

  -- In the loop, a consumer that has gone has its last word in the channel. Once the loop is left
  -- without an error, there was a shutdown, or there was no consumer.
  pub record IsWatched (started : ℕ) (s : Session D) : Type 0 where
    pub all_started : s.outcome ≡ none → length s.consumers + to_start s.phase ≡ started
    pub last_words : has_left s.phase ≡ false → gone_count s.consumers ≤ ended_count s.channel
    pub reason :
        has_left s.phase ≡ true → s.outcome ≡ none → (s.shutdown ≡ true) ⊎ (s.consumers ≡ [])

  consumer-IsWatched :
      {started : ℕ} {s : Session D} (before : List (Consumer D)) (c : Consumer D)
      (after : List (Consumer D)) (phase : ConsumerPhase D)
      → IsWatched started s
      → s.consumers ≡ before ++ c ∷ after
      → (has_left s.phase ≡ false → gone_one phase ≤ gone_one c.phase)
      → IsWatched started (with_phase s before c after phase)
  consumer-IsWatched {s} before c after phase w e h = record {
    all_started =
        λ ok. omega (arith, length-with_phase s.consumers before c after phase e, w.all_started ok);
    last_words = λ loop. omega (
      arith,
      w.last_words loop,
      h loop,
      gone_count-with_phase s.consumers before c after phase e,
    );
    reason = λ left ok. elim (w.reason left ok) [
      | inl told ↦ inl told
      | inr none_there ↦ absurd (append-ne-nil before c after (sym e ∙ none_there))
    ];
  }

  send-IsWatched :
      {started : ℕ} {s : Session D} (before : List (Consumer D)) (c : Consumer D)
      (after : List (Consumer D)) (phase : ConsumerPhase D) (event : ConsumerEvent D)
      → IsWatched started s
      → s.consumers ≡ before ++ c ∷ after
      → gone_one phase ≤ ended_one event + gone_one c.phase
      → IsWatched started (send_event (with_phase s before c after phase) event)
  send-IsWatched {s} before c after phase event w e h = record {
    all_started =
        λ ok. omega (arith, length-with_phase s.consumers before c after phase e, w.all_started ok);
    last_words = λ loop. omega (
      arith,
      w.last_words loop,
      gone_count-with_phase s.consumers before c after phase e,
      ended_count-append s.channel (event ∷ []),
    );
    reason = λ left ok. elim (w.reason left ok) [
      | inl told ↦ inl told
      | inr none_there ↦ absurd (append-ne-nil before c after (sym e ∙ none_there))
    ];
  }

  pub Step-IsWatched :
      {concurrency capacity started : ℕ} {s t : Session D} {ds : List D}
      → Step s ds t
      → IsSound concurrency capacity s
      → IsWatched started s
      → IsWatched started t
  unfolding handle_event drain_event start_consumer
  Step-IsWatched (checks before c after e at) v w =
      consumer-IsWatched before c after _ w e (λ loop. ground (arith, v.stops, ap gone_one at))
  Step-IsWatched (sees_stop before c after e at told) v w =
      consumer-IsWatched before c after _ w e (λ loop. absurd (cc (v.stops, told, loop)))
  Step-IsWatched (pulls before c after d e at) v w =
      consumer-IsWatched before c after _ w e (λ loop. omega arith)
  Step-IsWatched (stream_fails before c after reason e at) v w =
      consumer-IsWatched before c after _ w e (λ loop. omega arith)
  Step-IsWatched (stream_ends before c after e at) v w =
      consumer-IsWatched before c after _ w e (λ loop. omega arith)
  Step-IsWatched (sends before c after event e at room) v w =
      send-IsWatched before c after _ event w e (omega arith)
  Step-IsWatched (sends_ended before c after e at room) v w =
      send-IsWatched before c after _ _ w e (omega arith)
  Step-IsWatched (job_ends before d after e) v w = record {
    all_started = w.all_started;
    last_words = w.last_words;
    reason = w.reason;
  }
  Step-IsWatched (shuts_down h) v w = record {
    all_started = w.all_started;
    last_words = w.last_words;
    reason = λ left ok. inl refl;
  }
  Step-IsWatched {s} (starts config rest at) v w =
      let new : Consumer D = record { queue = config.name; phase = checking } in
      record {
        all_started = λ ok.
            omega (arith, w.all_started ok, ap to_start at, length-append s.consumers (new ∷ []));
        last_words = λ loop.
            omega (arith, w.last_words (ap has_left at), gone_count-append s.consumers (new ∷ []));
        reason = λ left ok. absurd (cc);
      }
  Step-IsWatched (refuses_start config rest e at) v w = record {
    all_started = λ ok. absurd (cc);
    last_words = λ loop. absurd (cc);
    reason = λ left ok. absurd (cc);
  }
  Step-IsWatched (starts_loop at) v w = record {
    all_started = λ ok. omega (arith, w.all_started ok, ap to_start at);
    last_words = λ loop. w.last_words (ap has_left at);
    reason = λ left ok. absurd (cc);
  }
  Step-IsWatched (takes_permit free at e) v w = record {
    all_started = λ ok. omega (arith, w.all_started ok, ap to_start at);
    last_words = λ loop. w.last_words (ap has_left at);
    reason = λ left ok. absurd (cc);
  }
  Step-IsWatched (sees_shutdown at h) v w = record {
    all_started = λ ok. omega (arith, w.all_started ok, ap to_start at);
    last_words = λ loop. absurd (cc);
    reason = λ left ok. inl h;
  }
  Step-IsWatched (gives_up_permit at h) v w = record {
    all_started = λ ok. omega (arith, w.all_started ok, ap to_start at);
    last_words = λ loop. absurd (cc);
    reason = λ left ok. inl h;
  }
  Step-IsWatched (receives (delivery d) rest at e) v w = record {
    all_started = λ ok. omega (arith, w.all_started ok, ap to_start at);
    last_words = λ loop. omega (arith, w.last_words (ap has_left at), ap ended_count e);
    reason = λ left ok. absurd (cc);
  }
  Step-IsWatched (receives (failed reason) rest at e) v w = record {
    all_started = λ ok. absurd (cc);
    last_words = λ loop. absurd (cc);
    reason = λ left ok. absurd (cc);
  }
  Step-IsWatched (receives (ended queue) rest at e) v w = record {
    all_started = λ ok. absurd (cc);
    last_words = λ loop. absurd (cc);
    reason = λ left ok. absurd (cc);
  }
  Step-IsWatched {s} (loses_consumers at e h) v w = record {
    all_started = λ ok. omega (arith, w.all_started ok, ap to_start at);
    last_words = λ loop. absurd (cc);
    reason = λ left ok.
        inr
          (no_gone s.consumers h (omega (arith, w.last_words (ap has_left at), ap ended_count e)));
  }
  Step-IsWatched (takes_drain_permit free at e) v w = record {
    all_started = λ ok. omega (arith, w.all_started ok, ap to_start at);
    last_words = λ loop. absurd (cc);
    reason = λ left ok. w.reason (ap has_left at) ok;
  }
  Step-IsWatched (drains (delivery d) rest at e) v w = record {
    all_started = λ ok. omega (arith, w.all_started ok, ap to_start at);
    last_words = λ loop. absurd (cc);
    reason = λ left ok. w.reason (ap has_left at) ok;
  }
  Step-IsWatched {s} (drains (failed reason) rest at e) v w = record {
    all_started = λ ok. absurd (or_error-ne-none s.outcome (reported reason) ok);
    last_words = λ loop. absurd (cc);
    reason = λ left ok. absurd (or_error-ne-none s.outcome (reported reason) ok);
  }
  Step-IsWatched (drains (ended queue) rest at e) v w = record {
    all_started = λ ok. omega (arith, w.all_started ok, ap to_start at);
    last_words = λ loop. absurd (cc);
    reason = λ left ok. w.reason (ap has_left at) ok;
  }
  Step-IsWatched (drained at e h) v w = record {
    all_started = λ ok. omega (arith, w.all_started ok, ap to_start at);
    last_words = λ loop. absurd (cc);
    reason = λ left ok. w.reason (ap has_left at) ok;
  }
  Step-IsWatched {s} (joins closed at h e) v w = record {
    all_started =
        λ ok. omega (arith, w.all_started (close_outcome-none s.outcome closed ok), ap to_start at);
    last_words = λ loop. absurd (cc);
    reason = λ left ok. w.reason (ap has_left at) (close_outcome-none s.outcome closed ok);
  }
