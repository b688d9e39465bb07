-- ===== src/Memory/Window/Bounds.antt =====
-- The window of a consumer of crates/core/src/memory.rs: how many deliveries are out, and that no wake-up is lost.
use queuey.Common.{
  ℕ, ◌+◌, ◌≡◌, ◌≢◌, ◌⊎◌, ◌||◌, inl, inr, refl, ap, sym, ◌∙◌, String, Bool, true, false, not, some,
  [], ◌∷◌, ◌++◌, arith, length, length-append, ◌==◌, if◌then◌else◌,
}
use mathlib.Core.Path.{subst, subst⁻¹}
use queuey.Common.Map.{get}
use queuey.Envelope.{Envelope}
use queuey.Memory.{QueueState, Shared}
use queuey.Memory.Consumer.{
  pop_front, Pulled, stopped, nothing, pulled, unregister, pull, put_back, requeue,
}
use queuey.Memory.Window.Changes.{WakesOr, Wakes}
use queuey.Memory.Window.Wakes.{
  pull-Wakes, put_back-Wakes, requeue-Wakes, unregister-Wakes, Step-Wakes,
}
use queuey.Memory.Window.{
  Phase, acquiring, looking, waiting, finished, sending, Window, signal_of, after_section, returns,
  returns_permit, looked, sent, TaskStep, acquires, leaves, looks, notices, stops_waiting, sends,
  Step, task, hands_out, releases, drops_stream, closes_semaphore, others,
}

differs-changed : (b : Bool) (m n : ℕ) → n ≢ m → (b || not (m == n)) ≡ true
differs-changed b m n differs = ground arith

module _ {V : Type 0} where
  abbrev pub permits_of : Phase V → ℕ
  permits_of acquiring = 0
  permits_of finished = 0
  permits_of _ = 1

  -- While the task waits, a signal is there for it, or there is no message and the backend is open.
  abbrev pub Waits : Phase V → Bool → QueueState V → Bool → Type 0
  Waits waiting changed q closed = (changed ≡ true) ⊎ ((q.pending ≡ []) × (closed ≡ false))
  Waits _ changed q closed = Unit

  abbrev pub Sees : Window V → Type 0
  Sees w =
      (q : QueueState V) × (get w.queue w.shared.queues ≡ some q)
      × Waits w.phase w.changed q w.shared.closed

  pub record IsValid (size : ℕ) (w : Window V) : Type 0 where
    pub counted : w.free + permits_of w.phase + length w.channel + length w.out ≡ size
    pub sees : Sees w

  changed-signal :
      (w : Window V) (shared : Shared V) (q q' : QueueState V)
      → get w.queue w.shared.queues ≡ some q
      → get w.queue shared.queues ≡ some q'
      → q'.signal ≢ q.signal
      → (w.changed || not (signal_of w.queue w.shared == signal_of w.queue shared)) ≡ true
  changed-signal w shared q q' found found' differs =
      let old : signal_of w.queue w.shared ≡ q.signal = ground arith in
      let new : signal_of w.queue shared ≡ q'.signal = ground arith in
      differs-changed w.changed (signal_of w.queue w.shared) (signal_of w.queue shared)
        (λ e. differs (sym new ∙ e ∙ old))

  Waits-section :
      (phase : Phase V) (w : Window V) (shared : Shared V) (q q' : QueueState V)
      → get w.queue w.shared.queues ≡ some q
      → get w.queue shared.queues ≡ some q'
      → WakesOr (shared.closed ≡ w.shared.closed) q q'
      → Waits phase w.changed q w.shared.closed
      → Waits phase
          (w.changed || not (signal_of w.queue w.shared == signal_of w.queue shared))
          q'
          shared.closed
  Waits-section acquiring w shared q q' found found' wakes waits = tt
  Waits-section looking w shared q q' found found' wakes waits = tt
  Waits-section finished w shared q q' found found' wakes waits = tt
  Waits-section (sending env) w shared q q' found found' wakes waits = tt
  Waits-section waiting w shared q q' found found' (inl woken) waits =
      inl (changed-signal w shared q q' found found' woken)
  Waits-section waiting w shared q q' found found' (inr quiet) (inl changed) = inl (ground arith)
  Waits-section waiting w shared q q' found found' (inr (quiet, same)) (inr (none_left, open')) =
      inr (quiet none_left, same ∙ open')

  section-Sees :
      (w : Window V) (shared : Shared V)
      → Wakes w.queue w.shared shared
      → Sees w
      → Sees (after_section w shared)
  section-Sees w shared wakes (q, found, waits) =
      let (q', found', change) = wakes q found in
      (q', found', Waits-section w.phase w shared q q' found found' change waits)

  -- `sent`, with the outcome of `tx.send`.
  abbrev sent_if : Window V → Envelope V → Bool → Window V
  sent_if w env open' =
      if open'
      then record w { channel = w.channel ++ env ∷ []; phase = acquiring }
      else returns_permit (after_section w (put_back w.shared w.queue env))

  abbrev IsThere : String → Shared V → Type 0
  IsThere queue shared = (q : QueueState V) × (get queue shared.queues ≡ some q)

  Wakes-IsThere :
      (queue : String) (before after : Shared V)
      → Wakes queue before after
      → IsThere queue before
      → IsThere queue after
  Wakes-IsThere queue before after wakes (q, found) =
      let (q', found', _) = wakes q found in (q', found')

  returns-IsValid :
      (size : ℕ) (w : Window V)
      → w.free + length w.channel + length w.out ≡ size
      → IsThere w.queue w.shared
      → IsValid size (returns w)
  returns-IsValid size w counts there =
      let (q, found) =
        Wakes-IsThere w.queue w.shared (unregister w.shared w.queue w.semaphore)
          (unregister-Wakes w.queue w.queue w.shared w.semaphore) there in
      record { counted = omega (arith, counts); sees = (q, found, tt) }

  pull-nothing :
      (shared after : Shared V) (queue : String) (q : QueueState V)
      → get queue shared.queues ≡ some q
      → pull shared queue ≡ (nothing, after)
      → (q.pending ≡ []) × (shared.closed ≡ false)
  unfolding pull pop_front
  pull-nothing shared after queue q found e = ground arith

  -- The match on a pull: the permit goes on with the task, or back.
  looked-IsValid :
      (size : ℕ) (w : Window V) (result : Pulled V × Shared V)
      → IsValid size w
      → w.phase ≡ looking
      → pull w.shared w.queue ≡ result
      → IsValid size (looked w result)
  looked-IsValid size w (stopped, shared) v at e =
      returns-IsValid size (record w { free = w.free + 1 }) (ground (arith, v.counted))
        (v.sees.0, v.sees.1)
  looked-IsValid size w (nothing, shared) v at e =
      let (q, found, _) = v.sees in
      let (none_left, open') = pull-nothing w.shared shared w.queue q found e in
      let wakes =
        subst (λ (s : Shared V). Wakes w.queue w.shared s) (ap (λ r. r.1) e)
          (pull-Wakes w.queue w.queue w.shared) in
      let (q', found', change) = wakes q found in
      record {
        counted = ground (arith, v.counted);
        sees = (
          q',
          found',
          Waits-section waiting w shared q q' found found' change (inr (none_left, open')),
        );
      }
  looked-IsValid size w (pulled env, shared) v at e =
      let (q, found, _) = v.sees in
      let wakes =
        subst (λ (s : Shared V). Wakes w.queue w.shared s) (ap (λ r. r.1) e)
          (pull-Wakes w.queue w.queue w.shared) in
      let (q', found', change) = wakes q found in
      record { counted = ground (arith, v.counted); sees = (q', found', tt) }

  sent-IsValid :
      (size : ℕ) (w : Window V) (env : Envelope V) (open' : Bool)
      → IsValid size w
      → w.phase ≡ sending env
      → w.stream_open ≡ open'
      → IsValid size (sent w env)
  sent-IsValid size w env true v at e =
      let (q, found, _) = v.sees in
      let longer = length-append w.channel (env ∷ []) in
      subst⁻¹ (λ b. IsValid size (sent_if w env b)) e
        (record { counted = ground (arith, v.counted, longer); sees = (q, found, tt) })
  sent-IsValid size w env false v at e =
      let (q, found, _) = v.sees in
      subst⁻¹ (λ b. IsValid size (sent_if w env b)) e
        (returns-IsValid size
          (record (after_section w (put_back w.shared w.queue env)) { free = w.free + 1 })
          (ground (arith, v.counted))
          (Wakes-IsThere w.queue w.shared (put_back w.shared w.queue env)
            (put_back-Wakes w.queue w.queue w.shared env) (q, found)))

  TaskStep-IsValid : (size : ℕ) {w x : Window V} → TaskStep w x → IsValid size w → IsValid size x
  TaskStep-IsValid size {w = w} (acquires at open' on free) v = record {
    counted = ground (arith, v.counted);
    sees = (v.sees.0, v.sees.1, tt);
  }
  TaskStep-IsValid size {w = w} (leaves at e) v =
      returns-IsValid size w (ground (arith, v.counted)) (v.sees.0, v.sees.1)
  TaskStep-IsValid size {w = w} (looks at) v =
      looked-IsValid size w (pull w.shared w.queue) v at refl
  TaskStep-IsValid size {w = w} (notices at open' changed) v = record {
    counted = ground (arith, v.counted);
    sees = (v.sees.0, v.sees.1, tt);
  }
  TaskStep-IsValid size {w = w} (stops_waiting at shut) v =
      returns-IsValid size (record w { free = w.free + 1 }) (ground (arith, v.counted))
        (v.sees.0, v.sees.1)
  TaskStep-IsValid size {w = w} (sends env at) v = sent-IsValid size w env w.stream_open v at refl

  pub Step-IsValid : (size : ℕ) {w x : Window V} → Step w x → IsValid size w → IsValid size x
  Step-IsValid size {w = w} (task step) v = TaskStep-IsValid size step v
  Step-IsValid size {w = w} (hands_out env rest e open') v = record {
    counted = omega (arith, v.counted, ap (length {A = Envelope V}) e);
    sees = v.sees;
  }
  Step-IsValid size {w = w} (releases before env after e) v = record {
    counted = omega (
      arith,
      v.counted,
      ap (length {A = Envelope V}) e,
      length-append before (env ∷ after),
      length-append before after,
    );
    sees = v.sees;
  }
  Step-IsValid size {w = w} (drops_stream open') v = record {
    counted = omega (arith, v.counted);
    sees =
        section-Sees w (requeue w.shared w.queue w.channel)
          (requeue-Wakes w.queue w.queue w.shared w.channel) v.sees;
  }
  Step-IsValid size {w = w} (closes_semaphore over) v = record {
    counted = v.counted;
    sees = v.sees;
  }
  Step-IsValid size {w = w} (others u x e step) v = record {
    counted = v.counted;
    sees =
        section-Sees w x.backend.shared
          (subst (λ (s : Shared V). Wakes w.queue s x.backend.shared) e (Step-Wakes w.queue step))
          v.sees;
  }
