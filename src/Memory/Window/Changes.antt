-- ===== src/Memory/Window/Changes.antt =====
-- How a critical section of crates/core/src/memory.rs changes a queue: with a signal to its consumers, or without
-- bringing it a message.
use queuey.Common.{
  ◌-◌, ◌≡◌, ◌≢◌, ◌⊎◌, inl, inr, refl, ap, sym, ◌∙◌, String, Bool, true, false, Option, none, some,
  [], arith, str_eq, eq_iff, Bool-cases, Option-cases, if◌then◌else◌,
}
use mathlib.Core.Path.{subst, subst⁻¹}
use queuey.Common.Map.{Map, get, put, get-put}
use queuey.Memory.{QueueState, Shared, wake, with_queue, queue_or_new, on_queue, release_hold}
use queuey.Memory.Api.{release_guard}

module _ {V : Type 0} (C : QueueState V → QueueState V → Type 0) where
  -- A queue that is there stays there, and changes in that way.
  abbrev pub Changes : String → Map (QueueState V) → Map (QueueState V) → Type 0
  Changes queue before after =
      (q : QueueState V)
      → get queue before ≡ some q
      → (q' : QueueState V) × (get queue after ≡ some q') × C q q'

  module _ (C-same : (q : QueueState V) → C q q) where
    pub put-Changes :
        (queue name : String) (new : QueueState V) (queues : Map (QueueState V))
        → ((q : QueueState V) → get name queues ≡ some q → C q new)
        → Changes queue queues (put name new queues)
    put-Changes queue name new queues changed q found =
        let at = get-put name queue new queues in
        elim (Bool-cases (str_eq name queue)) [
          | inr differ ↦ (q, cc, C-same q)
          | inl same ↦
              let named : name ≡ queue = (eq_iff name queue).0 same in
              (new, cc, changed q (ap (λ n. get n queues) named ∙ found))
        ]

    with_queue-Changes :
        (queue name : String) (f : QueueState V → QueueState V) (shared : Shared V)
        → ((q : QueueState V) → C q (f q))
        → Changes queue shared.queues (with_queue name f shared).queues
    with_queue-Changes queue name f shared changed =
        put-Changes queue name (f (queue_or_new name (get name shared.queues))) shared.queues
          (λ q found. subst⁻¹ (λ o. C q (f (queue_or_new name o))) found (changed q))

    on_queue-Changes :
        (queue name : String) (f : QueueState V → QueueState V) (shared : Shared V)
        → ((q : QueueState V) → C q (f q))
        → Changes queue shared.queues (on_queue name f shared).queues
    unfolding on_queue
    on_queue-Changes queue name f shared changed = elim (Option-cases (get name shared.queues)) [
      | inl missing ↦ rw (missing, on_queue) (λ q found. (q, found, C-same q))
      | inr (old, there) ↦
          rw (there, on_queue)
            (put-Changes queue name (f old) shared.queues
              (λ q found. let same : old ≡ q = cc in subst (λ o. C q (f o)) (sym same) (changed q)))
    ]

module _ {V : Type 0} where
  -- The queue wakes its consumers; or it brings them nothing, and the backend stays as open as it was.
  abbrev pub WakesOr : Type 0 → QueueState V → QueueState V → Type 0
  WakesOr P q q' = (q'.signal ≢ q.signal) ⊎ ((q.pending ≡ [] → q'.pending ≡ []) × P)

  abbrev pub Wakes : String → Shared V → Shared V → Type 0
  Wakes queue before after =
      Changes (WakesOr (after.closed ≡ before.closed)) queue before.queues after.queues

  abbrev pub Still : QueueState V → QueueState V → Type 0
  Still q q' = (q'.signal ≡ q.signal) × (q'.pending ≡ q.pending)

  pub Wakes-same : (queue : String) (shared : Shared V) → Wakes queue shared shared
  Wakes-same queue shared q found = (q, found, inr (λ e. e, refl))

  pub Wakes-after :
      (queue : String) (a b c : Shared V)
      → Changes Still queue a.queues b.queues
      → b.closed ≡ a.closed
      → Wakes queue b c
      → Wakes queue a c
  Wakes-after queue a b c still open' wakes q found =
      let (q1, e1, (same, as_before)) = still q found in
      let (q2, e2, change) = wakes q1 e1 in
      (
        q2,
        e2,
        elim change [
          | inl woken ↦ inl (λ e. woken (e ∙ sym same))
          | inr (quiet, stays) ↦ inr (λ none_left. quiet (as_before ∙ none_left), stays ∙ open')
        ],
      )

  pub wake-differs : (q : QueueState V) → (wake q).signal ≢ q.signal
  unfolding wake
  wake-differs q e = omega (arith, e)

  pub release_guard-Still :
      (queue : String) (guard : Option String) (shared : Shared V)
      → Changes Still queue shared.queues (release_guard guard shared).queues
  unfolding release_hold
  release_guard-Still queue none shared q found = (q, found, (refl, refl))
  release_guard-Still queue (some name) shared q found =
      on_queue-Changes Still (λ q. (refl, refl)) queue name (λ q. record q { held = q.held - 1 })
        shared (λ q. (refl, refl)) q found

  pub release_guard-closed :
      (guard : Option String) (shared : Shared V)
      → (release_guard guard shared).closed ≡ shared.closed
  unfolding release_hold on_queue
  release_guard-closed none shared = refl
  release_guard-closed (some name) shared = refl

  pub Still-Wakes :
      (queue : String) (before after : Shared V)
      → Changes Still queue before.queues after.queues
      → after.closed ≡ before.closed
      → Wakes queue before after
  Still-Wakes queue before after still open' =
      Wakes-after queue before after after still open' (Wakes-same queue after)

  pub if-Wakes :
      (queue : String) (before : Shared V) (b : Bool) (x y : Shared V)
      → Wakes queue before x
      → Wakes queue before y
      → Wakes queue before (if b then x else y)
  if-Wakes queue before true x y this other = this
  if-Wakes queue before false x y this other = other

  pub with_queue-Wakes :
      (queue name : String) (f : QueueState V → QueueState V) (shared : Shared V)
      → ((q : QueueState V) → WakesOr (shared.closed ≡ shared.closed) q (f q))
      → Wakes queue shared (with_queue name f shared)
  with_queue-Wakes queue name f shared =
      with_queue-Changes (WakesOr (shared.closed ≡ shared.closed)) (λ q. inr (λ e. e, refl)) queue
        name f shared

  pub on_queue-Wakes :
      (queue name : String) (f : QueueState V → QueueState V) (shared : Shared V)
      → ((q : QueueState V) → WakesOr (shared.closed ≡ shared.closed) q (f q))
      → Wakes queue shared (on_queue name f shared)
  unfolding on_queue
  on_queue-Wakes queue name f shared =
      on_queue-Changes (WakesOr (shared.closed ≡ shared.closed)) (λ q. inr (λ e. e, refl)) queue
        name f shared
