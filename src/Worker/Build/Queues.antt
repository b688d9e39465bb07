-- ===== src/Worker/Build/Queues.antt =====
-- Which queues a worker consumes, and how many jobs it runs at a time.
use queuey.Common.{
  ◌≤◌, ◌≡◌, ◌⊎◌, inl, inr, refl, String, Bool, true, false, List, [], ◌∷◌, ◌++◌, arith, str_eq,
  eq_iff, if◌then◌else◌, Bool-cases, max,
}
use queuey.Retry.{or_else}
use queuey.QueueConfig.{QueueConfig, QueueSet}
use queuey.Worker.Build.{
  BuildError, Builder, Worker, Result, ok, err, named, select, sum_prefetch, build,
  collect_handlers,
}

-- No two configurations have one name.
abbrev pub DistinctNames : List QueueConfig → Type 0
DistinctNames [] = Unit {0}
DistinctNames (c ∷ cs) = (named c.name cs ≡ false) × DistinctNames cs

named-snoc :
    (name : String) (cs : List QueueConfig) (c : QueueConfig)
    → named name (cs ++ c ∷ []) ≡ (if str_eq c.name name then true else named name cs)
named-snoc name [] c = refl
named-snoc name (x ∷ cs) c = ground (arith, named-snoc name cs c)

DistinctNames-snoc :
    (cs : List QueueConfig) (c : QueueConfig)
    → DistinctNames cs
    → named c.name cs ≡ false
    → DistinctNames (cs ++ c ∷ [])
DistinctNames-snoc [] c d h = (refl, tt)
DistinctNames-snoc (x ∷ cs) c d h = (
  ground (arith, named-snoc x.name cs c, eq_iff x.name c.name, eq_iff c.name x.name),
  DistinctNames-snoc cs c d.1 (ground arith),
)

module _ {Q : Type 0} (set : QueueSet Q) where
  select-DistinctNames :
      (cs : List QueueConfig) (qs : List Q) → DistinctNames cs → DistinctNames (select set cs qs)
  unfolding select
  select-DistinctNames cs [] d = d
  select-DistinctNames cs (q ∷ qs) d = elim (Bool-cases (named (set.config q).name cs)) [
    | inl there ↦ rw there (select-DistinctNames cs qs d)
    | inr new ↦ rw new (
        select-DistinctNames (cs ++ set.config q ∷ []) qs
          (DistinctNames-snoc cs (set.config q) d new))
  ]

  -- Whether one of the queues has the name in its configuration.
  abbrev pub has_name : String → List Q → Bool
  has_name name [] = false
  has_name name (q ∷ qs) = if str_eq (set.config q).name name then true else has_name name qs

  -- A name is consumed exactly if it was or a selected queue has it.
  named-select :
      (name : String) (cs : List QueueConfig) (qs : List Q)
      → named name (select set cs qs) ≡ (if named name cs then true else has_name name qs)
  unfolding select
  named-select name cs [] = ground arith
  named-select name cs (q ∷ qs) = elim (Bool-cases (named (set.config q).name cs)) [
    | inl there ↦
        rw there (ground (arith, named-select name cs qs, eq_iff (set.config q).name name))
    | inr new ↦ rw new (
        ground (
          arith,
          named-select name (cs ++ set.config q ∷ []) qs,
          named-snoc name cs (set.config q),
        ))
  ]

Result-cases :
    {A : Type 0} (r : Result A) → ((a : A) × (r ≡ ok a)) ⊎ ((e : BuildError) × (r ≡ err e))
Result-cases (ok a) = inl (a, refl)
Result-cases (err e) = inr (e, refl)

build-selected :
    {V Q : Type 0} (set : QueueSet Q) (declare : List QueueConfig → Result (Unit {0}))
    (b : Builder V Q) (w : Worker V)
    → build set declare b ≡ ok w
    → (w.queues ≡ select set [] (or_else b.queues set.all))
      × (w.concurrency ≡ max (or_else b.concurrency (sum_prefetch w.queues)) 1)
unfolding build
build-selected set declare b w h =
    let qs = select set [] (or_else b.queues set.all) in
    elim (Result-cases (collect_handlers [] b.handlers)) [
      | inl (m, collected) ↦ elim (Result-cases (declare qs)) [
        | inl (u, declared) ↦ ground (arith, collected, declared)
        | inr (e, failed) ↦ absurd (ground (arith, collected, failed))
      ]
      | inr (e, failed) ↦ absurd (ground (arith, failed))
    ]

-- If a build succeeds, the worker consumes no queue name twice, and exactly the names of the selected
-- queues, which are all queues of the set if none were selected. It runs at least one job at a
-- time, and as many as asked for or, by default, as the prefetch windows of its queues allow.
pub build-queues :
    {V Q : Type 0} (set : QueueSet Q) (declare : List QueueConfig → Result (Unit {0}))
    (b : Builder V Q) (w : Worker V)
    → build set declare b ≡ ok w
    → DistinctNames w.queues
      × ((name : String) → named name w.queues ≡ has_name set name (or_else b.queues set.all))
      × (1 ≤ w.concurrency)
      × (w.concurrency ≡ max (or_else b.concurrency (sum_prefetch w.queues)) 1)
build-queues set declare b w h =
    let (consumed, cap_eq) = build-selected set declare b w h in
    let qs = or_else b.queues set.all in
    (
      rw consumed (select-DistinctNames set [] qs tt),
      λ name. rw consumed (named-select set name [] qs),
      omega (arith, cap_eq),
      cap_eq,
    )
