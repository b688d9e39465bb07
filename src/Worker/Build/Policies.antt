-- ===== src/Worker/Build/Policies.antt =====
-- Which handlers a build accepts, and which policy each of them gets.
use queuey.Common.{
  Bool-cases, ◌≡◌, ◌⊎◌, inl, inr, refl, ap, ◌∙◌, String, Option, none, some, List, [], ◌∷◌, arith,
  str_eq, eq_iff, Option-cases,
}
use queuey.Common.Map.{put-DistinctKeys, DistinctKeys, Map, get, put, get-put}
use queuey.Retry.{RetryPolicy, or_else}
use queuey.QueueConfig.{QueueConfig, QueueSet}
use queuey.Worker.{ErasedHandler}
use queuey.Worker.Build.{
  Builder, Worker, Result, ok, err, duplicate_handler, collect_handlers, resolve, resolve_all,
  build,
}

module _ {V : Type 0} where
  abbrev expected :
      Map RetryPolicy
      → Map RetryPolicy
      → String
      → Option (ErasedHandler V)
      → Option RetryPolicy
      → Option RetryPolicy
  expected job_retry queue_retry name none old = old
  expected job_retry queue_retry name (some handler) old =
      some (resolve job_retry queue_retry name handler)

  -- Every entry of a map gets its policy by the rule, and other names keep theirs.
  resolve_all_lem :
      (job_retry queue_retry policies : Map RetryPolicy) (handlers : Map (ErasedHandler V))
      (name : String)
      → DistinctKeys handlers
      → get name (resolve_all job_retry queue_retry policies handlers)
        ≡ expected job_retry queue_retry name (get name handlers) (get name policies)
  unfolding resolve_all get
  resolve_all_lem job_retry queue_retry policies [] name d = refl
  resolve_all_lem job_retry queue_retry policies ((k, handler) ∷ handlers) name d =
      let policy = resolve job_retry queue_retry k handler in
      let ih = resolve_all_lem job_retry queue_retry (put k policy policies) handlers name d.1 in
      let after_put = get-put k name policy policies in
      elim (Bool-cases (str_eq k name)) [
        | inl same ↦
            let e = (eq_iff k name).0 same in
            let absent = rw e at d.0 in rw same (ih ∙ rw (absent, after_put, same, e) refl)
        | inr other ↦ rw other (ih ∙ rw (after_put, other) refl)
      ]

  abbrev first_of_two :
      Option (ErasedHandler V) → Option (ErasedHandler V) → Option (ErasedHandler V)
  first_of_two none o = o
  first_of_two (some handler) o = some handler

  -- What an accepted list of handlers became, started from the map `m`.
  record Collected (m m' : Map (ErasedHandler V)) (hs : List (String × ErasedHandler V))
      : Type 0 where
    distinct : DistinctKeys m'
    names_differ : DistinctKeys hs
    apart : (name : String) → (get name m ≡ none) ⊎ (get name hs ≡ none)
    found : (name : String) → get name m' ≡ first_of_two (get name m) (get name hs)

  collect_handlers_lem :
      (m m' : Map (ErasedHandler V)) (hs : List (String × ErasedHandler V))
      → collect_handlers m hs ≡ ok m'
      → DistinctKeys m
      → Collected m m' hs
  unfolding collect_handlers get
  collect_handlers_lem m m' [] h d =
      let e : m ≡ m' = cc in
      record {
        distinct = rw e at d;
        names_differ = tt;
        apart = λ name. inr refl;
        found = λ name. rw (← e) (ground arith);
      }
  collect_handlers_lem m m' ((k, handler) ∷ hs) h d = elim (Option-cases (get k m)) [
    | inl free ↦
        let rest : collect_handlers (put k handler m) hs ≡ ok m' = ground (arith, free) in
        let ih =
          collect_handlers_lem (put k handler m) m' hs rest (put-DistinctKeys k handler m d) in
        record {
          distinct = ih.distinct;
          names_differ =
              (ground (arith, ih.apart k, get-put k k handler m, eq_iff k k), ih.names_differ);
          apart =
              λ name. ground (arith, free, ih.apart name, get-put k name handler m, eq_iff k name);
          found = λ name.
              ground (
                arith,
                free,
                ih.apart name,
                ih.found name,
                get-put k name handler m,
                eq_iff k name,
              );
        }
    | inr (old, taken) ↦ absurd (ground (arith, taken))
  ]

  found-empty :
      (m' : Map (ErasedHandler V)) (hs : List (String × ErasedHandler V))
      → Collected [] m' hs
      → (name : String) → get name m' ≡ get name hs
  found-empty m' hs c name = c.found name ∙ unfold get in refl

  resolve-rule :
      (job_retry queue_retry : Map RetryPolicy) (name : String) (handler : ErasedHandler V)
      → resolve job_retry queue_retry name handler
        ≡ or_else
            (get name job_retry)
            (or_else (get handler.queue queue_retry) handler.declared_policy)
  unfolding resolve
  resolve-rule job_retry queue_retry name handler = ground arith

  collect-cases :
      (m : Map (ErasedHandler V)) (hs : List (String × ErasedHandler V))
      → ((m' : Map (ErasedHandler V)) × (collect_handlers m hs ≡ ok m'))
        ⊎ ((name : String) × (collect_handlers m hs ≡ err (duplicate_handler name)))
  unfolding collect_handlers
  collect-cases m [] = inl (m, refl)
  collect-cases m ((k, handler) ∷ hs) = elim (Option-cases (get k m)) [
    | inl free ↦ rw (free, collect_handlers) (collect-cases (put k handler m) hs)
    | inr (old, taken) ↦ rw (taken, collect_handlers) (inr (k, refl))
  ]

  -- If a build succeeds, no job type was registered twice, the worker has exactly the registered
  -- handlers, and the policy of each is the override for the job type, else the override for the
  -- queue of its job, else the policy that the job declares.
  pub build-policies :
      {Q : Type 0} (set : QueueSet Q) (declare : List QueueConfig → Result (Unit {0}))
      (b : Builder V Q) (w : Worker V)
      → build set declare b ≡ ok w
      → DistinctKeys b.handlers
        × ((name : String) → get name w.handlers ≡ get name b.handlers)
        × ((name : String) (handler : ErasedHandler V)
            → get name b.handlers ≡ some handler
            → get name w.policies
              ≡ some (
                  or_else
                    (get name b.job_retry)
                    (or_else (get handler.queue b.queue_retry) handler.declared_policy)))
  unfolding build
  build-policies set declare b w h = elim (collect-cases [] b.handlers) [
    | inl (m', collected) ↦
        let c = collect_handlers_lem [] m' b.handlers collected tt in
        let kept : w.handlers ≡ m' = ground (arith, collected) in
        let resolved : w.policies ≡ resolve_all b.job_retry b.queue_retry [] m' =
          ground (arith, collected) in
        (
          c.names_differ,
          λ name. rw kept (found-empty m' b.handlers c name),
          λ name handler registered.
              let present = found-empty m' b.handlers c name ∙ registered in
              rw resolved (
                resolve_all_lem b.job_retry b.queue_retry [] m' name c.distinct
                ∙ rw present (ap some (resolve-rule b.job_retry b.queue_retry name handler))),
        )
    | inr (name, failed) ↦ absurd (ground (arith, failed))
  ]
