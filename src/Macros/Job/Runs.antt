-- ===== src/Macros/Job/Runs.antt =====
-- What an accepted `#[derive(Job)]` generates (`derive` of crates/macros/src/job.rs).
use mathlib.Core.Path.{subst, subst⁻¹}
use queuey.Macros.Attrs.Retry.Runnable.{parse_retry-runnable, IsSensible}
use queuey.Retry.{Floats, usable_factor}
use queuey.Macros.Job.{
  generated, given_queue, no_job_attr, RetryPolicy, derive_job, core_path, Lookup, option_policy,
  job_impl, JobImpl, butlast, parse_job_attr, job_queue_set, parse_retry, with_path, with_keys,
  add_retry, with_value, misfit, JobMeta, JobAttr, Host, add_job_key,
}
use queuey.Common.{
  false, true, ◌≢◌, [], ◌∷◌, ◌++◌, if◌then◌else◌, str_eq, Bool, List, arith, ◌≤◌, none, some, ◌≡◌,
  Option, String, refl,
}
use queuey.Macros.Attrs.{
  generic_job, SynError, Value, RetrySpec, err, ok, Parse, then_parse, set_once,
}

-- Both parts of a parse that succeeds do so.
then_parse-ok :
    {A B : Type 0} (p : Parse A) (f : A → Parse B) (b : B)
    → then_parse p f ≡ ok b
    → (a : A) × (p ≡ ok a) × (f a ≡ ok b)
then_parse-ok (ok a) f b h = (a, refl, h)
then_parse-ok (err e) f b h = absurd (cc)

set_once-some :
    {A : Type 0} (old : Option A) (key : String) (a : A) (slot : Option A)
    → set_once old key a ≡ ok slot
    → slot ≡ some a
unfolding set_once
set_once-some none key a slot h = cc
set_once-some (some old) key a slot h = absurd (cc)

-- A retry policy that the run time can use as it is written.
abbrev pub IsRunnable : Floats → Option RetryPolicy → Type 0
IsRunnable fl none = Unit {0}
IsRunnable fl (some policy) = (1 ≤ policy.max_attempts) × IsSensible fl policy.backoff

abbrev KeepsRunnable : Floats → Option RetrySpec → Type 0
KeepsRunnable fl slot = IsRunnable fl (option_policy slot)

misfit-err : (key : String) (attr : JobAttr) → misfit key ≡ ok attr → ⊥
misfit-err key attr h = ground arith

-- Keys with a path and with a literal leave the retry policy.
with_path-retry :
    (host : Host) (parsed : JobAttr) (key : String) (path : List String) (next : JobAttr)
    → add_job_key host parsed (with_path key path) ≡ ok next
    → next.retry ≡ parsed.retry
unfolding add_job_key
with_path-retry host parsed key path next h = ground arith

with_value-retry :
    (host : Host) (parsed : JobAttr) (key : String) (value : Value) (next : JobAttr)
    → add_job_key host parsed (with_value key value) ≡ ok next
    → next.retry ≡ parsed.retry
unfolding add_job_key
with_value-retry host parsed key value next h = ground arith

if_left :
    {A : Type 0} (b : Bool) (p q : Parse A) (a : A)
    → (if b then p else q) ≡ ok a
    → ¬ (q ≡ ok a)
    → p ≡ ok a
if_left true p q a h wrong = h
if_left false p q a h wrong = absurd (wrong h)

ok-inj : {A : Type 0} (a b : A) → ◌≡◌ {A = Parse A} (ok a) (ok b) → a ≡ b
ok-inj a b h = cc

add_retry-ok :
    (host : Host) (parsed : JobAttr) (key : String) (keys : List (String × Value)) (next : JobAttr)
    → add_retry host parsed key keys ≡ ok next
    → (spec : RetrySpec) × (parse_retry host.fl host.two host.literals host.white keys ≡ ok spec)
      × (next.retry ≡ some spec)
add_retry-ok host parsed key keys next h =
    let (spec, accepted, rest) =
      then_parse-ok (parse_retry host.fl host.two host.literals host.white keys)
        (λ spec.
          then_parse (set_once parsed.retry key spec) (λ slot. ok (record parsed { retry = slot })))
        next h in
    let (slot, once, done) =
      then_parse-ok (set_once parsed.retry key spec) (λ slot. ok (record parsed { retry = slot }))
        next rest in
    (
      spec,
      accepted,
      subst (λ attr. attr.retry ≡ some spec) (ok-inj (record parsed { retry = slot }) next done)
          (set_once-some parsed.retry key spec slot once),
    )

with_keys-retry :
    (host : Host) (parsed : JobAttr) (key : String) (keys : List (String × Value)) (next : JobAttr)
    → add_job_key host parsed (with_keys key keys) ≡ ok next
    → add_retry host parsed key keys ≡ ok next
unfolding add_job_key
with_keys-retry host parsed key keys next h =
    if_left (str_eq key "retry") (add_retry host parsed key keys) (misfit key) next h
      (misfit-err key next)

add_job_key-IsRunnable :
    (host : Host) (parsed : JobAttr) (meta : JobMeta) (next : JobAttr)
    → usable_factor host.fl host.two ≡ host.two
    → add_job_key host parsed meta ≡ ok next
    → KeepsRunnable host.fl parsed.retry
    → KeepsRunnable host.fl next.retry
add_job_key-IsRunnable host parsed (with_path key path) next exact h kept =
    subst⁻¹ (KeepsRunnable host.fl) (with_path-retry host parsed key path next h) kept
add_job_key-IsRunnable host parsed (with_value key value) next exact h kept =
    subst⁻¹ (KeepsRunnable host.fl) (with_value-retry host parsed key value next h) kept
add_job_key-IsRunnable host parsed (with_keys key keys) next exact h kept =
    let (spec, accepted, slot) =
      add_retry-ok host parsed key keys next (with_keys-retry host parsed key keys next h) in
    subst⁻¹ (KeepsRunnable host.fl) slot
      (parse_retry-runnable host.fl host.two host.literals host.white keys spec exact accepted)

parse_job_attr-IsRunnable :
    (host : Host) (metas : List JobMeta) (parsed attr : JobAttr)
    → usable_factor host.fl host.two ≡ host.two
    → parse_job_attr host metas parsed ≡ ok attr
    → KeepsRunnable host.fl parsed.retry
    → KeepsRunnable host.fl attr.retry
unfolding parse_job_attr
parse_job_attr-IsRunnable host [] parsed attr exact h kept =
    subst (λ attr. KeepsRunnable host.fl attr.retry) (ok-inj parsed attr h) kept
parse_job_attr-IsRunnable host (meta ∷ metas) parsed attr exact h kept =
    let (next, added, rest) =
      then_parse-ok (add_job_key host parsed meta) (parse_job_attr host metas) attr h in
    parse_job_attr-IsRunnable host metas next attr exact rest
      (add_job_key-IsRunnable host parsed meta next exact added kept)

-- The last segment is put back behind the others.
butlast-snoc :
    (first : String) (path : List String)
    → (last : String) × (first ∷ path ≡ butlast first path ++ last ∷ [])
butlast-snoc first [] = (first, refl)
butlast-snoc first (next ∷ path) = let (last, e) = butlast-snoc next path in (last, cc)

-- The queue of a job is a variant of its queue set.
abbrev pub IsVariantOf : List String → List String → Type 0
IsVariantOf queue set = (variant : String) × (queue ≡ set ++ variant ∷ []) × (set ≢ [])

job_queue_set-IsVariantOf :
    (queue set : List String) → job_queue_set queue ≡ ok set → IsVariantOf queue set
unfolding job_queue_set
job_queue_set-IsVariantOf [] set h = absurd (cc)
job_queue_set-IsVariantOf (only ∷ []) set h = absurd (cc)
job_queue_set-IsVariantOf (first ∷ next ∷ rest) set h =
    let (variant, e) = butlast-snoc first (next ∷ rest) in
    subst (IsVariantOf (first ∷ next ∷ rest)) (ok-inj (butlast first (next ∷ rest)) set h)
      (variant, e, λ nil. absurd (cc))

job_impl-made :
    (host : Host) (module_path ident : String) (facade core : Lookup) (attr : JobAttr)
    (impl : JobImpl)
    → job_impl host module_path ident facade core attr ≡ ok impl
    → (job_queue_set impl.queue ≡ ok impl.queue_set) × (impl.retry ≡ option_policy attr.retry)
unfolding job_impl
job_impl-made host module_path ident facade core attr impl h =
    let (path, _, behind) =
      then_parse-ok (core_path host attr facade core)
        (λ path. then_parse (given_queue attr.queue) (λ queue.
          then_parse (job_queue_set queue)
            (λ set. ok (generated module_path ident attr path queue set))))
        impl h in
    let (queue, _, left) =
      then_parse-ok (given_queue attr.queue)
        (λ queue.
          then_parse (job_queue_set queue)
            (λ set. ok (generated module_path ident attr path queue set)))
        impl behind in
    let (set, chosen, done) =
      then_parse-ok (job_queue_set queue)
        (λ set. ok (generated module_path ident attr path queue set)) impl left in
    subst
      (λ impl.
        (job_queue_set impl.queue ≡ ok impl.queue_set) × (impl.retry ≡ option_policy attr.retry))
      (ok-inj (generated module_path ident attr path queue set) impl done) (chosen, refl)

if_right :
    {A : Type 0} (b : Bool) (e : SynError) (p : Parse A) (a : A)
    → (if b then err e else p) ≡ ok a
    → p ≡ ok a
if_right true e p a h = absurd (cc)
if_right false e p a h = h

-- A `#[derive(Job)]` that is accepted, with the default factor 2.0 one that the run time uses, gives the
-- job a queue that is a variant of its queue set, which is a path with a segment, and a retry policy,
-- where there is one, with an attempt at least and a backoff that the run time uses as it is written.
pub derive_job-runs :
    (host : Host) (generic : Bool) (module_path ident : String) (facade core : Lookup)
    (metas : List JobMeta) (impl : JobImpl)
    → usable_factor host.fl host.two ≡ host.two
    → derive_job host generic module_path ident facade core metas ≡ ok impl
    → IsVariantOf impl.queue impl.queue_set × IsRunnable host.fl impl.retry
unfolding derive_job
derive_job-runs host generic module_path ident facade core metas impl exact h =
    let accepted =
      if_right generic generic_job
        (then_parse (parse_job_attr host metas no_job_attr)
          (job_impl host module_path ident facade core))
        impl h in
    let (attr, parsed, rest) =
      then_parse-ok (parse_job_attr host metas no_job_attr)
        (job_impl host module_path ident facade core) impl accepted in
    let (set, retry) = job_impl-made host module_path ident facade core attr impl rest in
    (
      job_queue_set-IsVariantOf impl.queue impl.queue_set set,
      subst⁻¹ (IsRunnable host.fl) retry
          (parse_job_attr-IsRunnable host metas no_job_attr attr exact parsed tt),
    )
