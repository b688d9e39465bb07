-- ===== src/Macros/Job.antt =====
-- `#[derive(Job)]` of crates/macros/src/job.rs: the attributes of the type, and the implementation of `Job`
-- that is generated. A path is the list of its segments, and the values are given, since syn parses them.
pub mod Runs
mod Tests
use Prim.Native.String.{◌++◌}
use queuey.Common.{
  String, str_eq, Bool, true, false, Option, none, some, List, [], ◌∷◌, if◌then◌else◌,
}
use queuey.Retry.{RetryPolicy}
use queuey.Macros.Attrs.{
  Value, SynError, unknown_key, unparsed, generic_job, no_queue, not_a_variant, no_crate, Parse, ok,
  err, then_parse, set_once, reject_blank, lit_str, RetrySpec, policy_of,
}
use queuey.Macros.Attrs.Retry.{parse_retry}
use queuey.Macros.Attrs.CratePath.{Lookup, choose_crate_path}
use queuey.Macros.Queues.{Host, is_seen}

-- A key of `#[job(...)]`: with a path, with a literal, or with a list of keys.
pub data JobMeta : Type 0 where
  with_path : (key : String) (segments : List String) → JobMeta
  with_value : (key : String) → Value → JobMeta
  with_keys : (key : String) → List (String × Value) → JobMeta

pub record JobAttr : Type 0 where
  pub queue : Option (List String)
  pub name : Option String
  pub retry : Option RetrySpec
  pub core : Option String

abbrev pub no_job_attr : JobAttr
no_job_attr = record { queue = none; name = none; retry = none; core = none }

-- A key that is known, with something that it does not take.
abbrev pub misfit : String → Parse JobAttr
misfit key =
    if is_seen key ("queue" ∷ "name" ∷ "retry" ∷ "crate" ∷ [])
    then err unparsed
    else err (unknown_key key)

abbrev pub add_retry : Host → JobAttr → (key : String) → List (String × Value) → Parse JobAttr
add_retry host parsed key keys =
    then_parse (parse_retry host.fl host.two host.literals host.white keys) (λ spec.
      then_parse (set_once parsed.retry key spec) (λ slot. ok (record parsed { retry = slot })))

-- One key of `#[job(...)]`.
pub add_job_key : Host → JobAttr → JobMeta → Parse JobAttr
add_job_key host parsed (with_path key segments) =
    if str_eq key "queue"
    then then_parse (set_once parsed.queue key segments)
        (λ slot. ok (record parsed { queue = slot }))
    else misfit key
add_job_key host parsed (with_keys key keys) =
    if str_eq key "retry" then add_retry host parsed key keys else misfit key
add_job_key host parsed (with_value key value) =
    if str_eq key "name"
    then then_parse (lit_str key value) (λ lit.
      then_parse (reject_blank host.white lit key) (λ _.
        then_parse (set_once parsed.name key lit) (λ slot. ok (record parsed { name = slot }))))
    else if str_eq key "crate"
    then then_parse (lit_str key value) (λ lit.
      if host.is_path lit
      then then_parse (set_once parsed.core key lit) (λ slot. ok (record parsed { core = slot }))
      else err unparsed)
    else misfit key

pub parse_job_attr : Host → List JobMeta → JobAttr → Parse JobAttr
parse_job_attr host [] parsed = ok parsed
parse_job_attr host (meta ∷ metas) parsed =
    then_parse (add_job_key host parsed meta) (parse_job_attr host metas)

abbrev parse_chosen : Host → Option String → Parse String
parse_chosen host none = err no_crate
parse_chosen host (some path) = if host.is_path path then ok path else err unparsed

-- default_crate_path, with what the manifest says of the two crates.
abbrev pub default_crate_path : Host → (facade core : Lookup) → Parse String
default_crate_path host facade core = parse_chosen host (choose_crate_path facade core)

-- JobAttr::core_path
pub core_path : Host → JobAttr → (facade core : Lookup) → Parse String
core_path host attr facade core = elim attr.core [
  | some path ↦ ok path
  | none ↦ default_crate_path host facade core
]

abbrev pub butlast : (first : String) → List String → List String
butlast first [] = []
butlast first (next ∷ rest) = first ∷ butlast next rest

-- queue_set_of: the path without its last segment.
pub job_queue_set : (path : List String) → Parse (List String)
job_queue_set [] = err not_a_variant
job_queue_set (only ∷ []) = err not_a_variant
job_queue_set (first ∷ next ∷ rest) = ok (butlast first (next ∷ rest))

abbrev pub given_queue : Option (List String) → Parse (List String)
given_queue none = err no_queue
given_queue (some path) = ok path

abbrev pub option_policy : Option RetrySpec → Option RetryPolicy
option_policy none = none
option_policy (some spec) = some (policy_of spec)

-- The name without one: `concat!(module_path!(), "::", stringify!(ident))`.
abbrev pub name_or_path : Option String → (module_path ident : String) → String
name_or_path none module_path ident = module_path ++ ("::" ++ ident)
name_or_path (some name) module_path ident = name

-- What the generated implementation has; `retry` is `none` where `retry_policy` is not generated.
pub record JobImpl : Type 0 where
  pub core : String
  pub queue_set : List String
  pub queue : List String
  pub name : String
  pub retry : Option RetryPolicy

abbrev pub generated :
    (module_path ident : String) → JobAttr → (core : String) (queue set : List String) → JobImpl
generated module_path ident attr core queue set = record {
  core = core;
  queue_set = set;
  queue = queue;
  name = name_or_path attr.name module_path ident;
  retry = option_policy attr.retry;
}

-- The part of `derive` behind the attributes.
pub job_impl : Host → (module_path ident : String) (facade core : Lookup) → JobAttr → Parse JobImpl
job_impl host module_path ident facade core attr =
    then_parse (core_path host attr facade core) (λ path.
      then_parse (given_queue attr.queue) (λ queue.
        then_parse (job_queue_set queue)
          (λ set. ok (generated module_path ident attr path queue set))))

-- derive
pub derive_job :
    Host
    → (generic : Bool) (module_path ident : String) (facade core : Lookup) → List JobMeta
    → Parse JobImpl
derive_job host generic module_path ident facade core metas =
    if generic
    then err generic_job
    else then_parse (parse_job_attr host metas no_job_attr)
        (job_impl host module_path ident facade core)
