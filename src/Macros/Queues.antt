-- ===== src/Macros/Queues.antt =====
-- `#[derive(Queues)]` of crates/macros/src/queues.rs: the attributes of the enum and of its variants, their
-- names, and the `QueueSet` that is generated. Whether a text is a path is syn's to say.
pub mod Names
mod Tests
use Prim.Native.String.{◌++◌}
use queuey.Common.{
  ℕ, zero, suc, ◌*◌, ◌+◌, ◌==◌, String, str_eq, Bool, true, false, Option, none, some, List, [],
  ◌∷◌, ltb, if◌then◌else◌,
}
use queuey.Retry.{F64, Floats}
use queuey.QueueConfig.{
  QueueConfig, QueueSet, new_config, set_prefetch, set_retry, set_durable, set_message_ttl,
  set_max_priority,
}
use queuey.Macros.Attrs.{
  Value, SynError, unknown_key, trailing_separator, zero_prefetch, ttl_too_long, misplaced,
  has_fields, empty_queue_name, no_variants, duplicate_queue_name, unparsed, Parse, ok, err,
  then_parse, set_once, reject_blank, lit_str, lit_bool, lit_int, lit_duration, FloatLiterals,
  RetrySpec, policy_of,
}
use queuey.Macros.Attrs.Retry.{parse_retry}
use queuey.Macros.SnakeCase.{Unicode, ends_behind_dot, is_empty, snake_case}

-- What `std`, Unicode and syn say.
pub record Host : Type 0 where
  pub fl : Floats
  pub two : F64
  pub literals : FloatLiterals
  pub white : ℕ → Bool
  pub unicode : Unicode
  pub is_path : String → Bool

pub record ContainerAttr : Type 0 where
  pub prefix : Option String
  pub core : Option String

pub record QueueAttr : Type 0 where
  pub name : Option String
  pub prefetch : Option ℕ
  pub durable : Option Bool
  pub message_ttl : Option ℕ
  pub max_priority : Option ℕ
  pub retry : Option RetrySpec

abbrev pub no_attr : QueueAttr
no_attr = record {
  name = none;
  prefetch = none;
  durable = none;
  message_ttl = none;
  max_priority = none;
  retry = none;
}

-- A key of an attribute: with a value, or with a list of keys.
pub data Meta : Type 0 where
  keyed : (key : String) → Value → Meta
  nested : (key : String) → List (String × Value) → Meta

abbrev pub is_seen : String → List String → Bool
is_seen name [] = false
is_seen name (s ∷ seen) = if str_eq s name then true else is_seen name seen

-- ContainerAttr::qualify
abbrev pub with_prefix : Option String → String → String
with_prefix none name = name
with_prefix (some prefix) name = prefix ++ ("." ++ name)

pub qualify : ContainerAttr → String → String
qualify container name = with_prefix container.prefix name

pub reject_trailing_separator : String → Parse String
reject_trailing_separator value =
    if ends_behind_dot false value then err trailing_separator else ok value

-- One key of `#[queues(...)]`.
pub add_container_key : Host → ContainerAttr → Meta → Parse ContainerAttr
add_container_key host parsed (nested key keys) =
    if is_seen key ("prefix" ∷ "crate" ∷ []) then err unparsed else err (unknown_key key)
add_container_key host parsed (keyed key value) =
    if str_eq key "prefix"
    then then_parse (lit_str key value) (λ lit. then_parse (reject_blank host.white lit key) (λ _.
      then_parse (reject_trailing_separator lit) (λ _.
        then_parse (set_once parsed.prefix key lit)
          (λ slot. ok (record parsed { prefix = slot })))))
    else if str_eq key "crate"
    then then_parse (lit_str key value) (λ lit.
      if host.is_path lit
      then then_parse (set_once parsed.core key lit) (λ slot. ok (record parsed { core = slot }))
      else err unparsed)
    else err (unknown_key key)

pub parse_container_attr : Host → List Meta → ContainerAttr → Parse ContainerAttr
parse_container_attr host [] parsed = ok parsed
parse_container_attr host (meta ∷ metas) parsed =
    then_parse (add_container_key host parsed meta) (parse_container_attr host metas)

abbrev positive_prefetch : ℕ → Parse ℕ
positive_prefetch n = if n == 0 then err zero_prefetch else ok n

-- MAX_MESSAGE_TTL_MS
abbrev short_ttl : ℕ → Parse ℕ
short_ttl millis = if ltb 4294967295 millis then err ttl_too_long else ok millis

-- One key of `#[queue(...)]`.
pub add_queue_key : Host → QueueAttr → Meta → Parse QueueAttr
add_queue_key host parsed (nested key keys) =
    if str_eq key "retry"
    then then_parse (parse_retry host.fl host.two host.literals host.white keys) (λ spec.
      then_parse (set_once parsed.retry key spec) (λ slot. ok (record parsed { retry = slot })))
    else if is_seen key ("name" ∷ "prefetch" ∷ "durable" ∷ "message_ttl" ∷ "max_priority" ∷ [])
    then err unparsed
    else err (unknown_key key)
add_queue_key host parsed (keyed key value) =
    if str_eq key "name"
    then then_parse (lit_str key value) (λ lit.
      then_parse (reject_blank host.white lit key) (λ _.
        then_parse (set_once parsed.name key lit) (λ slot. ok (record parsed { name = slot }))))
    else if str_eq key "prefetch"
    then then_parse (lit_int 65536 key value) (λ n. then_parse (positive_prefetch n) (λ _.
      then_parse (set_once parsed.prefetch key n) (λ slot. ok (record parsed { prefetch = slot }))))
    else if str_eq key "durable"
    then then_parse (lit_bool key value) (λ b.
      then_parse (set_once parsed.durable key b) (λ slot. ok (record parsed { durable = slot })))
    else if str_eq key "message_ttl"
    then then_parse (lit_duration host.white key value) (λ millis.
      then_parse (short_ttl millis) (λ _.
        then_parse (set_once parsed.message_ttl key millis)
          (λ slot. ok (record parsed { message_ttl = slot }))))
    else if str_eq key "max_priority"
    then then_parse (lit_int 256 key value) (λ n.
      then_parse (set_once parsed.max_priority key n)
        (λ slot. ok (record parsed { max_priority = slot })))
    else if str_eq key "retry"
    then err unparsed
    else err (unknown_key key)

pub parse_queue_attr : Host → List Meta → QueueAttr → Parse QueueAttr
parse_queue_attr host [] parsed = ok parsed
parse_queue_attr host (meta ∷ metas) parsed =
    then_parse (add_queue_key host parsed meta) (parse_queue_attr host metas)

-- A variant with the keys of all its `#[queue(...)]`; `is_misplaced` if it has a `#[queues(...)]`.
pub record Variant : Type 0 where
  pub ident : String
  pub is_unit : Bool
  pub is_misplaced : Bool
  pub metas : List Meta

pub record ResolvedQueue : Type 0 where
  pub ident : String
  pub name : String
  pub attr : QueueAttr

abbrev bare_name : Host → Variant → Option String → String
bare_name host variant none = snake_case host.unicode variant.ident
bare_name host variant (some name) = name

pub resolve_variant : Host → ContainerAttr → Variant → Parse ResolvedQueue
resolve_variant host container variant =
    if variant.is_unit
    then if variant.is_misplaced
      then err misplaced
      else then_parse (parse_queue_attr host variant.metas no_attr) (λ attr.
        let bare = bare_name host variant attr.name in
        if is_empty bare
        then err empty_queue_name
        else ok (record { ident = variant.ident; name = qualify container bare; attr = attr }))
    else err has_fields

pub resolve_variants : Host → ContainerAttr → List Variant → Parse (List ResolvedQueue)
resolve_variants host container [] = ok []
resolve_variants host container (variant ∷ variants) =
    then_parse (resolve_variant host container variant) (λ queue.
      then_parse (resolve_variants host container variants) (λ queues. ok (queue ∷ queues)))

-- The loop over `seen`.
pub check_names : (seen : List String) → List ResolvedQueue → Option SynError
check_names seen [] = none
check_names seen (queue ∷ queues) =
    let rest = check_names (queue.name ∷ seen) queues in
    if is_seen queue.name seen then some (duplicate_queue_name queue.name) else rest

abbrev distinct_names : List ResolvedQueue → Option SynError → Parse (List ResolvedQueue)
distinct_names queues none = ok queues
distinct_names queues (some e) = err e

abbrev has_variants : List Variant → Bool
has_variants [] = false
has_variants (v ∷ vs) = true

-- derive, from the keys of all `#[queues(...)]` of an enum without generics and its variants, where the
-- path to the core crate was found.
pub derive_queues :
    Host → (is_misplaced : Bool) → List Meta → List Variant → Parse (List ResolvedQueue)
derive_queues host is_misplaced metas variants =
    if has_variants variants
    then if is_misplaced
      then err misplaced
      else then_parse (parse_container_attr host metas (record { prefix = none; core = none }))
          (λ container.
            then_parse (resolve_variants host container variants)
              (λ queues. distinct_names queues (check_names [] queues)))
    else err no_variants

abbrev pub applied :
    {A : Type 0} → (QueueConfig → A → QueueConfig) → Option A → QueueConfig → QueueConfig
applied set none config = config
applied set (some value) config = set config value

-- What `config_expr` generates, evaluated.
pub config_expr : ResolvedQueue → QueueConfig
config_expr queue =
    applied (λ config spec. set_retry config (policy_of spec)) queue.attr.retry
      (applied set_max_priority queue.attr.max_priority (
        applied (λ config millis. set_message_ttl config (millis * 1000000)) queue.attr.message_ttl
          (applied set_durable queue.attr.durable
            (applied set_prefetch queue.attr.prefetch (new_config queue.name)))))

-- The generated implementation of `QueueSet`, with a variant as what was resolved of it.
pub queue_set_of : List ResolvedQueue → QueueSet ResolvedQueue
queue_set_of queues = record { all = queues; name = λ queue. queue.name; config = config_expr }
