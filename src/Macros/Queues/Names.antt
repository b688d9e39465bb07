-- ===== src/Macros/Queues/Names.antt =====
-- The queues of a derived `QueueSet` are found by their names (crates/macros/src/queues.rs with
-- crates/core/src/queue.rs).
use queuey.Common.{
  ◌≡◌, ◌≢◌, ◌↔◌, refl, ap, ◌∙◌, sym, inl, inr, String, eq_iff, Bool, false, Option, none, some,
  List, [], ◌∷◌, All, All-map, arith, Option-cases,
}
use queuey.QueueConfig.{
  QueueConfig, from_name, new_config, set_prefetch, set_retry, set_durable, set_message_ttl,
  set_max_priority,
}
use queuey.QueueConfig.Lookup.{NamesDiffer, Listed, from_name_iff}
use queuey.Macros.Attrs.{Parse-cases, ok}
use queuey.Macros.Queues.{
  new_config, set_max_priority, set_message_ttl, set_durable, set_retry, set_prefetch, Host, Meta,
  Variant, ResolvedQueue, is_seen, check_names, derive_queues, queue_set_of, resolve_variants,
  parse_container_attr, config_expr, applied,
}

abbrev pub name_of : ResolvedQueue → String
name_of queue = queue.name

check_names-distinct :
    (seen : List String) (queues : List ResolvedQueue)
    → check_names seen queues ≡ none
    → All (λ queue. is_seen queue.name seen ≡ false) queues × NamesDiffer name_of queues
unfolding check_names
check_names-distinct seen [] h = (tt, tt)
check_names-distinct seen (queue ∷ queues) h =
    let fresh : is_seen queue.name seen ≡ false = ground arith in
    let later : check_names (queue.name ∷ seen) queues ≡ none = ground arith in
    let (unseen, differ) = check_names-distinct (queue.name ∷ seen) queues later in
    (
      (fresh, All-map _ (λ q. is_seen q.name seen ≡ false) (λ q e. ground arith) queues unseen),
      (
        All-map _ (λ q. q.name ≢ queue.name) (λ q e same. ground (arith, eq_iff queue.name q.name))
            queues unseen,
        differ,
      ),
    )

-- What was accepted has distinct names.
derive_queues-distinct :
    (host : Host) (is_misplaced : Bool) (metas : List Meta) (variants : List Variant)
    (queues : List ResolvedQueue)
    → derive_queues host is_misplaced metas variants ≡ ok queues
    → check_names [] queues ≡ none
unfolding derive_queues
derive_queues-distinct host is_misplaced metas variants queues h =
    elim (Parse-cases (parse_container_attr host metas (record { prefix = none; core = none }))) [
      | inr (e, failed) ↦ absurd (ground arith)
      | inl (container, parsed) ↦ elim (Parse-cases (resolve_variants host container variants)) [
        | inr (e, failed) ↦ absurd (ground arith)
        | inl (all, resolved) ↦ elim (Option-cases (check_names [] all)) [
          | inr (e, failed) ↦ absurd (ground arith)
          | inl fine ↦
              let same : all ≡ queues = ground arith in ap (check_names []) (sym same) ∙ fine
        ]
      ]
    ]

applied-name :
    {A : Type 0} (set : QueueConfig → A → QueueConfig) (slot : Option A) (config : QueueConfig)
    → ((c : QueueConfig) (a : A) → (set c a).name ≡ c.name)
    → (applied set slot config).name ≡ config.name
applied-name set none config keeps = refl
applied-name set (some a) config keeps = keeps config a

config_expr-name : (queue : ResolvedQueue) → (config_expr queue).name ≡ queue.name
unfolding config_expr set_prefetch set_retry set_durable set_message_ttl set_max_priority new_config
config_expr-name queue =
    applied-name _ queue.attr.retry _ (λ c a. refl)
    ∙ (applied-name set_max_priority queue.attr.max_priority _ (λ c a. refl)
        ∙ (applied-name _ queue.attr.message_ttl _ (λ c a. refl)
            ∙ (applied-name set_durable queue.attr.durable _ (λ c a. refl)
                ∙ applied-name set_prefetch queue.attr.prefetch _ (λ c a. refl))))

-- An enum that the derive accepts is a queue set whose names differ, so that looking up a name gives a
-- variant exactly if it is one of the enum and has this name; and the configuration of each queue
-- is for that name.
pub derive_queues-from_name :
    (host : Host) (is_misplaced : Bool) (metas : List Meta) (variants : List Variant)
    (queues : List ResolvedQueue) (s : String) (queue : ResolvedQueue)
    → derive_queues host is_misplaced metas variants ≡ ok queues
    → ((from_name (queue_set_of queues) s ≡ some queue)
        ↔ (Listed name_of queue queues × (queue.name ≡ s)))
      × (((queue_set_of queues).config queue).name ≡ queue.name)
unfolding queue_set_of
derive_queues-from_name host is_misplaced metas variants queues s queue h =
    let (_, differ) =
      check_names-distinct [] queues
        (derive_queues-distinct host is_misplaced metas variants queues h) in
    (from_name_iff (queue_set_of queues) s queue differ, config_expr-name queue)
