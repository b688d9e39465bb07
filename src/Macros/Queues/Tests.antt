-- ===== src/Macros/Queues/Tests.antt =====
-- An enum of two queues, and one whose variants have one name.
use Prim.Native.Char.{Char, code}
use queuey.Common.{
  ◌&&◌, ◌≡◌, ◌↔◌, refl, true, false, leb, String, some, List, [], ◌∷◌, ◌==◌, if◌then◌else◌,
}
use queuey.QueueConfig.{from_name}
use queuey.QueueConfig.Lookup.{Listed}
use queuey.Retry.Tests.{whole_floats}
use queuey.Macros.Attrs.{integer, ok, err, duplicate_queue_name, lit_int, set_once}
use queuey.Macros.SnakeCase.{boundary, step, snake_on, snake_case}
use queuey.Macros.Queues.{
  Host, Meta, keyed, no_attr, Variant, ResolvedQueue, add_queue_key, parse_queue_attr,
  parse_container_attr, qualify, resolve_variant, resolve_variants, check_names, derive_queues,
  queue_set_of,
}
use queuey.Macros.Queues.Names.{name_of, derive_queues-from_name}

-- The letters of the names below.
abbrev lower_letter : Char → Char
lower_letter c = if code c == 69 then "e" else if code c == 83 then "s" else c

abbrev host : Host
host = record {
  fl = whole_floats;
  two = 2;
  literals = record { of_integer = λ n. n; negated = λ x. 0 };
  white = λ c. false;
  unicode = record {
    is_uppercase = λ c. leb 65 (code c) && leb (code c) 90;
    is_lowercase = λ c. leb 97 (code c) && leb (code c) 122;
    to_lowercase = λ c. String.◌∷◌ (lower_letter c) String.[];
  };
  is_path = λ path. true;
}

abbrev no_metas : List Meta
no_metas = []

abbrev emails : Variant
emails = record {
  ident = "Emails";
  is_unit = true;
  is_misplaced = false;
  metas = keyed "prefetch" (integer 4) ∷ [];
}

abbrev sms : Variant
sms = record { ident = "Sms"; is_unit = true; is_misplaced = false; metas = [] }

abbrev emails_queue : ResolvedQueue
emails_queue = record {
  ident = "Emails";
  name = "emails";
  attr = record no_attr { prefetch = some 4 };
}

abbrev queues : List ResolvedQueue
queues = emails_queue ∷ record { ident = "Sms"; name = "sms"; attr = no_attr } ∷ []

derived : derive_queues host false no_metas (emails ∷ sms ∷ []) ≡ ok queues
unfolding derive_queues parse_container_attr resolve_variants resolve_variant parse_queue_attr
    add_queue_key lit_int set_once snake_case snake_on step boundary qualify check_names
derived = refl

refused :
    derive_queues host false no_metas (sms ∷ record sms { ident = "SMS" } ∷ sms ∷ [])
    ≡ err (duplicate_queue_name "sms")
unfolding derive_queues parse_container_attr resolve_variants resolve_variant parse_queue_attr
    snake_case snake_on step boundary qualify check_names
refused = refl

abbrev asked : String
asked = "emails"

derive_queues-from_name_example :
    ((from_name (queue_set_of queues) asked ≡ some emails_queue)
      ↔ (Listed name_of emails_queue queues × (emails_queue.name ≡ asked)))
    × (((queue_set_of queues).config emails_queue).name ≡ emails_queue.name)
derive_queues-from_name_example =
    derive_queues-from_name host false no_metas (emails ∷ sms ∷ []) queues asked emails_queue
      derived
