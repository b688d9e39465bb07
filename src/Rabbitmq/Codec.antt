-- ===== src/Rabbitmq/Codec.antt =====
-- crates/rabbitmq/src/codec.rs: the AMQP properties and headers of an envelope, and the truncation of
-- texts to what AMQP allows. A `FieldTable` is the list of its entries as they are inserted, which
-- have different keys. How `uuid` writes an id is an argument.
pub mod Truncate
mod Tests
use Prim.Native.String.{len, slice}
use text.Mathlib.Text.{is_char_boundary}
use queuey.Common.{
  ℕ, zero, suc, String, Option, none, some, List, [], ◌∷◌, ◌++◌, leb, if◌then◌else◌,
}
use queuey.Envelope.{Envelope}
use queuey.Topology.{FieldTable, long_uint, long_string}
use queuey.Topology.Names.{max_short_string_length}

-- `BasicProperties`, the fields that are ever set here, and `expiration`, which never is.
pub record BasicProperties : Type 0 where
  pub content_type : Option String
  pub delivery_mode : Option ℕ
  pub message_id : Option String
  pub type_name : Option String
  pub priority : Option ℕ
  pub expiration : Option String
  pub headers : Option FieldTable

abbrev default_properties : BasicProperties
default_properties = record {
  content_type = none;
  delivery_mode = none;
  message_id = none;
  type_name = none;
  priority = none;
  expiration = none;
  headers = none;
}

-- The loop of truncate_at_boundary, down from `end`.
pub last_boundary : (value : String) → (end : ℕ) → ℕ
last_boundary value zero = zero
last_boundary value (suc end) =
    let lower = last_boundary value end in
    if is_char_boundary value (suc end) then suc end else lower

unfoldable pub truncate_at_boundary : (value : String) → (max : ℕ) → String
truncate_at_boundary value max =
    if leb (len value) max then value else slice value 0 (last_boundary value max)

pub clamped : String → String
clamped value = truncate_at_boundary value max_short_string_length

module _ {V : Type 0} where
  pub base_headers : Envelope V → FieldTable
  base_headers envelope =
      ("x-attempt", long_uint envelope.attempt) ∷ ("x-deferrals", long_uint envelope.deferrals) ∷ []

  pub props_for : (uuid_text : ℕ → String) → Envelope V → BasicProperties
  props_for uuid_text envelope = record default_properties {
    content_type = some "application/json";
    delivery_mode = some 2;
    message_id = some (clamped (uuid_text envelope.job_id));
    type_name = some (clamped envelope.job_type);
    priority = some envelope.priority;
    headers = some (base_headers envelope);
  }

  pub dead_letter_headers : Envelope V → (reason : String) → FieldTable
  dead_letter_headers envelope reason =
      base_headers envelope
      ++ ("x-death-reason", long_string reason)
        ∷ ("x-original-queue", long_string envelope.queue)
        ∷ ("x-attempts", long_uint envelope.attempt)
        ∷ []

  pub dead_letter_props :
      (uuid_text : ℕ → String) → Envelope V → (reason : String) → BasicProperties
  dead_letter_props uuid_text envelope reason = record (props_for uuid_text envelope) {
    headers = some (dead_letter_headers envelope reason);
  }

pub malformed_props : (original_queue reason : String) → BasicProperties
malformed_props original_queue reason = record default_properties {
  delivery_mode = some 2;
  headers = some (
      ("x-death-reason", long_string reason)
      ∷ ("x-original-queue", long_string original_queue)
      ∷ []);
}
