-- ===== src/Queue/Packet.antt =====
-- What the queue services read of a packet: fields of a `dict[str, Any]` that may be missing, `None` or
-- of another type (runtime/orchestration/queue_claim_runtime/default.py).
use paa_platform.Prelude.{
  String, Bool, true, false, ◌||◌, ◌==◌, Option, none, some, List, member, if◌then◌else◌,
}
use paa_platform.Json.{
  Value, null, flag, number, text, tuple, dict, Dict, empty, entry, get, opt_text, truth,
}

-- `d.get(k)`, with `None` as a value.
abbrev pub get_or_null : Dict → String → Value
get_or_null d k = elim (get d k) [ none ↦ null | some v ↦ v ]

-- `d.get(j) or d.get(k)`
abbrev pub get_either : Dict → String → String → Value
get_either d j k = if truth (get_or_null d j) then get_or_null d j else get_or_null d k

-- `value if isinstance(value, str) and value else None`
abbrev pub named_text : Value → Option String
named_text (text s) = if s == "" then none else some s
named_text null = none
named_text (flag b) = none
named_text (number n) = none
named_text (tuple vs) = none
named_text (dict d) = none

-- `x if isinstance(x, dict) else None`
abbrev pub as_dict : Value → Option Dict
as_dict (dict d) = some d
as_dict null = none
as_dict (flag b) = none
as_dict (number n) = none
as_dict (text s) = none
as_dict (tuple vs) = none

abbrev pub is_null : Value → Bool
is_null null = true
is_null (flag b) = false
is_null (number n) = false
is_null (text s) = false
is_null (tuple vs) = false
is_null (dict d) = false

unfoldable pub validation_ok : Value → Bool
validation_ok v = elim (as_dict v) [
  | none ↦ truth v
  | some d ↦ is_null (get_or_null d "ok") || truth (get_or_null d "ok")
]

unfoldable pub packet_message_id : Value → Option String
packet_message_id packet = elim (as_dict packet) [
  | none ↦ none
  | some d ↦ named_text (get_either d "packet_message_id" "message_id")
]

unfoldable pub packet_schema_type : Value → Option String
packet_schema_type packet = elim (as_dict packet) [
  | none ↦ none
  | some d ↦ named_text (get_or_null d "packet_schema_type")
]

unfoldable pub packet_reference : Value → Option String
packet_reference packet = elim (as_dict packet) [
  | none ↦ none
  | some d ↦ named_text (get_either d "packet_path" "packet_reference")
]

unfoldable pub normalized_envelope : Value → Option Dict
normalized_envelope packet = elim (as_dict packet) [
  | none ↦ none
  | some d ↦ some (
      entry "packet_message_id" (opt_text (packet_message_id packet)) (
        entry "packet_schema_type" (opt_text (packet_schema_type packet))
          (entry "packet_reference" (opt_text (packet_reference packet)) empty)))
]

unfoldable pub normalized_payload : Value → Option Dict
normalized_payload packet = elim (as_dict packet) [
  | none ↦ none
  | some d ↦ as_dict (get_or_null d "packet_payload")
]

abbrev pub opt_member : Option String → List String → Bool
opt_member none names = false
opt_member (some n) names = member n names
