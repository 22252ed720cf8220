-- ===== src/Validation/Outcomes.antt =====
-- What each result of `validate_message` says of the message.
use aiot_powerguard.Prelude.{
  ℕ, ◌≤◌, ◌<◌, ◌≡◌, Bool, true, false, Option, none, some, List, arith, length, Option-cases, inl,
  inr, ◌↔◌, is_some,
}
use aiot_powerguard.Prelude.Dict.{Dict}
use aiot_powerguard.Text.{Text}
use aiot_powerguard.Topics.{telemetry, ParsedTopic, parse_topic}
use aiot_powerguard.Measure.{Floats}
use aiot_powerguard.Settings.{Settings}
use aiot_powerguard.Payload.{Value, good, TelemetryPayload, telemetry_model}
use aiot_powerguard.Validation.{
  valid_telemetry, invalid, RejectionReason, Detail, topic_invalid, no_detail, payload_too_large,
  limit, Codec, Loaded, object, other_root, decode_error, escapes, check_measurement_bounds,
  check_power_consistency, validate_message,
}

abbrev object? : {F : Type 0} → Loaded F → Option (Dict Text (Value F))
object? (object d) = some d
object? other_root = none
object? decode_error = none
object? escapes = none

object?-some :
    {F : Type 0} (l : Loaded F) (d : Dict Text (Value F)) → object? l ≡ some d → l ≡ object d
object?-some l d h = ground arith

module _ {F : Type 0} (fl : Floats F) (settings : Settings F) (codec : Codec F) where
  -- The path of an accepted telemetry message through the checks.
  pub record Accepts (topic : Text) (payload : List ℕ) (parsed : ParsedTopic)
      (p : TelemetryPayload F) : Type 0 where
    pub text : Text
    pub document : Dict Text (Value F)
    pub topic_ok : parse_topic topic ≡ some parsed
    pub kind_ok : parsed.kind ≡ telemetry
    pub size_ok : length payload ≤ settings.max_payload_bytes
    pub is_text : codec.decode_utf8 payload ≡ some text
    pub is_object : codec.loads text ≡ object document
    pub model_ok : telemetry_model codec.calendar fl document ≡ good p
    pub in_range : check_measurement_bounds fl settings p ≡ none
    pub consistent : check_power_consistency fl settings p ≡ false

  accepted-path :
      (topic : Text) (payload : List ℕ) (retained : Bool) (parsed : ParsedTopic)
      (p : TelemetryPayload F)
      → validate_message fl settings codec topic payload retained ≡ some (valid_telemetry parsed p)
      → Accepts topic payload parsed p
  unfolding validate_message
  accepted-path topic payload retained parsed p h =
      elim (Option-cases (codec.decode_utf8 payload)) [
        | inl e ↦ absurd (ground arith)
        | inr (text, e) ↦ elim (Option-cases (object? (codec.loads text))) [
          | inl k ↦ absurd (ground arith)
          | inr (d, k) ↦
              let l = object?-some (codec.loads text) d k in
              record {
                text = text;
                document = d;
                topic_ok = ground arith;
                kind_ok = ground arith;
                size_ok = ground arith;
                is_text = e;
                is_object = l;
                model_ok = ground arith;
                in_range = ground arith;
                consistent = ground arith;
              }
        ]
      ]

  -- A message is accepted as telemetry exactly if its topic is a telemetry topic, its payload is
  -- within the size limit and decodes to an object that the model accepts, and the reading
  -- passes the range and the power checks.
  pub validate_message-telemetry_iff :
      (topic : Text) (payload : List ℕ) (retained : Bool) (parsed : ParsedTopic)
      (p : TelemetryPayload F)
      → (validate_message fl settings codec topic payload retained
          ≡ some (valid_telemetry parsed p))
        ↔ Accepts topic payload parsed p
  unfolding validate_message
  validate_message-telemetry_iff topic payload retained parsed p =
      (accepted-path topic payload retained parsed p, λ a. ground arith)

  escape-path :
      (topic : Text) (payload : List ℕ) (retained : Bool)
      → validate_message fl settings codec topic payload retained ≡ none
      → (is_some (parse_topic topic) ≡ true)
        × (length payload ≤ settings.max_payload_bytes)
        × ((text : Text) × (codec.decode_utf8 payload ≡ some text) × (codec.loads text ≡ escapes))
  unfolding validate_message
  escape-path topic payload retained h = elim (Option-cases (codec.decode_utf8 payload)) [
    | inl e ↦ absurd (ground arith)
    | inr (text, e) ↦ (ground arith, ground arith, (text, e, ground arith))
  ]

  -- An exception escapes from the validation exactly if the topic parses, the payload is within
  -- the size limit and decodes, and `json.loads` raises something other than `JSONDecodeError`.
  pub validate_message-escape_iff :
      (topic : Text) (payload : List ℕ) (retained : Bool)
      → (validate_message fl settings codec topic payload retained ≡ none) ↔ (
          (is_some (parse_topic topic) ≡ true)
          × (length payload ≤ settings.max_payload_bytes)
          × ((text : Text) × (codec.decode_utf8 payload ≡ some text)
              × (codec.loads text ≡ escapes)))
  unfolding validate_message
  validate_message-escape_iff topic payload retained =
      (escape-path topic payload retained, λ (a, b, (text, e, l)). ground arith)

-- A payload over the limit is rejected with the same result whatever the decoder and the JSON
-- parser would do with it.
pub validate_message-too_large :
    {F : Type 0} (fl : Floats F) (settings : Settings F) (c c' : Codec F) (topic : Text)
    (payload : List ℕ) (retained : Bool)
    → settings.max_payload_bytes < length payload
    → (reason : RejectionReason) × (detail : Detail) × (validate_message fl settings c topic payload
          retained
        ≡ some (invalid reason detail))
      × (validate_message fl settings c' topic payload retained ≡ some (invalid reason detail))
unfolding validate_message
validate_message-too_large fl settings c c' topic payload retained big =
    elim (Option-cases (parse_topic topic)) [
      | inl e ↦ (topic_invalid, no_detail, ground arith, ground arith)
      | inr (parsed, e) ↦
          (payload_too_large, limit settings.max_payload_bytes, ground arith, ground arith)
    ]
