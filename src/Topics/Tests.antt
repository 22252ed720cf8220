-- ===== src/Topics/Tests.antt =====
-- The topics at concrete inputs.
use aiot_powerguard.Prelude.{◌≡◌, refl, true, some, none, [], ◌∷◌, list_eq, ℕ_discrete}
use aiot_powerguard.Text.{Text, codes, split, match_up_to}
use aiot_powerguard.Topics.{
  ParsedTopic, telemetry, parse_topic, topic_of, is_valid_device_id, topic_kind,
}
use aiot_powerguard.Topics.RoundTrip.{parse_topic-topic_of, parse_topic_sound}

abbrev meter : Text
meter = codes "meter-01"

abbrev meter_topic : ParsedTopic
meter_topic = record { device_id = meter; kind = telemetry }

meter_valid : is_valid_device_id meter ≡ true
unfolding is_valid_device_id match_up_to ℕ_discrete
meter_valid = refl

wildcard_refused : parse_topic (codes "powerguard/v1/devices/+/telemetry") ≡ none
unfolding parse_topic split topic_kind is_valid_device_id match_up_to list_eq ℕ_discrete
wildcard_refused = refl

parse_topic-topic_of_example : parse_topic (topic_of meter_topic) ≡ some meter_topic
parse_topic-topic_of_example = parse_topic-topic_of meter_topic meter_valid

parse_topic_sound_example :
    (topic_of meter_topic ≡ topic_of meter_topic) × (is_valid_device_id meter ≡ true)
parse_topic_sound_example =
    parse_topic_sound (topic_of meter_topic) (parse_topic-topic_of meter_topic meter_valid)

newline_accepted : is_valid_device_id (b'a' ∷ b'b' ∷ 10 ∷ []) ≡ true
unfolding is_valid_device_id match_up_to ℕ_discrete
newline_accepted = refl
