-- ===== src/Topics.antt =====
-- backend/src/powerguard/mqtt/topics.py: the device topics of MQTT v1.
pub mod RoundTrip
pub mod DeviceId
mod Tests
use aiot_powerguard.Prelude.{
  Bool, false, ◌&&◌, ◌||◌, Option, none, some, List, [], ◌∷◌, ◌++◌, ◌==◌, Eq, nat_eq, list_eq,
  eq_of, if◌then◌else◌, ℕ,
}
use aiot_powerguard.Text.{Text, codes, split, match_up_to, is_lower, is_digit}

pub data TopicKind : Type 0 where
  telemetry status : TopicKind

pub record ParsedTopic : Type 0 where
  pub device_id : Text
  pub kind : TopicKind

abbrev pub first_char : ℕ → Bool
first_char c = is_lower c || is_digit c

abbrev pub later_char : ℕ → Bool
later_char c = is_lower c || (is_digit c || (c == b'_' || c == b'-'))

-- `^[a-z0-9][a-z0-9_-]{0,31}$`
unfoldable pub is_valid_device_id : Text → Bool
is_valid_device_id [] = false
is_valid_device_id (c ∷ s) = first_char c && match_up_to later_char 31 s

abbrev pub kind_text : TopicKind → Text
kind_text telemetry = codes "telemetry"
kind_text status = codes "status"

-- `TopicKind(text)`, whose `ValueError` is `none`
unfoldable pub topic_kind : Text → Option TopicKind
topic_kind t =
    if t == codes "telemetry"
    then some telemetry
    else if t == codes "status"
    then some status
    else none

abbrev with_kind : Text → Option TopicKind → Option ParsedTopic
with_kind d none = none
with_kind d (some k) = some (record { device_id = d; kind = k })

parse_segments : List Text → Option ParsedTopic
parse_segments (a ∷ b ∷ c ∷ d ∷ e ∷ []) =
    if a == codes "powerguard" && (b == codes "v1" && c == codes "devices")
    then (if is_valid_device_id d then with_kind d (topic_kind e) else none)
    else none
parse_segments _ = none

unfoldable pub parse_topic : Text → Option ParsedTopic
unfolding parse_segments
parse_topic t = parse_segments (split b'/' t)

-- the text before the device id in every topic
abbrev pub prefix : Text
prefix = codes "powerguard/v1/devices/"

unfoldable pub telemetry_topic : Text → Text
telemetry_topic d = prefix ++ (d ++ codes "/telemetry")

unfoldable pub status_topic : Text → Text
status_topic d = prefix ++ (d ++ codes "/status")

abbrev pub topic_of : ParsedTopic → Text
topic_of p = elim (p.kind) [
  | telemetry ↦ telemetry_topic p.device_id
  | status ↦ status_topic p.device_id
]
