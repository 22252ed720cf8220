-- ===== src/Topics/RoundTrip.antt =====
-- Parsing and building a topic are inverse to one another on valid device ids.
use aiot_powerguard.Prelude.{
  ℕ, zero, suc, ◌≡◌, refl, sym, ◌∙◌, ◌≢◌, true, some, List, [], ◌∷◌, ◌++◌, arith, ◌==◌, nat_eq,
  list_eq, All, ℕ_discrete, Bool-cases, inl, inr,
}
use aiot_powerguard.Text.{Text, codes, split, match_up_to}
use aiot_powerguard.Topics.{
  TopicKind, telemetry, status, ParsedTopic, is_valid_device_id, later_char, parse_topic,
  parse_segments, telemetry_topic, status_topic, topic_of, topic_kind,
}

abbrev NoSlash : Text → Type 0
NoSlash = All (λ c. c ≢ b'/')

match_up_to-NoSlash : (n : ℕ) (s : Text) → match_up_to later_char n s ≡ true → NoSlash s
unfolding match_up_to
match_up_to-NoSlash zero [] h = tt
match_up_to-NoSlash zero (c ∷ []) h = ground arith
match_up_to-NoSlash zero (c ∷ d ∷ s) h = cc
match_up_to-NoSlash (suc n) [] h = tt
match_up_to-NoSlash (suc n) (c ∷ []) h = ground arith
match_up_to-NoSlash (suc n) (c ∷ d ∷ s) h = ground (arith, match_up_to-NoSlash n (d ∷ s))

is_valid_device_id-NoSlash : (d : Text) → is_valid_device_id d ≡ true → NoSlash d
unfolding is_valid_device_id
is_valid_device_id-NoSlash [] h = tt
is_valid_device_id-NoSlash (c ∷ s) h = ground (arith, match_up_to-NoSlash 31 s)

split-append : (d rest : Text) → NoSlash d → split b'/' (d ++ (b'/' ∷ rest)) ≡ d ∷ split b'/' rest
unfolding split ℕ_discrete
split-append [] rest h = refl
split-append (c ∷ d) rest h = ground (arith, split-append d rest h.1)

abbrev tail_of : TopicKind → Text
tail_of telemetry = codes "telemetry"
tail_of status = codes "status"

split-topic_of :
    (d : Text) (k : TopicKind)
    → NoSlash d
    → split b'/' (topic_of (record { device_id = d; kind = k }))
      ≡ codes "powerguard" ∷ codes "v1" ∷ codes "devices" ∷ d ∷ tail_of k ∷ []
unfolding split ℕ_discrete telemetry_topic status_topic
split-topic_of d telemetry h = rw (split-append d (codes "telemetry") h)
split-topic_of d status h = rw (split-append d (codes "status") h)

parse_topic_of :
    (d : Text) (k : TopicKind)
    → is_valid_device_id d ≡ true
    → parse_topic (topic_of (record { device_id = d; kind = k }))
      ≡ some (record { device_id = d; kind = k })
unfolding parse_topic topic_kind list_eq ℕ_discrete
parse_topic_of d telemetry h = rw (split-topic_of d telemetry (is_valid_device_id-NoSlash d h), h)
parse_topic_of d status h = rw (split-topic_of d status (is_valid_device_id-NoSlash d h), h)

-- A topic built for a valid device id parses to that id and kind.
pub parse_topic-topic_of :
    (p : ParsedTopic) → is_valid_device_id p.device_id ≡ true → parse_topic (topic_of p) ≡ some p
parse_topic-topic_of p h = parse_topic_of p.device_id p.kind h

-- `"/".join(segments)`
join : List Text → Text
join [] = []
join (d ∷ []) = d
join (d ∷ e ∷ ds) = d ++ (b'/' ∷ join (e ∷ ds))

join-cons_head : (c : ℕ) (d : Text) (ds : List Text) → join ((c ∷ d) ∷ ds) ≡ c ∷ join (d ∷ ds)
unfolding join
join-cons_head c d [] = refl
join-cons_head c d (e ∷ ds) = refl

split_cons : (s : Text) → (d : Text) × (ds : List Text) × (split b'/' s ≡ d ∷ ds)
unfolding split
split_cons [] = ([], [], refl)
split_cons (c ∷ s) =
    let (d, ds, e) = split_cons s in
    elim (Bool-cases (c == b'/')) [
      | inl slash ↦ ([], split b'/' s, rw slash)
      | inr other ↦ (c ∷ d, ds, rw (other, e))
    ]

join-split : (s : Text) → join (split b'/' s) ≡ s
unfolding split join
join-split [] = refl
join-split (c ∷ s) =
    let (d, ds, e) = split_cons s in ground (arith, e, join-split s, join-cons_head c d ds)

sound_segments :
    (ds : List Text) {p : ParsedTopic}
    → parse_segments ds ≡ some p
    → (join ds ≡ topic_of p) × (is_valid_device_id p.device_id ≡ true)
unfolding parse_segments topic_kind telemetry_topic status_topic join
sound_segments [] h = cc
sound_segments (a ∷ []) h = cc
sound_segments (a ∷ b ∷ []) h = cc
sound_segments (a ∷ b ∷ c ∷ []) h = cc
sound_segments (a ∷ b ∷ c ∷ d ∷ []) h = cc
sound_segments (a ∷ b ∷ c ∷ d ∷ e ∷ f ∷ g) h = cc
sound_segments (a ∷ b ∷ c ∷ d ∷ e ∷ []) h = ground arith

-- A topic that parses is the topic of the parsed device and kind, and that device id is valid.
pub parse_topic_sound :
    (t : Text) {p : ParsedTopic}
    → parse_topic t ≡ some p
    → (t ≡ topic_of p) × (is_valid_device_id p.device_id ≡ true)
unfolding parse_topic
parse_topic_sound t h =
    let (e, valid) = sound_segments (split b'/' t) h in (sym (join-split t) ∙ e, valid)
