-- ===== src/Artifact/Tests.antt =====
-- An artifact of one device, asked for by its name and by another, and one with an endless window.
use aiot_powerguard.Prelude.{
  ℕ, ◌≡◌, refl, Bool, true, false, none, some, List, [], ◌∷◌, list_eq, ℕ_discrete, ◌==◌, nat_eq,
}
use aiot_powerguard.Prelude.Int.{ℤ, pos}
use aiot_powerguard.Prelude.Result.{done, refused}
use aiot_powerguard.Text.{Text, codes}
use aiot_powerguard.Json.{
  Json, Items, Members, Builtins, Conversion, value, not_a_number, too_large, int, float, str,
  array, object, nil, item, empty, member,
}
use aiot_powerguard.Features.{TrainedModel}
use aiot_powerguard.Detector.{Engine}
use aiot_powerguard.Artifact.{
  ArtifactFiles, document, scoring, overflow_error, validate, as_int, as_float, as_floats,
  consecutive_of, stride_of, feature_names,
}
use aiot_powerguard.Artifact.Load.{load, adopt, unavailable, start}
use aiot_powerguard.Artifact.Trusted.{IsTrusted, start-IsTrusted}

abbrev text_of : Json ℕ → Text
text_of (str s) = s
text_of _ = []

abbrev number_of : Json ℕ → Conversion ℕ
number_of (float f) = value f
number_of (int (pos n)) = value n
number_of _ = not_a_number

-- the float 9999 is infinite
abbrev whole_of : Json ℕ → Conversion ℤ
whole_of (int n) = value n
whole_of (float f) = if_endless (f == 9_999)
  where
    if_endless : Bool → Conversion ℤ
    if_endless true = too_large
    if_endless false = value (pos f)
whole_of _ = not_a_number

abbrev py : Builtins ℕ
py = record {
  str_of = text_of;
  float_of = number_of;
  int_of = whole_of;
  is_space = λ c. c == 32;
  equals = λ f n. f == n;
  fromisoformat = λ _. none;
}

abbrev names : List Text → Items ℕ
names [] = nil
names (n ∷ ns) = item (str n) (names ns)

abbrev payload : Json ℕ → Members ℕ
payload window = member (codes "metadata_version") (str (codes "powerguard_artifact_v1")) (
    member (codes "model_version") (str (codes "m1")) (
      member (codes "device_id") (str (codes "plug-1")) (
        member (codes "feature_version") (str (codes "powerguard_features_v1")) (
          member (codes "feature_names") (array (names feature_names)) (
            member (codes "window") window (
              member (codes "expected_seq_stride") (int (pos 2)) (
                member (codes "threshold") (float 99) (
                  member (codes "calibration_scores") (array (item (float 5) nil))
                    (member (codes "model_sha256") (str (codes "abc")) empty)))))))))

abbrev files : Json ℕ → ArtifactFiles ℕ
files window = record {
  metadata = document (object (payload window));
  model_sha256 = some (codes "abc");
  model = scoring (λ _. 7);
}

abbrev sorted : List ℕ → List ℕ
sorted xs = xs

abbrev model : TrainedModel ℕ
model = record {
  score_samples = λ _. 7;
  calibration_scores = 5 ∷ [];
  threshold = 99;
  consecutive = 2;
}

abbrev engine : Engine ℕ
engine = record {
  model = some model;
  artifact_device_id = codes "plug-1";
  stride = 2;
  gap = 4;
  model_version = codes "m1";
}

starts :
    start py sorted 4 (some (files (int (pos 30)))) (some (codes "plug-1")) none none ≡ done engine
unfolding start load adopt validate as_int as_float as_floats consecutive_of stride_of list_eq
    ℕ_discrete
starts = refl

other_device :
    start py sorted 4 (some (files (int (pos 30)))) (some (codes "plug-2")) none none
    ≡ done (unavailable 4 none)
unfolding start load adopt validate as_int as_float as_floats consecutive_of stride_of list_eq
    ℕ_discrete
other_device = refl

endless_window :
    start py sorted 4 (some (files (float 9_999))) none none none ≡ refused overflow_error
unfolding start load adopt validate as_int as_float as_floats consecutive_of stride_of list_eq
    ℕ_discrete
endless_window = refl

start-IsTrusted_example :
    (f : ArtifactFiles ℕ) × (some (files (int (pos 30))) ≡ some f)
    × IsTrusted py sorted 4 f (some (codes "plug-1")) none engine model
start-IsTrusted_example =
    start-IsTrusted py sorted 4 (some (files (int (pos 30)))) (some (codes "plug-1")) none none
      engine model starts refl
