-- ===== src/Artifact/Valid.antt =====
-- What `validate` has checked when it returns.
use aiot_powerguard.Prelude.{◌≡◌, ap, ◌∙◌, true, Option, none, some, list_eq, nat_eq, arith}
use aiot_powerguard.Prelude.Int.{ℤ, pos, negsuc}
use aiot_powerguard.Prelude.Result.{done, bind-done, demand-then, demand-done, done-injective}
use aiot_powerguard.Text.{Text, codes}
use aiot_powerguard.Json.{Members, Builtins, get}
use aiot_powerguard.Artifact.{
  ArtifactFiles, validate, score_items, as_int, as_float, as_floats, consecutive_of, stride_of,
  is_text, is_names, is_window, matches, missing, check_complete, file_present,
  wrong_metadata_version, wrong_feature_version, wrong_feature_order, wrong_window, wrong_device,
  wrong_regime, checksum_differs,
}

-- the checks that `validate` passes
pub record IsValid {F : Type 0} (py : Builtins F) (payload : Members F) (files : ArtifactFiles F)
    (device_id calibration_fingerprint : Option Text) : Type 0 where
  pub metadata_version :
      is_text (get (codes "metadata_version") payload) (codes "powerguard_artifact_v1") ≡ true
  pub feature_version :
      is_text (get (codes "feature_version") payload) (codes "powerguard_features_v1") ≡ true
  pub features : is_names (get (codes "feature_names") payload) ≡ true
  pub window : as_int py (get (codes "window") payload) ≡ done (pos 30)
  pub device : matches device_id (get (codes "device_id") payload) ≡ true
  pub regime :
      matches calibration_fingerprint (get (codes "calibration_fingerprint") payload) ≡ true
  pub checksum :
      (digest : Text) × (files.model_sha256 ≡ some digest)
      × (is_text (get (codes "model_sha256") payload) digest ≡ true)

is_window-eq : (n : ℤ) → is_window n ≡ true → n ≡ pos 30
is_window-eq (pos n) h = let e : n ≡ 30 = ground arith in ap pos e
is_window-eq (negsuc n) h = absurd cc

file_present-some :
    (o : Option Text) (digest : Text) → file_present o ≡ done digest → o ≡ some digest
file_present-some none digest h = absurd cc
file_present-some (some d) digest h = ap some (done-injective d digest h)

module _ {F : Type 0} (py : Builtins F) where
  pub validate-IsValid :
      (payload : Members F) (files : ArtifactFiles F) (device_id fp : Option Text) (u : Unit {0})
      → validate py payload files device_id fp ≡ done u
      → IsValid py payload files device_id fp
  unfolding validate
  validate-IsValid payload files device_id fp u h =
      let (_, _, h0) = bind-done (check_complete (missing payload)) _ u h in
      let (a, h1) =
        demand-then
          (is_text (get (codes "metadata_version") payload) (codes "powerguard_artifact_v1"))
          wrong_metadata_version _ u h0 in
      let (b, h2) =
        demand-then
          (is_text (get (codes "feature_version") payload) (codes "powerguard_features_v1"))
          wrong_feature_version _ u h1 in
      let (c, h3) =
        demand-then (is_names (get (codes "feature_names") payload)) wrong_feature_order _ u h2 in
      let (window, w, h4) = bind-done (as_int py (get (codes "window") payload)) _ u h3 in
      let (d, h5) = demand-then (is_window window) wrong_window _ u h4 in
      let (_, _, h6) = bind-done (stride_of payload) _ u h5 in
      let (_, _, h7) = bind-done (as_float py (get (codes "threshold") payload)) _ u h6 in
      let (_, _, h8) = bind-done (consecutive_of py payload) _ u h7 in
      let (e, h9) =
        demand-then (matches device_id (get (codes "device_id") payload)) wrong_device _ u h8 in
      let (f, h10) =
        demand-then (matches fp (get (codes "calibration_fingerprint") payload)) wrong_regime _ u
          h9 in
      let (scores, _, h11) =
        bind-done (score_items (get (codes "calibration_scores") payload)) _ u h10 in
      let (_, _, h12) = bind-done (as_floats py scores) _ u h11 in
      let (actual, k, h13) = bind-done (file_present files.model_sha256) _ u h12 in
      let l =
        demand-done (is_text (get (codes "model_sha256") payload) actual) checksum_differs u h13 in
      record {
        metadata_version = a;
        feature_version = b;
        features = c;
        window = w ∙ ap done (is_window-eq window d);
        device = e;
        regime = f;
        checksum = (actual, file_present-some files.model_sha256 actual k, l);
      }
