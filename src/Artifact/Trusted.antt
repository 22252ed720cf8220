-- ===== src/Artifact/Trusted.antt =====
-- What an engine that is ready was loaded from.
use aiot_powerguard.Prelude.{
  ℕ, ◌≤◌, ◌≡◌, refl, sym, ap, ◌∙◌, true, Option, none, some, List, [], ◌∷◌, ◌==◌, list_eq, nat_eq,
  length, arith, Option-cases, inl, inr, subst,
}
use aiot_powerguard.Prelude.Result.{Result, done, refused, bind-done, done-injective}
use aiot_powerguard.Text.{Text, codes}
use aiot_powerguard.Json.{
  Json, Items, Members, Builtins, null, bool, int, float, str, array, object, nil, item, get,
}
use aiot_powerguard.Prepare.Clean.{IsOf}
use aiot_powerguard.Features.{TrainedModel}
use aiot_powerguard.Detector.{Engine}
use aiot_powerguard.Artifact.{
  ArtifactError, MetadataFile, Pickle, ArtifactFiles, absent, malformed, document, broken,
  without_scores, scoring, read_metadata, metadata_of, validate, pipeline_of, score_items, as_float,
  as_floats, consecutive_of, stride_of, owner_of, is_text, matches,
}
use aiot_powerguard.Artifact.Valid.{IsValid, validate-IsValid}
use aiot_powerguard.Artifact.Load.{load, unavailable, adopt, caught, start}

module _ {F : Type 0} where
  metadata_of-object :
      (d : MetadataFile F) (payload : Members F)
      → metadata_of d ≡ done payload
      → d ≡ document (object payload)
  metadata_of-object absent payload h = absurd cc
  metadata_of-object malformed payload h = absurd cc
  metadata_of-object (document (object p)) payload h =
      ap (λ q. document (object q)) (done-injective p payload h)
  metadata_of-object (document null) payload h = absurd cc
  metadata_of-object (document (bool b)) payload h = absurd cc
  metadata_of-object (document (int n)) payload h = absurd cc
  metadata_of-object (document (float f)) payload h = absurd cc
  metadata_of-object (document (str s)) payload h = absurd cc
  metadata_of-object (document (array xs)) payload h = absurd cc

  pipeline_of-scoring : (p : Pickle F) (f : List F → F) → pipeline_of p ≡ done f → p ≡ scoring f
  pipeline_of-scoring broken f h = absurd cc
  pipeline_of-scoring without_scores f h = absurd cc
  pipeline_of-scoring (scoring g) f h = ap scoring (done-injective g f h)

  stride_of-fits : (payload : Members F) (n : ℕ) → stride_of payload ≡ done n → (1 ≤ n) × (n ≤ 8)
  unfolding stride_of
  stride_of-fits payload n h = ground arith

  owner_of-str :
      (v : Option (Json F)) (owner : Text)
      → owner_of v ≡ some owner
      → (v ≡ some (str owner)) × (1 ≤ length owner)
  owner_of-str none owner h = absurd cc
  owner_of-str (some null) owner h = absurd cc
  owner_of-str (some (bool b)) owner h = absurd cc
  owner_of-str (some (int n)) owner h = absurd cc
  owner_of-str (some (float f)) owner h = absurd cc
  owner_of-str (some (str [])) owner h = absurd cc
  owner_of-str (some (str (c ∷ s))) owner h =
      let e : c ∷ s ≡ owner = ground arith in
      (ap (λ t. some (str t)) e, subst (λ t. 1 ≤ length t) e (omega arith))
  owner_of-str (some (array xs)) owner h = absurd cc
  owner_of-str (some (object o)) owner h = absurd cc

  score_items-filled :
      (v : Option (Json F)) (xs : Items F)
      → score_items v ≡ done xs
      → (x : Json F) × (rest : Items F) × (xs ≡ item x rest)
  score_items-filled none xs h = absurd cc
  score_items-filled (some null) xs h = absurd cc
  score_items-filled (some (bool b)) xs h = absurd cc
  score_items-filled (some (int n)) xs h = absurd cc
  score_items-filled (some (float f)) xs h = absurd cc
  score_items-filled (some (str s)) xs h = absurd cc
  score_items-filled (some (object o)) xs h = absurd cc
  score_items-filled (some (array nil)) xs h = absurd cc
  score_items-filled (some (array (item v rest))) xs h =
      (v, rest, sym (done-injective (item v rest) xs h))

  asked :
      (device_id : Option Text) (v : Option (Json F)) (owner : Text)
      → matches device_id v ≡ true
      → v ≡ some (str owner)
      → IsOf device_id owner
  asked none v owner h e = tt
  asked (some d) v owner h e =
      let k : (owner == d) ≡ true = subst (λ w. is_text w d ≡ true) e h in ground arith

module _ {F : Type 0} (py : Builtins F) (sort : List F → List F) where
  as_floats-filled :
      (x : Json F) (rest : Items F) (ns : List F)
      → as_floats py (item x rest) ≡ done ns
      → 1 ≤ length ns
  unfolding as_floats
  as_floats-filled x rest ns h =
      let (y, _, h1) = bind-done (as_float py (some x)) _ ns h in
      let (ys, _, h2) = bind-done (as_floats py rest) _ ns h1 in
      subst (λ w. 1 ≤ length w) (done-injective (y ∷ ys) ns h2) (omega arith)

  -- the model that was loaded, and from what
  pub record IsLoaded (files : ArtifactFiles F) (device_id calibration_fingerprint : Option Text)
      (model : TrainedModel F) (payload : Members F) : Type 0 where
    pub metadata : files.metadata ≡ document (object payload)
    pub valid : IsValid py payload files device_id calibration_fingerprint
    pub pipeline : files.model ≡ scoring model.score_samples
    pub scores :
        (numbers : List F) × (1 ≤ length numbers) × (model.calibration_scores ≡ sort numbers)

  load-IsLoaded :
      (files : ArtifactFiles F) (device_id fp : Option Text) (model : TrainedModel F)
      (payload : Members F)
      → load py sort files device_id fp ≡ done (model, payload)
      → IsLoaded files device_id fp model payload
  unfolding load
  load-IsLoaded files device_id fp model payload h =
      let (read, r, h1) = bind-done (read_metadata files) _ (model, payload) h in
      let (u, v, h2) = bind-done (validate py read files device_id fp) _ (model, payload) h1 in
      let (f, p, h3) = bind-done (pipeline_of files.model) _ (model, payload) h2 in
      let (scores, s, h4) =
        bind-done (score_items (get (codes "calibration_scores") read)) _ (model, payload) h3 in
      let (numbers, n, h5) = bind-done (as_floats py scores) _ (model, payload) h4 in
      let (threshold, _, h6) =
        bind-done (as_float py (get (codes "threshold") read)) _ (model, payload) h5 in
      let (consecutive, _, h7) = bind-done (consecutive_of py read) _ (model, payload) h6 in
      let same = done-injective _ (model, payload) h7 in
      let (x, rest, e) = score_items-filled (get (codes "calibration_scores") read) scores s in
      subst (λ q. IsLoaded files device_id fp q.0 q.1) same
        (record {
          metadata = metadata_of-object files.metadata read r;
          valid = validate-IsValid py read files device_id fp u v;
          pipeline = pipeline_of-scoring files.model f p;
          scores = (numbers, as_floats-filled x rest numbers (ap (as_floats py) (sym e) ∙ n), refl);
        })

module _ {F : Type 0} (py : Builtins F) (sort : List F → List F) (gap : ℕ) where
  -- what the engine is, for the artifact that was loaded
  pub record IsTrusted (files : ArtifactFiles F) (device_id calibration_fingerprint : Option Text)
      (engine : Engine F) (model : TrainedModel F) : Type 0 where
    pub payload : Members F
    pub loaded : IsLoaded py sort files device_id calibration_fingerprint model payload
    pub owner : get (codes "device_id") payload ≡ some (str engine.artifact_device_id)
    pub owner_filled : 1 ≤ length engine.artifact_device_id
    pub owner_asked : IsOf device_id engine.artifact_device_id
    pub stride : stride_of payload ≡ done engine.stride
    pub stride_fits : (1 ≤ engine.stride) × (engine.stride ≤ 8)

  adopt-IsTrusted :
      (files : ArtifactFiles F) (device_id fp version : Option Text) (loaded : TrainedModel F)
      (payload : Members F) (engine : Engine F) (model : TrainedModel F)
      → IsLoaded py sort files device_id fp loaded payload
      → adopt py gap version (loaded, payload) ≡ done engine
      → engine.model ≡ some model
      → IsTrusted files device_id fp engine model
  unfolding adopt
  adopt-IsTrusted files device_id fp version loaded payload engine model l h ready =
      elim (Option-cases (owner_of (get (codes "device_id") payload))) [
        | inl e ↦
            let h' : ◌≡◌ {A = Result ArtifactError (Engine F)} (done (unavailable gap version))
                (done engine) =
              rw (e, adopt) at h in
            let none_ready =
              ap (λ g. g.model) (done-injective (unavailable gap version) engine h') in
            absurd cc
        | inr (owner, e) ↦
            let h' = rw (e, adopt) at h in
            let (stride, s, h1) = bind-done (stride_of payload) _ engine h' in
            let same = done-injective _ engine h1 in
            let (found, filled) = owner_of-str (get (codes "device_id") payload) owner e in
            let who : owner ≡ engine.artifact_device_id = ap (λ g. g.artifact_device_id) same in
            let one : stride ≡ engine.stride = ap (λ g. g.stride) same in
            let what : some loaded ≡ some model = ap (λ g. g.model) same ∙ ready in
            let which : loaded ≡ model = ground arith in
            record {
              payload = payload;
              loaded = subst (λ w. IsLoaded py sort files device_id fp w payload) which l;
              owner = found ∙ ap (λ t. some (str t)) who;
              owner_filled = subst (λ t. 1 ≤ length t) who filled;
              owner_asked =
                  subst (IsOf device_id) who
                    (asked device_id (get (codes "device_id") payload) owner l.valid.device found);
              stride = s ∙ ap done one;
              stride_fits = subst (λ n. (1 ≤ n) × (n ≤ 8)) one (stride_of-fits payload stride s);
            }
      ]

  caught-IsTrusted :
      (files : ArtifactFiles F) (device_id fp version : Option Text)
      (r : Result ArtifactError (TrainedModel F × Members F)) (engine : Engine F)
      (model : TrainedModel F)
      → load py sort files device_id fp ≡ r
      → caught py gap version r ≡ done engine
      → engine.model ≡ some model
      → IsTrusted files device_id fp engine model
  caught-IsTrusted files device_id fp version (done (loaded, payload)) engine model e h ready =
      adopt-IsTrusted files device_id fp version loaded payload engine model
        (load-IsLoaded py sort files device_id fp loaded payload e) h ready
  caught-IsTrusted files device_id fp version (refused x) engine model e h ready =
      absurd (not_ready x version engine model h ready)
    where
      not_ready :
          (x : ArtifactError) (version : Option Text) (engine : Engine F) (model : TrainedModel F)
          → caught py gap version (refused x) ≡ done engine
          → engine.model ≡ some model
          → ⊥
      not_ready x version engine model h ready = ground arith

-- When the engine of the adapter starts and has a model, there is an artifact, and its metadata has
-- the versions, the feature order and the window of this build. The artifact is for the device and
-- the regime that were asked for, if they were, and the engine asks about that device alone, whose
-- name is not empty. The stride is the one declared, from 1 to 8. The checksum of the model file is
-- the one declared, the pickle is the one in the file, and there is a calibration score.
pub start-IsTrusted :
    {F : Type 0} (py : Builtins F) (sort : List F → List F) (gap : ℕ)
    (artifact : Option (ArtifactFiles F)) (device_id calibration_fingerprint version : Option Text)
    (engine : Engine F) (model : TrainedModel F)
    → start py sort gap artifact device_id calibration_fingerprint version ≡ done engine
    → engine.model ≡ some model
    → (files : ArtifactFiles F) × (artifact ≡ some files)
      × IsTrusted py sort gap files device_id calibration_fingerprint engine model
unfolding start
start-IsTrusted py sort gap none device_id fp version engine model h ready =
    let none_ready = ap (λ g. g.model) (done-injective (unavailable gap version) engine h) in
    absurd cc
start-IsTrusted py sort gap (some files) device_id fp version engine model h ready = (
  files,
  refl,
  caught-IsTrusted py sort gap files device_id fp version (load py sort files device_id fp) engine
      model refl h ready,
)
