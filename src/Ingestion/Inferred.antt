-- ===== src/Ingestion/Inferred.antt =====
-- What `_maybe_record_anomaly` leaves behind: the stored anomaly of a verdict, or nothing.
use aiot_powerguard.Prelude.{
  ℕ, ◌+◌, ◌≡◌, refl, Option, none, some, Option-cases, Bool-cases, inl, inr, subst, sym,
}
use aiot_powerguard.Text.{Text}
use aiot_powerguard.Entities.{Telemetry, Anomaly, AnomalyVerdict}
use aiot_powerguard.Ingestion.Rows.{Verdict, Judged}
use aiot_powerguard.Store.{
  Database, Outcome, returns, raises, transient, integrity_error, sql_error,
}
use aiot_powerguard.Ingestion.{
  IngestionCounters, Evaluation, positive, nothing, fails, Ports, Service, kept_anomaly, verdict_on,
  maybe_record_anomaly, maybe_record_anomaly, persist_anomaly,
}
use aiot_powerguard.Ingestion.Persist.{persist_anomaly-IsCommitted}

-- the messages that the counters say were acknowledged
abbrev pub acks : IngestionCounters → ℕ
acks c = c.accepted_telemetry + (c.duplicate_telemetry + (c.accepted_status + c.rejected))

-- What the inference leaves: the publisher and the acknowledgement counters as they were, the
-- anomaly that it says and its storage, and no exception that `handle` would catch.
abbrev pub MaybeOk :
    {F S R P : Type 0}
    → Database F S R
    → Ports F
    → Telemetry F
    → Service S P
    → Service S P × Outcome (Option (Anomaly F))
    → Type 0
MaybeOk db ports t v (w, returns o) =
    (w.published ≡ v.published)
    × (acks w.counters ≡ acks v.counters)
    × Judged db ports t o v.storage w.storage
MaybeOk db ports t v (w, raises transient) = ⊥
MaybeOk db ports t v (w, raises (integrity_error _)) = w.published ≡ v.published
MaybeOk db ports t v (w, raises sql_error) = w.published ≡ v.published

abbrev described : {F : Type 0} → Text → ℕ → ℕ → AnomalyVerdict F → Anomaly F
described device_id now id verdict = record {
  id = none;
  telemetry_id = id;
  device_id = device_id;
  detected_at = now;
  method = verdict.method;
  reasons = verdict.reasons;
  score = verdict.score;
  model_version = verdict.model_version;
}

verdict_of :
    {F : Type 0} (ports : Ports F) (t : Telemetry F) (verdict : AnomalyVerdict F) (id : ℕ)
    → ports.evaluate t ≡ positive verdict
    → t.id ≡ some id
    → Verdict ports t
verdict_of ports t verdict id h e = record {
  verdict = verdict;
  telemetry_id = id;
  row = described t.device_id ports.now id verdict;
  found = h;
  stored = e;
  id_ok = refl;
  telemetry_ok = refl;
  device_ok = refl;
  detected_ok = refl;
  method_ok = refl;
  reasons_ok = refl;
  score_ok = refl;
  model_ok = refl;
}

module _ {F S R P : Type 0} (db : Database F S R) (ports : Ports F) (t : Telemetry F) where
  kept_anomaly-MaybeOk :
      (v : Service S P) (x : Verdict ports t) (p : Outcome (Anomaly F) × S)
      → persist_anomaly db x.row v.storage ≡ p
      → MaybeOk db ports t v (kept_anomaly v p)
  unfolding kept_anomaly
  kept_anomaly-MaybeOk v x (returns a, s) h =
      (refl, refl, (x, h, persist_anomaly-IsCommitted db x.row a v.storage s h))
  kept_anomaly-MaybeOk v x (raises transient, s) h = (refl, refl, inr (x, h))
  kept_anomaly-MaybeOk v x (raises (integrity_error _), s) h = refl
  kept_anomaly-MaybeOk v x (raises sql_error, s) h = refl

  verdict_on-none :
      (verdict : AnomalyVerdict F) (v : Service S P)
      → t.id ≡ none
      → verdict_on db ports t (positive verdict) v ≡ (v, returns none)
  unfolding verdict_on
  verdict_on-none verdict v e = rw (e, verdict_on) refl

  verdict_on-some :
      (verdict : AnomalyVerdict F) (v : Service S P) (id : ℕ)
      → t.id ≡ some id
      → verdict_on db ports t (positive verdict) v
        ≡ kept_anomaly v (persist_anomaly db (described t.device_id ports.now id verdict) v.storage)
  unfolding verdict_on
  verdict_on-some verdict v id e = rw (e, verdict_on) refl

  verdict_on-MaybeOk :
      (e : Evaluation F) (v : Service S P)
      → ports.evaluate t ≡ e
      → MaybeOk db ports t v (verdict_on db ports t e v)
  unfolding verdict_on verdict_of
  verdict_on-MaybeOk fails v h = (refl, refl, inl (λ verdict k. absurd cc, refl))
  verdict_on-MaybeOk nothing v h = elim (Bool-cases ports.is_ready) [
    | inl e ↦ rw (e, verdict_on) (refl, refl, inl (λ verdict k. absurd cc, refl))
    | inr e ↦ rw (e, verdict_on) (refl, refl, inl (λ verdict k. absurd cc, refl))
  ]
  verdict_on-MaybeOk (positive verdict) v h = elim (Option-cases (t.id)) [
    | inl e ↦
        subst (MaybeOk db ports t v) (sym (verdict_on-none verdict v e))
          (refl, refl, inl (λ verdict k. e, refl))
    | inr (id, e) ↦
        let x = verdict_of ports t verdict id h e in
        subst (MaybeOk db ports t v) (sym (verdict_on-some verdict v id e))
          (kept_anomaly-MaybeOk v x (persist_anomaly db x.row v.storage) refl)
  ]

  pub maybe_record_anomaly-MaybeOk :
      (v : Service S P) → MaybeOk db ports t v (maybe_record_anomaly db ports t v)
  unfolding maybe_record_anomaly
  maybe_record_anomaly-MaybeOk v = verdict_on-MaybeOk (ports.evaluate t) v refl
