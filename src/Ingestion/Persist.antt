-- ===== src/Ingestion/Persist.antt =====
-- The two transactions of a reading and the one of a status message: one that returns has been
-- committed.
use aiot_powerguard.Prelude.{ℕ, ◌≡◌}
use aiot_powerguard.Text.{Text}
use aiot_powerguard.Entities.{DeviceStatus, Device, Telemetry, Anomaly, Stored}
use aiot_powerguard.Store.{
  Database, returns, Uow, Task, ◌>>=◌, ◌>>◌, give, upsert_from_telemetry, upsert_from_status,
  insert_or_resolve_duplicate, insert_anomaly, commit,
}
use aiot_powerguard.Store.Commit.{
  IsCommitted, Durable, and_then-Durable, commit-Durable, with_uow-IsCommitted,
}
use aiot_powerguard.Ingestion.{persist_telemetry, persist_anomaly, persist_status}

module _ {F S R : Type 0} (db : Database F S R) where
  then_commit-Durable :
      {A : Type 0} (m : Task S A) (u : Uow S) → Durable db ((m >>= λ a. commit db >> give a) u)
  then_commit-Durable m u = and_then-Durable db (m u) (λ a. commit db >> give a) (commit-Durable db)

  -- A reading that was inserted, or found to be a duplicate, stands in a storage that was left by
  -- a commit that succeeded.
  pub persist_telemetry-IsCommitted :
      (t : Telemetry F) (firmware_version : Text) (s s' : S) (stored : Stored F)
      → persist_telemetry db t firmware_version s ≡ (returns stored, s')
      → IsCommitted db s'
  unfolding persist_telemetry
  persist_telemetry-IsCommitted t firmware_version s s' stored h =
      let upsert = upsert_from_telemetry db t.device_id firmware_version t.boot_id t.received_at in
      let insert = insert_or_resolve_duplicate db t in
      with_uow-IsCommitted db _ stored s s'
        (λ u.
          and_then-Durable db (upsert u) (λ _. insert >>= λ a. commit db >> give a)
            (λ _. then_commit-Durable insert))
        h

  -- An anomaly that was stored stands in a storage that was left by a commit that succeeded.
  pub persist_anomaly-IsCommitted :
      (a stored : Anomaly F) (s s' : S)
      → persist_anomaly db a s ≡ (returns stored, s')
      → IsCommitted db s'
  unfolding persist_anomaly
  persist_anomaly-IsCommitted a stored s s' h =
      with_uow-IsCommitted db _ stored s s' (then_commit-Durable (insert_anomaly db a)) h

  -- A status that was stored stands in a storage that was left by a commit that succeeded.
  pub persist_status-IsCommitted :
      (device_id firmware_version boot_id : Text) (status : DeviceStatus) (seen_at : ℕ)
      (device : Device) (s s' : S)
      → persist_status db device_id firmware_version boot_id status seen_at s ≡ (returns device, s')
      → IsCommitted db s'
  unfolding persist_status
  persist_status-IsCommitted device_id firmware_version boot_id status seen_at device s s' h =
      with_uow-IsCommitted db _ device s s'
        (then_commit-Durable
          (upsert_from_status db device_id firmware_version boot_id status seen_at))
        h
