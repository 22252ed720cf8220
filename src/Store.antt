-- ===== src/Store.antt =====
-- backend/src/powerguard/db/repositories.py and uow.py: the repositories over one session of
-- SQLAlchemy, and the unit of work that owns it. The session is a parameter: a record of its
-- calls over a state `S`, with rows known by a handle `R`.
pub mod Commit
use aiot_powerguard.Prelude.{
  ℕ, Bool, true, false, not, ◌&&◌, ◌||◌, Option, none, some, List, [], ◌∷◌, ◌==◌, nat_eq, list_eq,
  if◌then◌else◌, ltb,
}
use aiot_powerguard.Text.{Text, codes}
use aiot_powerguard.Entities.{
  DeviceStatus, Device, Telemetry, Anomaly, Stored, inserted, duplicate, online,
}

-- What a call of the session comes to: a value, an `IntegrityError` with its text, or another
-- `SQLAlchemyError`.
pub data Answer {ℓ} (A : Type ℓ) : Type ℓ where
  value : A → Answer A
  integrity : Text → Answer A
  failure : Answer A

pub record Database (F S R : Type 0) : Type 0 where
  pub open_session : S → S
  pub get_device : Text → S → Answer (Option R) × S
  pub add_device : Device → S → R × S
  pub assign_device : R → Device → S → S
  pub device_of : R → S → Device
  pub add_telemetry : Telemetry F → S → R × S
  pub telemetry_of : R → S → Telemetry F
  pub add_anomaly : Anomaly F → S → R × S
  pub anomaly_of : R → S → Anomaly F
  pub flush : S → Answer (Unit {0}) × S
  pub telemetry_id : Text → Text → ℕ → S → Answer (Option ℕ) × S
  pub online_before : ℕ → S → Answer (List Text) × S
  pub set_stale : List Text → S → Answer (Unit {0}) × S
  pub commit : S → Answer (Unit {0}) × S
  pub rollback : S → Answer (Unit {0}) × S
  pub close : S → Answer (Unit {0}) × S
  -- `str.lower`
  pub lower : Text → Text

-- the exceptions: `TransientStorageError`, an `IntegrityError`, another `SQLAlchemyError`
pub data Raised : Type 0 where
  transient : Raised
  integrity_error : Text → Raised
  sql_error : Raised

pub data Outcome {ℓ} (A : Type ℓ) : Type ℓ where
  returns : A → Outcome A
  raises : Raised → Outcome A

-- `SqlUnitOfWork` with its session open
pub record Uow (S : Type 0) : Type 0 where
  pub session : S
  pub committed : Bool

abbrev pub Task : Type 0 → Type 0 → Type 0
Task S A = Uow S → Outcome A × Uow S

unfoldable pub and_then : {S A B : Type 0} → Outcome A × Uow S → (A → Task S B) → Outcome B × Uow S
and_then (returns a, u) f = f a u
and_then (raises e, u) f = (raises e, u)

infixl 5 ◌>>=◌ ◌>>◌
abbrev pub ◌>>=◌ : {S A B : Type 0} → Task S A → (A → Task S B) → Task S B
m >>= f = λ u. and_then (m u) f

abbrev pub ◌>>◌ : {S A B : Type 0} → Task S A → Task S B → Task S B
m >> k = m >>= λ _. k

abbrev pub give : {S A : Type 0} → A → Task S A
give a u = (returns a, u)

starts_with : Text → Text → Bool
starts_with [] t = true
starts_with (c ∷ s) [] = false
starts_with (c ∷ s) (d ∷ t) = c == d && starts_with s t

-- Python's `s in t`
unfoldable pub is_inside : Text → Text → Bool
unfolding starts_with
is_inside s [] = starts_with s []
is_inside s (c ∷ t) = starts_with s (c ∷ t) || is_inside s t

module _ {F S R : Type 0} (db : Database F S R) where
  -- `_is_duplicate_key`
  unfoldable pub is_duplicate_key : Text → Bool
  is_duplicate_key message = is_inside (codes "unique") (db.lower message)

  -- `_translate`, which rolls back and hides a failure of that
  abbrev pub translate : {A : Type 0} → S → Bool → Outcome A × Uow S
  translate s c = (raises transient, record { session = (db.rollback s).1; committed = c })

  abbrev pub guarded_by : {A : Type 0} → Bool → Answer A × S → Outcome A × Uow S
  guarded_by c (value a, s) = (returns a, record { session = s; committed = c })
  guarded_by c (integrity m, s) =
      (raises (integrity_error m), record { session = s; committed = c })
  guarded_by c (failure, s) = translate s c

  -- The `try` of `_flush` and of `_execute`.
  abbrev pub guarded : {A : Type 0} → (S → Answer A × S) → Task S A
  guarded call u = guarded_by u.committed (call u.session)

  -- `_flush`
  unfoldable pub flush : Task S (Unit {0})
  flush = guarded db.flush

  fetched : {A : Type 0} → Bool → Answer A × S → Outcome A × Uow S
  fetched c (value a, s) = (returns a, record { session = s; committed = c })
  fetched c (integrity m, s) = translate s c
  fetched c (failure, s) = translate s c

  -- `_get`
  unfoldable pub get_row : Text → Task S (Option R)
  unfolding fetched
  get_row device_id u = fetched u.committed (db.get_device device_id u.session)

  -- the assignments of `_upsert` to a row that exists
  abbrev pub updated : Text → Option Text → ℕ → DeviceStatus → Device → Device
  updated firmware_version boot_id seen_at status d = record {
    id = d.id;
    firmware_version = firmware_version;
    status = status;
    first_seen_at = d.first_seen_at;
    last_seen_at = if ltb d.last_seen_at seen_at then seen_at else d.last_seen_at;
    last_boot_id = elim boot_id [ none ↦ d.last_boot_id | some b ↦ some b ];
  }

  write_row : Text → Text → Option Text → ℕ → DeviceStatus → Option R → Task S R
  write_row device_id firmware_version boot_id seen_at status none u =
      let (r, s) =
        db.add_device
          (record {
            id = device_id;
            firmware_version = firmware_version;
            status = status;
            first_seen_at = seen_at;
            last_seen_at = seen_at;
            last_boot_id = boot_id;
          })
          u.session in
      (returns r, record u { session = s })
  write_row device_id firmware_version boot_id seen_at status (some r) u =
      let d = db.device_of r u.session in
      (
        returns r,
        record u {
          session =
              db.assign_device r (updated firmware_version boot_id seen_at status d) u.session;
        },
      )

  read_device : R → Task S Device
  read_device r u = (returns (db.device_of r u.session), u)

  -- `_upsert`
  unfoldable pub upsert : Text → Text → Option Text → ℕ → DeviceStatus → Task S Device
  unfolding write_row read_device
  upsert device_id firmware_version boot_id seen_at status = do
    found ← get_row device_id
    row ← write_row device_id firmware_version boot_id seen_at status found
    flush
    read_device row

  unfoldable pub upsert_from_telemetry : Text → Text → Text → ℕ → Task S Device
  upsert_from_telemetry device_id firmware_version boot_id seen_at =
      upsert device_id firmware_version (some boot_id) seen_at online

  unfoldable pub upsert_from_status : Text → Text → Text → DeviceStatus → ℕ → Task S Device
  upsert_from_status device_id firmware_version boot_id status seen_at =
      upsert device_id firmware_version (some boot_id) seen_at status

  stale_rows : List Text → Task S (List Text)
  unfolding flush
  stale_rows [] = give []
  stale_rows (i ∷ is) = do guarded (db.set_stale (i ∷ is)); flush; give (i ∷ is)

  unfoldable pub mark_stale : ℕ → Task S (List Text)
  unfolding stale_rows
  mark_stale cutoff = do ids ← guarded (db.online_before cutoff); stale_rows ids

  -- `self._session.rollback()`, outside every helper
  abbrev pub bare_rolled : Bool → Answer (Unit {0}) × S → Outcome (Unit {0}) × Uow S
  bare_rolled c (value a, s) = (returns a, record { session = s; committed = c })
  bare_rolled c (integrity m, s) =
      (raises (integrity_error m), record { session = s; committed = c })
  bare_rolled c (failure, s) = (raises sql_error, record { session = s; committed = c })

  abbrev pub bare_rollback : Task S (Unit {0})
  bare_rollback u = bare_rolled u.committed (db.rollback u.session)

  existing : Option ℕ → Task S (Stored F)
  existing none u = (raises transient, u)
  existing (some i) u = (returns (duplicate i), u)

  find_existing : Telemetry F → Bool → Task S (Stored F)
  unfolding existing
  find_existing t true = do
    found ← guarded (db.telemetry_id t.device_id t.boot_id t.seq)
    existing found
  find_existing t false = λ u. (raises transient, u)

  -- the handler of the insert's `IntegrityError`
  resolve : Telemetry F → Text → Task S (Stored F)
  unfolding find_existing
  resolve t message = do bare_rollback; find_existing t (is_duplicate_key message)

  after_insert : Telemetry F → R → Outcome (Unit {0}) × Uow S → Outcome (Stored F) × Uow S
  unfolding resolve
  after_insert t row (returns _, u) = (returns (inserted (db.telemetry_of row u.session)), u)
  after_insert t row (raises (integrity_error m), u) = resolve t m u
  after_insert t row (raises transient, u) = (raises transient, u)
  after_insert t row (raises sql_error, u) = (raises sql_error, u)

  unfoldable pub insert_or_resolve_duplicate : Telemetry F → Task S (Stored F)
  unfolding after_insert flush
  insert_or_resolve_duplicate t u =
      let (row, s) = db.add_telemetry t u.session in
      after_insert t row (flush (record u { session = s }))

  refused_anomaly : Task S (Anomaly F)
  refused_anomaly = do bare_rollback; λ u. (raises transient, u)

  after_anomaly : R → Outcome (Unit {0}) × Uow S → Outcome (Anomaly F) × Uow S
  unfolding refused_anomaly
  after_anomaly row (returns _, u) = (returns (db.anomaly_of row u.session), u)
  after_anomaly row (raises (integrity_error m), u) = refused_anomaly u
  after_anomaly row (raises transient, u) = (raises transient, u)
  after_anomaly row (raises sql_error, u) = (raises sql_error, u)

  -- `SqlAnomalyRepository.insert`
  unfoldable pub insert_anomaly : Anomaly F → Task S (Anomaly F)
  unfolding after_anomaly flush
  insert_anomaly a u =
      let (row, s) = db.add_anomaly a u.session in
      after_anomaly row (flush (record u { session = s }))

  unfoldable pub committed_by : Bool → Answer (Unit {0}) × S → Outcome (Unit {0}) × Uow S
  committed_by c (value _, s) = (returns tt, record { session = s; committed = true })
  committed_by c (integrity m, s) = translate s c
  committed_by c (failure, s) = translate s c

  -- `SqlUnitOfWork.commit`
  unfoldable pub commit : Task S (Unit {0})
  unfolding committed_by
  commit u = committed_by u.committed (db.commit u.session)

  rolled : Bool → Answer (Unit {0}) × S → Outcome (Unit {0}) × Uow S
  rolled c (value _, s) = (returns tt, record { session = s; committed = false })
  rolled c (integrity m, s) = (raises transient, record { session = s; committed = c })
  rolled c (failure, s) = (raises transient, record { session = s; committed = c })

  -- `SqlUnitOfWork.rollback`
  unfoldable pub rollback : Task S (Unit {0})
  unfolding rolled
  rollback u = rolled u.committed (db.rollback u.session)

  abbrev is_value : {A : Type 0} → Answer A → Bool
  is_value (value _) = true
  is_value (integrity _) = false
  is_value failure = false

  abbrev is_raised : {A : Type 0} → Outcome A → Bool
  is_raised (returns _) = false
  is_raised (raises _) = true

  -- `SqlUnitOfWork.__exit__`, with what the block came to
  unfoldable pub leave : {A : Type 0} → Outcome A → Uow S → Outcome A × S
  leave out u =
      let undo = is_raised out || not u.committed in
      let (rolled, s) = if undo then db.rollback u.session else (value tt, u.session) in
      let (closed, s') = db.close s in
      if not (is_raised out) && not (is_value rolled && is_value closed)
      then (raises transient, s')
      else (out, s')

  -- `with self._uow_factory() as uow: ...`
  unfoldable pub with_uow : {A : Type 0} → Task S A → S → Outcome A × S
  with_uow block s =
      let (out, u) = block (record { session = db.open_session s; committed = false }) in
      leave out u
