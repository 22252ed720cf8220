-- ===== src/Adapter.antt =====
-- backend/src/powerguard/mqtt/client.py: the MQTT adapter, a state machine driven by the broker, the
-- application loop and the ingestion worker.
pub mod State
pub mod Codes
pub mod Actions
pub mod Callbacks
pub mod Machine
mod Pursuit
pub mod Live
mod Untouched
pub mod Ledger
pub mod Session
pub mod Delay
pub mod Shutdown
mod Tests
