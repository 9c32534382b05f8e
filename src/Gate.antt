-- ===== src/Gate.antt =====
-- scripts/static_ops/external_trigger_gate.py: whether an externally triggered workflow may do heavy work.
pub mod Model
pub mod Rules
pub mod Safety
pub mod History
pub mod Reading
pub mod Detected
mod Examples
