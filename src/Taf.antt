-- ===== src/Taf.antt =====
-- weather/destination_taf.py: the shared fetch of a destination's TAF.
pub mod Fetch
pub mod System
pub mod Invariant
pub mod Steps
pub mod Safety
pub mod Guarantees
mod Examples
