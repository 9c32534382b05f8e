-- ===== src/Jobs.antt =====
-- web/calculation_jobs.py: the calculation queue, its threads, and what is proved of them.
pub mod Model
pub mod Operations
pub mod System
pub mod Prune
pub mod Invariant
pub mod Change
pub mod Moves
pub mod Reserve
pub mod Safety
pub mod Guarantees
pub mod Progress
pub mod Position
mod Examples
