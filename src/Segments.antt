-- ===== src/Segments.antt =====
-- application/phase_segments.py: the split of a route into the phases of a flight.
pub mod Model
pub mod Checks
pub mod Cuts
pub mod Points
pub mod Split
pub mod Spacing
pub mod Partition
pub mod Whole
pub mod Snapping
pub mod Clearance
pub mod Phases
pub mod Phased
mod Examples
