-- ===== src/Storage.antt =====
-- storage/: how projects, their index and the owners' markers are kept on disk.
pub mod Disk
pub mod Effect
pub mod Reading
pub mod Index
pub mod Owners
pub mod Repository
pub mod Markers
pub mod Keeping
pub mod Elsewhere
pub mod Removal
pub mod Spares
pub mod Kept
pub mod Stays
pub mod Drafts
pub mod SafeJson
pub mod Calls
pub mod Atomic
pub mod Endings
pub mod Tidy
pub mod Outcome
pub mod Saving
pub mod Recovery
pub mod Deletion
pub mod Unnaming
pub mod Forgetting
pub mod LastCalculation
pub mod RoundTrip
pub mod Refinement
mod Examples
