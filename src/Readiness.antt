-- ===== src/Readiness.antt =====
-- application/readiness.py: the issues of a project, and the status that they give it.
pub mod Model
pub mod Issues
pub mod Collect
pub mod Merging
pub mod Dedupe
pub mod Ready
mod Examples
