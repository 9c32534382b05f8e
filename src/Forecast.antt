-- ===== src/Forecast.antt =====
-- application/forecast_selection.py: which model and which Run a calculation uses.
pub mod Effect
pub mod Selection
pub mod Memo
pub mod Answers
pub mod Policy
mod Examples
