-- ===== src/Visualization.antt =====
-- The visualization jobs (app/visualization).
pub mod Policy
pub mod Jobs
pub mod Runner
mod Tests
