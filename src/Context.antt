-- ===== src/Context.antt =====
-- The context window of a request (app/context_window and app/prompts/compose.py).
pub mod BudgetPolicy
pub mod Tokens
pub mod Sections
pub mod Shrink
pub mod Trimmer
pub mod Compaction
pub mod Compose
pub mod Manager
pub mod Fit
mod Tests
