-- ===== src/Providers.antt =====
-- Answer generation: the deadlines on a token stream, the ordered provider chain and the router with
-- one fallback (app/providers/router.py, app/providers/chain.py).
pub mod Deadlines
pub mod Chain
pub mod Router
mod Tests
