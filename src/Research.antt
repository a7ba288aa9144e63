-- ===== src/Research.antt =====
-- packages/core/aidan_core/research: evidence, reasoning over it, and opportunities. Each key is
-- idempotent in its venture, and links are kept once.
pub mod Tables
pub mod Evidence
pub mod Claims
pub mod Relations
pub mod Reasoning
pub mod KillCases
pub mod Opportunities
pub mod Status
pub mod Moves
