-- ===== src/Execution.antt =====
-- packages/core/aidan_core/execution.py: authorization, claiming, raw results, completion.
pub mod Status
pub mod Claim
pub mod Results
pub mod Complete
pub mod Gate
pub mod Frames
pub mod Success
pub mod Claims
pub mod Receipts
pub mod Completions
pub mod Funds
pub mod Failures
pub mod Requests
