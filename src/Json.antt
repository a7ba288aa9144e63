-- ===== src/Json.antt =====
-- JSON values: payloads of action requests, raw results and audit events.
-- (packages/core/aidan_core/actions.py, `canonical_payload_hash`; audit.py, the `payload` column.)
-- Floats are not modelled: the kernel's own payloads hold none.
pub mod Text
pub mod Dumps
pub mod Canonical
