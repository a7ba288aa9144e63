-- ===== src/Actions/Intake.antt =====
-- Intake is idempotent for a key of a venture.
use aidan_venture_os.Base.{
  ◌==◌, if◌then◌else◌, ℕ, ◌≡◌, false, not, find, arith, str_eq, eq_iff, inl, inr, Option-cases,
}
use aidan_venture_os.Db.Tx.{Db, Error, ok, err, record_event}
use aidan_venture_os.Json.Text.{Text}
use aidan_venture_os.Json.Dumps.{Value}
use aidan_venture_os.Json.Dumps.Order.{Same, dumps-eq_of_Same}
use aidan_venture_os.Json.Canonical.{or_empty, canonical_payload_hash}
use aidan_venture_os.Actions.{
  Submission, IntakeResult, find_key, create_action, return_existing, submit_action_request,
  row_fits,
}

-- The canonical hash does not depend on the order of a payload's keys, at any depth.
pub canonical_payload_hash-Same :
    (sha256 : Text → ℕ) {v w : Value}
    → Same v w
    → canonical_payload_hash sha256 v ≡ canonical_payload_hash sha256 w
unfolding canonical_payload_hash
canonical_payload_hash-Same sha256 p = rw (dumps-eq_of_Same p)

module _ (sha256 : Text → ℕ) (s s' : Submission) (db db' : Db) (res : IntakeResult) where
  -- After an intake that went through, a submission with the same key and an action type is a data
  -- error where its amount or autonomy does not fit its column. Otherwise, with the same canonical
  -- payload, it returns the same request, creates nothing and leaves the database as it is; with
  -- another canonical payload it is a conflict.
  pub submit_again :
      submit_action_request sha256 s db ≡ ok (res, db')
      → s'.venture_id ≡ s.venture_id
      → s'.idempotency_key ≡ s.idempotency_key
      → str_eq s'.action_type "" ≡ false
      → submit_action_request sha256 s' db' ≡ (
          if not (row_fits s')
          then err Error.data_error
          else if canonical_payload_hash sha256 (or_empty s.payload)
              == canonical_payload_hash sha256 (or_empty s'.payload)
          then ok (record { action_id = res.action_id; created = false }, db')
          else err Error.idempotency_conflict)
  unfolding submit_action_request create_action return_existing record_event find_key find
  submit_again e v k t = elim (Option-cases (find_key s.venture_id s.idempotency_key db.actions)) [
    | inl p ↦ ground (
      arith,
      eq_iff s.idempotency_key s.idempotency_key,
      eq_iff s.idempotency_key s'.idempotency_key,
    )
    | inr (r, p) ↦ ground arith
  ]
