-- ===== src/Recovery/Retry.antt =====
-- When recovery.py starts an action again.
use aidan_venture_os.Base.{
  ℕ, ◌≤◌, ◌≡◌, ◌≢◌, false, Option, some, any, arith, inl, inr, Option-cases,
}
use aidan_venture_os.Db.Rows.{AttemptStatus, ExecutionAttempt, SafetyMode}
use aidan_venture_os.Db.Tx.{Db, ok, record_event}
use aidan_venture_os.Json.Text.{Text}
use aidan_venture_os.Recovery.{
  Outcome, Reconciler, latest_attempt, is_result_of, recover_action, recover_attempt,
  recover_expired, hold_unsafe, surface_result, reconcile,
}

-- Recovery starts an action again only where its latest attempt is CLAIMED and not UNSAFE, the
-- attempt's lease has run out, and no result of the action is known.
pub recover_action_reclaimed :
    (sha256 : Text → ℕ) (a : ℕ) (reconciler : Option Reconciler) (lease n : ℕ) (db db' : Db)
    → recover_action sha256 a reconciler lease db ≡ ok (Outcome.reclaimed n, db')
    → (r : ExecutionAttempt) × (latest_attempt a db.attempts ≡ some r)
      × (r.status ≡ AttemptStatus.claimed)
      × (r.safety_mode ≢ SafetyMode.unsafe)
      × (r.lease_expires_at ≤ db.now)
      × (any (is_result_of a) db.results ≡ false)
unfolding recover_action recover_attempt recover_expired hold_unsafe surface_result reconcile
    record_event
recover_action_reclaimed sha256 a reconciler lease n db db' e =
    elim (Option-cases (latest_attempt a db.attempts)) [
      | inl q ↦ absurd (ground arith)
      | inr (r, q) ↦ (r, q, ground arith, λ h. ground arith, ground arith, ground arith)
    ]
