-- ===== src/Execution/Complete.antt =====
-- execution.py: `_complete`, `complete_execution`, `_fail_attempt_cur`.
use aidan_venture_os.Base.{
  ℕ, String, Bool, true, false, Option, none, some, ◌==◌, ◌&&◌, ◌||◌, not, any, is_some, str_eq,
  update, if◌then◌else◌,
}
use aidan_venture_os.Base.Int.{ℤ}
use aidan_venture_os.Db.Rows.{
  ActionRequest, AttemptStatus, ExecutionAttempt, LifecycleState, RunStatus, Verdict, is_verified,
}
use aidan_venture_os.Db.Tx.{
  Tx, Error, pure, raise, gets, modify, require, record_event, ◌>>=◌, ◌>>◌,
}
use aidan_venture_os.Db.Queries.{action_or_raise, text, ◌⇒◌&◌}
use aidan_venture_os.Json.Text.{Text, show_ℕ}
use aidan_venture_os.Json.Dumps.{Fields, obj, str, bool}
use aidan_venture_os.Policy.{Decimal}
use aidan_venture_os.Budget.{release_budget, reconcile_completion}
use aidan_venture_os.Lifecycle.{transition}
use aidan_venture_os.Proof.{verified_proof_id, record_receipt}
use aidan_venture_os.Execution.Status.{set_status, transition_to_success, same_status}
use aidan_venture_os.Execution.Claim.{authorize}
use aidan_venture_os.Execution.Results.{Report, upsert_result, has_attempt_id}

-- `record_proof(cur, action_id, result_id)`, the internal hook: a verdict and a receipt
abbrev pub ProofHook : Type 0
ProofHook = ℕ → ℕ → Tx (Verdict × ℕ)

pub record CompletionOutcome : Type 0 where
  pub status : RunStatus
  pub proof_id : ℕ
  pub verified : Bool
  pub duplicated : Bool

-- the parameters of `_complete`
pub record Completion : Type 0 where
  pub report : Report
  pub actual_cost : ℤ
  pub attempt_id : Option ℕ
  pub lifecycle_to : Option LifecycleState
  pub actor : String

-- UPDATE execution_attempt SET status = … WHERE id = …
abbrev pub set_attempt : Option ℕ → AttemptStatus → Tx (Unit {0})
set_attempt none s = pure tt
set_attempt (some i) s = modify (λ db. record db {
  attempts =
      update (has_attempt_id i) (λ (r : ExecutionAttempt). record r { status = s }) db.attempts;
})

abbrev pub change_lifecycle : ℕ → Option LifecycleState → String → Tx (Unit {0})
change_lifecycle venture_id none actor = pure tt
change_lifecycle venture_id (some target) actor = do
  _ ← transition venture_id target actor none
  pure tt

-- after a verdict that is not VERIFIED
unfoldable pub finish_failed : ℕ → ℕ → Completion → ℕ → Tx CompletionOutcome
finish_failed action_id venture_id c proof_id = do
  _ ← release_budget action_id "budget"
  set_status action_id RunStatus.failed c.actor (some "proof_failed")
  set_attempt c.attempt_id AttemptStatus.failed
  record_event "execution.failed" c.actor (some venture_id) (some action_id)
      (obj ("reason" ⇒ text "proof_failed" & Fields.end))
  pure (record {
    status = RunStatus.failed;
    proof_id = proof_id;
    verified = false;
    duplicated = false;
  })

-- after a VERIFIED receipt
unfoldable pub finish_verified : ℕ → ℕ → Completion → ℕ → Tx CompletionOutcome
finish_verified action_id venture_id c proof_id = do
  transition_to_success action_id c.actor
  reconcile_completion action_id c.actual_cost "budget"
  change_lifecycle venture_id c.lifecycle_to c.actor
  set_attempt c.attempt_id AttemptStatus.completed
  record_event "execution.succeeded" c.actor (some venture_id) (some action_id)
      (obj ("proof_id" ⇒ str (show_ℕ proof_id) & Fields.end))
  pure (record {
    status = RunStatus.succeeded;
    proof_id = proof_id;
    verified = true;
    duplicated = false;
  })

-- Canonical success is inferred only where a VERIFIED proof and the SUCCEEDED status agree; without
-- either, the completion goes on.
unfoldable pub settle : Option ℕ → Bool → Tx CompletionOutcome → Tx CompletionOutcome
settle none false first = first
settle none true first = raise Error.inconsistent_canonical_state
settle (some proof_id) false first = raise Error.inconsistent_canonical_state
settle (some proof_id) true first = pure (record {
  status = RunStatus.succeeded;
  proof_id = proof_id;
  verified = true;
  duplicated = true;
})

module _ (sha256 : Text → ℕ) where
  abbrev pub run_proof : Option ProofHook → ℕ → ℕ → Completion → Tx (Verdict × ℕ)
  run_proof none action_id result_id c =
      record_receipt sha256 action_id result_id c.report.reported_outcome c.report.raw_payload
        c.attempt_id
  run_proof (some hook) action_id result_id c = hook action_id result_id

  -- from the governance recheck on
  unfoldable pub complete_first :
      ℕ → Completion → Option ProofHook → Decimal → ActionRequest → Tx CompletionOutcome
  complete_first action_id c hook threshold row = do
    _ ← authorize sha256 action_id threshold
    result ← upsert_result sha256 action_id c.attempt_id c.report
    receipt ← run_proof hook action_id result.0 c
    if is_verified receipt.0
        then finish_verified action_id row.venture_id c receipt.1
        else finish_failed action_id row.venture_id c receipt.1

  -- `_complete`
  unfoldable pub complete : ℕ → Completion → Option ProofHook → Decimal → Tx CompletionOutcome
  unfolding settle
  complete action_id c hook threshold = do
    row ← action_or_raise action_id
    has_spec ← gets (λ db. any (λ i. i == action_id) db.specs)
    require (not (has_spec && not (is_some hook))) Error.execution_blocked
    existing ← gets (verified_proof_id action_id)
    settle existing (same_status row.status RunStatus.succeeded)
        (complete_first action_id c hook threshold row)

  -- `complete_execution`: the built-in token verifier
  unfoldable pub complete_execution : ℕ → Completion → Decimal → Tx CompletionOutcome
  complete_execution action_id c threshold = complete action_id c none threshold

-- the CHECK on `failure_class`
unfoldable pub is_failure_class : String → Bool
is_failure_class s =
    str_eq s "WORKER_ERROR"
    || str_eq s "TIMEOUT"
    || str_eq s "VERIFICATION_FAILED"
    || str_eq s "POLICY_REVOKED"
    || str_eq s "KILLED"
    || str_eq s "RETRY_EXHAUSTED"
    || str_eq s "RECOVERY_REQUIRED"
    || str_eq s "INTERNAL_ERROR"

abbrev set_failed : ℕ → String → Tx (Unit {0})
set_failed i failure_class = modify (λ db. record db {
  attempts =
      update (has_attempt_id i)
        (λ (r : ExecutionAttempt). record r {
          status = AttemptStatus.failed;
          failure_class = some failure_class;
        })
        db.attempts;
})

abbrev pub mark_failed : Option ℕ → String → Tx (Unit {0})
mark_failed none failure_class = pure tt
mark_failed (some i) failure_class = do
  known ← gets (λ db. any (has_attempt_id i) db.attempts)
  require (not known || is_failure_class failure_class) Error.integrity_error
  set_failed i failure_class

abbrev pub release_if : Bool → ℕ → Tx (Unit {0})
release_if terminal action_id =
    if terminal then (do _ ← release_budget action_id "budget"; pure tt) else pure tt

abbrev pub disposition : Bool → RunStatus
disposition terminal = if terminal then RunStatus.failed else RunStatus.pending

-- `fail_attempt`, `_fail_attempt_cur`. The failure detail and the time are left out.
unfoldable pub fail_attempt : ℕ → Option ℕ → String → Bool → String → Tx RunStatus
fail_attempt action_id attempt_id failure_class terminal actor = do
  mark_failed attempt_id failure_class
  release_if terminal action_id
  set_status action_id (disposition terminal) actor (some failure_class)
  record_event "execution.attempt_failed" actor none (some action_id) (
      obj (
        "failure_class"
        ⇒ text failure_class & "terminal"
        ⇒ bool terminal & "to_state"
        ⇒ text (if terminal then "FAILED" else "PENDING") & Fields.end))
  pure (disposition terminal)
