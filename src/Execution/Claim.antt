-- ===== src/Execution/Claim.antt =====
-- execution.py: `request_execution`, `_create_attempt`, `authorize_and_claim`.
use aidan_venture_os.Base.{
  ℕ, ◌+◌, String, Bool, true, false, Option, none, some, List, [], ◌∷◌, ◌==◌, ◌&&◌, any, is_some,
  ltb, if◌then◌else◌,
}
use aidan_venture_os.Base.Int.{pos}
use aidan_venture_os.Db.Rows.{
  AttemptStatus, ExecutionAttempt, PolicyOutcome, PolicyReason, RunStatus, SafetyMode,
}
use aidan_venture_os.Db.Tx.{
  Tx, Error, ok, err, pure, raise, gets, require, record_event, ◌>>=◌, ◌>>◌,
}
use aidan_venture_os.Db.Queries.{action_or_raise, text, ◌⇒◌&◌}
use aidan_venture_os.Json.Text.{Text}
use aidan_venture_os.Json.Dumps.{Value, Fields, obj, int}
use aidan_venture_os.Policy.{Decimal, PolicyResult, current_evaluation, persist_decision}
use aidan_venture_os.Approvals.{create_pending, valid_approval}
use aidan_venture_os.Budget.{reserve_budget}
use aidan_venture_os.Execution.Status.{set_status, is_claimable}

pub record RequestOutcome : Type 0 where
  pub decision : PolicyOutcome
  pub reason : PolicyReason
  pub policy_decision_id : ℕ
  pub approval_id : Option ℕ

pub record AttemptHandle : Type 0 where
  pub attempt_id : ℕ
  pub attempt_number : ℕ
  pub lease_token : ℕ

abbrev pub is_outcome : PolicyOutcome → PolicyOutcome → Bool
is_outcome PolicyOutcome.allow PolicyOutcome.allow = true
is_outcome PolicyOutcome.deny PolicyOutcome.deny = true
is_outcome PolicyOutcome.require_approval PolicyOutcome.require_approval = true
is_outcome _ _ = false

abbrev pub is_attempt_status : AttemptStatus → AttemptStatus → Bool
is_attempt_status AttemptStatus.claimed AttemptStatus.claimed = true
is_attempt_status AttemptStatus.completed AttemptStatus.completed = true
is_attempt_status AttemptStatus.failed AttemptStatus.failed = true
is_attempt_status AttemptStatus.abandoned AttemptStatus.abandoned = true
is_attempt_status AttemptStatus.recovery_required AttemptStatus.recovery_required = true
is_attempt_status _ _ = false

abbrev pub is_for : ℕ → ExecutionAttempt → Bool
is_for a r = r.action_id == a

-- the attempts that the partial unique index allows once for an action
abbrev pub is_claimed_for : ℕ → ExecutionAttempt → Bool
is_claimed_for a r = r.action_id == a && is_attempt_status r.status AttemptStatus.claimed

-- coalesce(max(attempt_number), 0); the execution key names the action
unfoldable pub last_number : ℕ → List ExecutionAttempt → ℕ
last_number a [] = 0
last_number a (r ∷ rs) =
    let rest = last_number a rs in
    if r.action_id == a && ltb rest r.attempt_number then r.attempt_number else rest

-- `_create_attempt`; `lease` in microseconds
unfoldable pub create_attempt : ℕ → SafetyMode → String → ℕ → Tx AttemptHandle
create_attempt action_id safety_mode executor_ref lease db =
    if any (is_claimed_for action_id) db.attempts
    then err Error.integrity_error
    else ok (
      record {
        attempt_id = db.next_id;
        attempt_number = last_number action_id db.attempts + 1;
        lease_token = db.next_id + 1;
      },
      record db {
        attempts =
            (record {
              id = db.next_id;
              action_id = action_id;
              attempt_number = last_number action_id db.attempts + 1;
              executor_ref = executor_ref;
              safety_mode = safety_mode;
              lease_token = db.next_id + 1;
              lease_expires_at = db.now + lease;
              status = AttemptStatus.claimed;
              failure_class = none;
            })
            ∷ db.attempts;
        next_id = db.next_id + 2;
      },
    )

abbrev pub safety_name : SafetyMode → String
safety_name SafetyMode.idempotent = "IDEMPOTENT"
safety_name SafetyMode.reconcilable = "RECONCILABLE"
safety_name SafetyMode.unsafe = "UNSAFE"

abbrev pub attempt_payload : ℕ → SafetyMode → Value
attempt_payload number safety_mode =
    obj ("attempt" ⇒ int (pos number) & "safety_mode" ⇒ text (safety_name safety_mode) & Fields.end)

module _ (sha256 : Text → ℕ) where
  -- the approval that `request_execution` opens
  unfoldable pub open_approval : ℕ → ℕ → PolicyResult → ℕ → Tx (Option ℕ)
  open_approval action_id decision_id result ttl =
      if is_outcome result.decision PolicyOutcome.require_approval
      then (do
        approval_id ← create_pending action_id decision_id result.inputs_hash ttl
        set_status action_id RunStatus.awaiting_approval "policy_engine" none
        pure (some approval_id))
      else pure none

  unfoldable pub request_execution : ℕ → Decimal → ℕ → Tx RequestOutcome
  request_execution action_id threshold ttl = do
    found ← current_evaluation sha256 action_id threshold
    decision_id ← persist_decision action_id found.1 found.0 found.2
    approval_id ← open_approval action_id decision_id found.0 ttl
    pure (record {
      decision = found.0.decision;
      reason = found.0.reason;
      policy_decision_id = decision_id;
      approval_id = approval_id;
    })

  -- the recheck of policy and approval; returns the venture
  unfoldable pub authorize : ℕ → Decimal → Tx ℕ
  authorize action_id threshold = do
    found ← current_evaluation sha256 action_id threshold
    approval ← gets (valid_approval action_id found.0.inputs_hash)
    if is_outcome found.0.decision PolicyOutcome.deny
        then raise Error.execution_blocked
        else if is_outcome found.0.decision PolicyOutcome.require_approval
        then (do require (is_some approval) Error.approval_required; pure found.1)
        else pure found.1

  unfoldable pub authorize_and_claim : ℕ → SafetyMode → String → ℕ → Decimal → Tx AttemptHandle
  authorize_and_claim action_id safety_mode executor_ref lease threshold = do
    row ← action_or_raise action_id
    require (is_claimable row.status) Error.execution_blocked
    venture_id ← authorize action_id threshold
    _ ← reserve_budget action_id "budget"
    handle ← create_attempt action_id safety_mode executor_ref lease
    set_status action_id RunStatus.running "executor" none
    record_event "execution.claimed" "executor" (some venture_id) (some action_id)
        (attempt_payload handle.attempt_number safety_mode)
    pure handle
