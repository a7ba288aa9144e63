-- ===== src/Recovery.antt =====
-- packages/core/aidan_core/recovery.py: recovery of claimed but unfinished executions.
pub mod Retry
pub mod Truth
use aidan_venture_os.Base.{
  ℕ, ◌+◌, String, Bool, true, false, Option, none, some, List, [], ◌∷◌, ◌==◌, ◌&&◌, not, any, leb,
  ltb, find, is_some, if◌then◌else◌,
}
use aidan_venture_os.Db.Rows.{
  ActionRequest, AttemptStatus, ExecutionAttempt, ExecutionResult, RunStatus, SafetyMode,
}
use aidan_venture_os.Db.Tx.{
  Db, Tx, Error, pure, raise, gets, modify, require, record_event, ◌>>=◌, ◌>>◌,
}
use aidan_venture_os.Db.Queries.{find_action, text, ◌⇒◌&◌}
use aidan_venture_os.Json.Text.{Text}
use aidan_venture_os.Json.Dumps.{Value, Fields, obj}
use aidan_venture_os.Execution.Status.{set_status, same_status}
use aidan_venture_os.Execution.Claim.{create_attempt, attempt_payload, is_attempt_status, is_for}
use aidan_venture_os.Execution.Results.{Report, upsert_result}
use aidan_venture_os.Execution.Complete.{set_attempt}

-- the returned dict, by its "outcome"
pub data Outcome : Type 0 where
  no_action no_attempt result_present lease_active recovery_required : Outcome
  not_active : AttemptStatus → Outcome
  reconciled : String → Outcome
  reclaimed : ℕ → Outcome

-- `reconciler(action_id)`: the external effect that it found, if any
abbrev pub Reconciler : Type 0
Reconciler = ℕ → Option Report

-- ORDER BY attempt_number DESC LIMIT 1
unfoldable pub latest_attempt : ℕ → List ExecutionAttempt → Option ExecutionAttempt
latest_attempt a [] = none
latest_attempt a (r ∷ rs) =
    let rest = latest_attempt a rs in
    if is_for a r
    then elim rest [
      | none ↦ some r
      | some s ↦ if ltb r.attempt_number s.attempt_number then some s else some r
    ]
    else rest

abbrev pub is_result_of : ℕ → ExecutionResult → Bool
is_result_of a r = r.action_id == a

abbrev pub is_mode : SafetyMode → SafetyMode → Bool
is_mode SafetyMode.idempotent SafetyMode.idempotent = true
is_mode SafetyMode.reconcilable SafetyMode.reconcilable = true
is_mode SafetyMode.unsafe SafetyMode.unsafe = true
is_mode _ _ = false

-- an external effect confirmed by the reconciler
abbrev pub ask : Option Reconciler → SafetyMode → ℕ → Option Report
ask none mode a = none
ask (some f) mode a = if is_mode mode SafetyMode.reconcilable then f a else none

-- a raw result exists
unfoldable pub surface_result : ℕ → ExecutionAttempt → Tx Outcome
surface_result action_id attempt = do
  set_attempt (some attempt.id) AttemptStatus.abandoned
  record_event "recovery.result_present" "recovery" none (some action_id) (obj Fields.end)
  pure Outcome.result_present

-- an UNSAFE attempt is never retried
unfoldable pub hold_unsafe : ℕ → ExecutionAttempt → Tx Outcome
hold_unsafe action_id attempt = do
  set_attempt (some attempt.id) AttemptStatus.recovery_required
  set_status action_id RunStatus.recovery_required "recovery" none
  record_event "recovery.required" "recovery" none (some action_id)
      (obj ("reason" ⇒ text "unsafe_ambiguous" & Fields.end))
  pure Outcome.recovery_required

unfoldable pub resume_status : ℕ → RunStatus → Tx (Unit {0})
resume_status action_id status =
    if same_status status RunStatus.recovery_required
    then set_status action_id RunStatus.running "recovery" none
    else pure tt

unfoldable pub reclaim : ℕ → RunStatus → ExecutionAttempt → ℕ → Tx Outcome
reclaim action_id status attempt lease = do
  set_attempt (some attempt.id) AttemptStatus.abandoned
  handle ← create_attempt action_id attempt.safety_mode "recovery" lease
  resume_status action_id status
  record_event "recovery.reclaimed" "recovery" none (some action_id)
      (attempt_payload handle.attempt_number attempt.safety_mode)
  pure (Outcome.reclaimed handle.attempt_number)

module _ (sha256 : Text → ℕ) where
  unfoldable pub reconcile : ℕ → ExecutionAttempt → Report → Tx Outcome
  reconcile action_id attempt rep = do
    _ ← upsert_result sha256 action_id (some attempt.id) rep
    set_attempt (some attempt.id) AttemptStatus.abandoned
    record_event "recovery.reconciled" "recovery" none (some action_id)
        (obj ("external_result_id" ⇒ text rep.external_result_id & Fields.end))
    pure (Outcome.reconciled rep.external_result_id)

  -- the attempt's lease has expired, and no result is known
  unfoldable pub recover_expired :
      ℕ → RunStatus → ExecutionAttempt → Option Reconciler → ℕ → Tx Outcome
  recover_expired action_id status attempt reconciler lease =
      if is_mode attempt.safety_mode SafetyMode.unsafe
      then hold_unsafe action_id attempt
      else elim (ask reconciler attempt.safety_mode action_id) [
        | some rep ↦ reconcile action_id attempt rep
        | none ↦ reclaim action_id status attempt lease
      ]

  unfoldable pub recover_attempt :
      ℕ → RunStatus → ExecutionAttempt → Option Reconciler → ℕ → Tx Outcome
  recover_attempt action_id status attempt reconciler lease = do
    has_result ← gets (λ db. any (is_result_of action_id) db.results)
    now ← gets (λ db. db.now)
    if not (is_attempt_status attempt.status AttemptStatus.claimed)
        then pure (Outcome.not_active attempt.status)
        else if has_result
        then surface_result action_id attempt
        else if not (leb attempt.lease_expires_at now)
        then pure Outcome.lease_active
        else recover_expired action_id status attempt reconciler lease

  unfoldable pub recover_action : ℕ → Option Reconciler → ℕ → Tx Outcome
  recover_action action_id reconciler lease = do
    row ← gets (λ db. find_action action_id db.actions)
    attempt ← gets (λ db. latest_attempt action_id db.attempts)
    elim row [
      | none ↦ pure Outcome.no_action
      | some act ↦ elim attempt [
        | none ↦ pure Outcome.no_attempt
        | some r ↦ recover_attempt action_id act.status r reconciler lease
      ]
    ]
