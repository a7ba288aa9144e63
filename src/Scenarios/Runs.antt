-- ===== src/Scenarios/Runs.antt =====
-- Runs of execution.py and recovery.py: a claim, its completion, a kill switch, a lost worker.
use aidan_venture_os.System.{Step, Run, Run-IsProven}
use aidan_venture_os.Policy.{persist_decision}
use aidan_venture_os.Execution.Claim.{RequestOutcome, request_execution, open_approval}
use aidan_venture_os.Execution.Complete.{fail_attempt, is_failure_class}
use aidan_venture_os.Budget.{release_budget, release_on}
use aidan_venture_os.Db.Rows.{PolicyOutcome, PolicyReason}
use aidan_venture_os.Base.{
  ◌+◌, ◌≡◌, ◌≢◌, ◌≤◌, refl, true, false, none, some, find, any, update, is_some, arith,
}
use aidan_venture_os.Base.Int.{pos}
use aidan_venture_os.Db.Rows.{
  ActionRequest, AttemptStatus, EntryType, ExecutionAttempt, RunStatus, SafetyMode,
}
use aidan_venture_os.Db.Tx.{Db, Error, ok, err, record_event}
use aidan_venture_os.Db.Queries.{find_action, find_account, find_venture}
use aidan_venture_os.Json.Text.{codes, show_ℕ, digits}
use aidan_venture_os.Json.Dumps.{Fields, obj, str}
use aidan_venture_os.Json.Canonical.{get, get_field, text_eq}
use aidan_venture_os.KillSwitch.{engage, is_killed, effective_state, find_switch}
use aidan_venture_os.Policy.{
  current_evaluation, load_policy_input, evaluate, decide, input_of, available_to,
  holds_reservation,
}
use aidan_venture_os.Budget.{
  grant_budget, entry_of, upsert_account, post_grant, insert_entry, clashes, reserve_budget,
  reserve_on, move_funds, reconcile_completion, reconcile_on,
}
use aidan_venture_os.Budget.Ledger.Spec.{IsConsistent}
use aidan_venture_os.Proof.{
  find_proof, record_receipt, write_receipt, token_verdict, has_token, expected_token,
}
use aidan_venture_os.Execution.Status.{
  set_status, same_status, is_allowed, is_claimable, transition_to_success,
}
use aidan_venture_os.Execution.Claim.{
  authorize, authorize_and_claim, AttemptHandle, create_attempt, last_number,
}
use aidan_venture_os.Execution.Results.{upsert_result, insert_result, find_result}
use aidan_venture_os.Execution.Complete.{
  Completion, CompletionOutcome, complete, complete_first, complete_execution, settle,
  finish_verified, finish_failed,
}
use aidan_venture_os.Execution.Gate.{IsAuthorized, authorize_and_claim_killed, complete_killed}
use aidan_venture_os.Execution.Success.{IsProven}
use aidan_venture_os.Execution.Claims.{
  claim-IsAuthorized, claim-IsProven, claim_effect, claim_twice,
}
use aidan_venture_os.Execution.Completions.{complete_execution_again}
use aidan_venture_os.Execution.Funds.{claim-IsConsistent}
use aidan_venture_os.Recovery.{
  Outcome, recover_action, recover_attempt, recover_expired, reclaim, resume_status, latest_attempt,
  is_result_of,
}
use aidan_venture_os.Recovery.Retry.{recover_action_reclaimed}
use aidan_venture_os.Scenarios.{
  digest, threshold, after, shop, purchase, granted, granted-IsConsistent,
}

abbrev claimed : Db
claimed = after (authorize_and_claim digest 7 SafetyMode.idempotent "worker" 60 threshold granted)

abbrev handle : AttemptHandle
handle = record { attempt_id = 23; attempt_number = 1; lease_token = 24 }

claim_runs :
    authorize_and_claim digest 7 SafetyMode.idempotent "worker" 60 threshold granted
    ≡ ok (handle, claimed)
unfolding authorize_and_claim authorize current_evaluation load_policy_input evaluate decide
    input_of available_to effective_state find_switch holds_reservation reserve_budget reserve_on
    move_funds insert_entry clashes record_event find find_account find_action find_venture entry_of
    update grant_budget upsert_account post_grant any create_attempt last_number set_status
    is_allowed is_claimable
claim_runs = refl

granted-IsProven : IsProven granted
unfolding authorize_and_claim authorize current_evaluation load_policy_input evaluate decide
    input_of available_to effective_state find_switch holds_reservation reserve_budget reserve_on
    move_funds insert_entry clashes record_event find find_account find_action find_venture entry_of
    update grant_budget upsert_account post_grant any create_attempt last_number set_status
    is_allowed is_claimable find_proof
granted-IsProven a = ground arith

claim-IsAuthorized_example : IsAuthorized digest 7 threshold granted
claim-IsAuthorized_example =
    claim-IsAuthorized digest 7 SafetyMode.idempotent "worker" 60 threshold granted claimed handle
      claim_runs

claim-IsConsistent_example : IsConsistent claimed
claim-IsConsistent_example =
    claim-IsConsistent digest 7 SafetyMode.idempotent "worker" 60 threshold granted claimed handle
      claim_runs granted-IsConsistent

claim_effect_example :
    (act : ActionRequest) × (find_action 7 claimed.actions ≡ some act)
    × (same_status act.status RunStatus.running ≡ true)
    × (is_some (entry_of 7 EntryType.reserve claimed.entries) ≡ true)
claim_effect_example =
    claim_effect digest 7 SafetyMode.idempotent "worker" 60 threshold granted claimed handle
      claim_runs

claim_twice_example :
    authorize_and_claim digest 7 SafetyMode.unsafe "other" 30 threshold claimed
    ≡ err Error.execution_blocked
claim_twice_example =
    claim_twice digest 7 SafetyMode.idempotent "worker" 60 threshold granted claimed handle
      SafetyMode.unsafe "other" 30 threshold claim_runs

-- the worker reports success, with the token
abbrev completion : Completion
completion = record {
  report = record {
    external_result_id = "run-1";
    reported_outcome = "success";
    raw_payload = some (obj (Fields.field (codes "token") (str (codes "proof:7")) Fields.end));
  };
  actual_cost = pos 300000;
  attempt_id = some 23;
  lifecycle_to = none;
  actor = "executor";
}

abbrev completed : Db
completed = after (complete_execution digest 7 completion threshold claimed)

abbrev outcome : CompletionOutcome
outcome = record {
  status = RunStatus.succeeded;
  proof_id = 28;
  verified = true;
  duplicated = false;
}

complete_runs : complete_execution digest 7 completion threshold claimed ≡ ok (outcome, completed)
unfolding authorize_and_claim authorize current_evaluation load_policy_input evaluate decide
    input_of available_to effective_state find_switch holds_reservation reserve_budget reserve_on
    move_funds insert_entry clashes record_event find find_account find_action find_venture entry_of
    update grant_budget upsert_account post_grant any create_attempt last_number set_status
    is_allowed is_claimable complete_execution complete complete_first settle upsert_result
    insert_result find_result find_proof record_receipt write_receipt token_verdict has_token
    expected_token get get_field text_eq show_ℕ digits finish_verified finish_failed
    transition_to_success reconcile_completion reconcile_on
complete_runs = refl

claimed-IsProven : IsProven claimed
claimed-IsProven =
    claim-IsProven digest 7 SafetyMode.idempotent "worker" 60 threshold granted claimed handle
      claim_runs granted-IsProven

-- a minute after the action is done, a second worker reports another cost
abbrev a_minute_later : Db
a_minute_later = record completed { now = completed.now + 60000000 }

complete_execution_again_example :
    complete_execution digest 7
      (record completion { actual_cost = pos 900000 })
      threshold
      a_minute_later
    ≡ ok (
      record { status = RunStatus.succeeded; proof_id = 28; verified = true; duplicated = true },
      a_minute_later,
    )
complete_execution_again_example =
    complete_execution_again digest 7 completion threshold outcome claimed completed
      (record completion { actual_cost = pos 900000 }) threshold a_minute_later complete_runs
      claimed-IsProven refl refl refl refl

-- a kill switch is engaged before the claim
abbrev stopped : Db
stopped = after (engage none "owner" none granted)

stop_there :
    (find_action 7 stopped.actions ≡ some purchase)
    × (find_venture 1 stopped.ventures ≡ some shop)
    × (is_killed 1 stopped ≡ true)
unfolding authorize_and_claim authorize current_evaluation load_policy_input evaluate decide
    input_of available_to effective_state find_switch holds_reservation reserve_budget reserve_on
    move_funds insert_entry clashes record_event find find_account find_action find_venture entry_of
    update grant_budget upsert_account post_grant any create_attempt last_number set_status
    is_allowed is_claimable engage is_killed
stop_there = (refl, refl, refl)

authorize_and_claim_killed_example :
    authorize_and_claim digest 7 SafetyMode.idempotent "worker" 60 threshold stopped
    ≡ err Error.execution_blocked
authorize_and_claim_killed_example =
    authorize_and_claim_killed digest 7 threshold stopped purchase shop SafetyMode.idempotent
      "worker" 60 stop_there.0 stop_there.1 stop_there.2

-- and after the completion
abbrev halted : Db
halted = after (engage none "owner" none completed)

abbrev succeeded : ActionRequest
succeeded = record purchase { status = RunStatus.succeeded }

abbrev repeated : CompletionOutcome
repeated = record outcome { duplicated = true }

halt_runs :
    (find_action 7 halted.actions ≡ some succeeded)
    × (find_venture 1 halted.ventures ≡ some shop)
    × (is_killed 1 halted ≡ true)
    × (complete digest 7 completion none threshold halted ≡ ok (repeated, halted))
unfolding authorize_and_claim authorize current_evaluation load_policy_input evaluate decide
    input_of available_to effective_state find_switch holds_reservation reserve_budget reserve_on
    move_funds insert_entry clashes record_event find find_account find_action find_venture entry_of
    update grant_budget upsert_account post_grant any create_attempt last_number set_status
    is_allowed is_claimable complete_execution complete complete_first settle upsert_result
    insert_result find_result find_proof record_receipt write_receipt token_verdict has_token
    expected_token get get_field text_eq show_ℕ digits finish_verified finish_failed
    transition_to_success reconcile_completion reconcile_on engage is_killed
halt_runs = (refl, refl, refl, refl)

complete_killed_example : (repeated.duplicated ≡ true) × (halted ≡ halted)
complete_killed_example =
    complete_killed digest 7 threshold halted succeeded shop completion none repeated halted
      halt_runs.0 halt_runs.1 halt_runs.2 halt_runs.3

-- the worker is lost, and its lease runs out
abbrev later : Db
later = record claimed { now = 2000 }

abbrev restarted : Db
restarted = after (recover_action digest 7 none 60 later)

recover_runs : recover_action digest 7 none 60 later ≡ ok (Outcome.reclaimed 2, restarted)
unfolding authorize_and_claim authorize current_evaluation load_policy_input evaluate decide
    input_of available_to effective_state find_switch holds_reservation reserve_budget reserve_on
    move_funds insert_entry clashes record_event find find_account find_action find_venture entry_of
    update grant_budget upsert_account post_grant any create_attempt last_number set_status
    is_allowed is_claimable recover_action recover_attempt recover_expired reclaim resume_status
    latest_attempt
recover_runs = refl

recover_action_reclaimed_example :
    (r : ExecutionAttempt) × (latest_attempt 7 later.attempts ≡ some r)
    × (r.status ≡ AttemptStatus.claimed)
    × (r.safety_mode ≢ SafetyMode.unsafe)
    × (r.lease_expires_at ≤ later.now)
    × (any (is_result_of 7) later.results ≡ false)
recover_action_reclaimed_example =
    recover_action_reclaimed digest 7 none 60 2 later restarted recover_runs

-- the attempt fails for good
abbrev failed : Db
failed = after (fail_attempt 7 (some 23) "TIMEOUT" true "factory" claimed)

fail_runs :
    fail_attempt 7 (some 23) "TIMEOUT" true "factory" claimed ≡ ok (RunStatus.failed, failed)
unfolding authorize_and_claim authorize current_evaluation load_policy_input evaluate decide
    input_of available_to effective_state find_switch holds_reservation reserve_budget reserve_on
    move_funds insert_entry clashes record_event find find_account find_action find_venture entry_of
    update grant_budget upsert_account post_grant any create_attempt last_number set_status
    is_allowed is_claimable fail_attempt is_failure_class release_budget release_on
fail_runs = refl

-- the request, of an action that the policy allows
abbrev requested : Db
requested = after (request_execution digest 7 threshold 60 granted)

abbrev answer : RequestOutcome
answer = record {
  decision = PolicyOutcome.allow;
  reason = PolicyReason.allowed;
  policy_decision_id = 22;
  approval_id = none;
}

request_runs : request_execution digest 7 threshold 60 granted ≡ ok (answer, requested)
unfolding authorize_and_claim authorize current_evaluation load_policy_input evaluate decide
    input_of available_to effective_state find_switch holds_reservation reserve_budget reserve_on
    move_funds insert_entry clashes record_event find find_account find_action find_venture entry_of
    update grant_budget upsert_account post_grant any create_attempt last_number set_status
    is_allowed is_claimable request_execution open_approval persist_decision
request_runs = refl

-- a claim, then its completion
Run-IsProven_example : IsProven completed
Run-IsProven_example =
    Run-IsProven digest
      (Run.next (Step.claimed 7 SafetyMode.idempotent "worker" 60 threshold handle claim_runs)
        (Run.next (Step.completed 7 completion threshold outcome complete_runs) Run.stop))
      granted-IsProven
