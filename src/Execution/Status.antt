-- ===== src/Execution/Status.antt =====
-- execution.py: `_set_status`, `_transition_to_success`, `get_status`.
use aidan_venture_os.Base.{
  ℕ, String, Bool, true, false, Option, none, some, update, is_some, if◌then◌else◌,
}
use aidan_venture_os.Db.Rows.{ActionRequest, RunStatus}
use aidan_venture_os.Db.Tx.{Db, Tx, Error, pure, gets, modify, require, record_event, ◌>>=◌, ◌>>◌}
use aidan_venture_os.Db.Queries.{has_action_id, action_or_raise, text, ◌⇒◌&◌}
use aidan_venture_os.Json.Dumps.{Fields, obj}
use aidan_venture_os.KillSwitch.{opt_text}
use aidan_venture_os.Proof.{verified_proof_id}

abbrev pub same_status : RunStatus → RunStatus → Bool
same_status RunStatus.pending RunStatus.pending = true
same_status RunStatus.running RunStatus.running = true
same_status RunStatus.succeeded RunStatus.succeeded = true
same_status RunStatus.failed RunStatus.failed = true
same_status RunStatus.awaiting_approval RunStatus.awaiting_approval = true
same_status RunStatus.authorized RunStatus.authorized = true
same_status RunStatus.cancelled RunStatus.cancelled = true
same_status RunStatus.recovery_required RunStatus.recovery_required = true
same_status _ _ = false

-- `_ALLOWED_STATUS`
unfoldable pub is_allowed : RunStatus → RunStatus → Bool
is_allowed RunStatus.pending RunStatus.awaiting_approval = true
is_allowed RunStatus.pending RunStatus.running = true
is_allowed RunStatus.pending RunStatus.cancelled = true
is_allowed RunStatus.awaiting_approval RunStatus.running = true
is_allowed RunStatus.awaiting_approval RunStatus.cancelled = true
is_allowed RunStatus.running RunStatus.failed = true
is_allowed RunStatus.running RunStatus.pending = true
is_allowed RunStatus.running RunStatus.recovery_required = true
is_allowed RunStatus.recovery_required RunStatus.running = true
is_allowed RunStatus.recovery_required RunStatus.failed = true
is_allowed _ _ = false

-- `_CLAIMABLE`
unfoldable pub is_claimable : RunStatus → Bool
is_claimable RunStatus.pending = true
is_claimable RunStatus.awaiting_approval = true
is_claimable RunStatus.recovery_required = true
is_claimable _ = false

abbrev pub status_name : RunStatus → String
status_name RunStatus.pending = "PENDING"
status_name RunStatus.running = "RUNNING"
status_name RunStatus.succeeded = "SUCCEEDED"
status_name RunStatus.failed = "FAILED"
status_name RunStatus.awaiting_approval = "AWAITING_APPROVAL"
status_name RunStatus.authorized = "AUTHORIZED"
status_name RunStatus.cancelled = "CANCELLED"
status_name RunStatus.recovery_required = "RECOVERY_REQUIRED"

abbrev pub with_status : RunStatus → ActionRequest → ActionRequest
with_status s r = record r { status = s }

-- UPDATE action_request SET status = … WHERE id = …
abbrev pub update_status : ℕ → RunStatus → Db → Db
update_status a s db = record db { actions = update (has_action_id a) (with_status s) db.actions }

-- `_set_status`: setting the same status again does nothing
unfoldable pub set_status : ℕ → RunStatus → String → Option String → Tx (Unit {0})
set_status action_id target actor reason = do
  row ← action_or_raise action_id
  if same_status row.status target then pure tt else do
    require (is_allowed row.status target) Error.execution_blocked
    modify (update_status action_id target)
    record_event "action.status_changed" actor none (some action_id) (
        obj (
          "from"
          ⇒ text (status_name row.status) & "to"
          ⇒ text (status_name target) & "reason"
          ⇒ opt_text reason & Fields.end))

-- `_transition_to_success`: only with a VERIFIED proof of this action. (The table's trigger asks for
-- the same proof.)
unfoldable pub transition_to_success : ℕ → String → Tx (Unit {0})
transition_to_success action_id actor = do
  proof_id ← gets (verified_proof_id action_id)
  require (is_some proof_id) Error.execution_blocked
  row ← action_or_raise action_id
  if same_status row.status RunStatus.succeeded then pure tt else do
    require (same_status row.status RunStatus.running) Error.execution_blocked
    modify (update_status action_id RunStatus.succeeded)
    record_event "action.status_changed" actor none (some action_id)
        (obj ("from" ⇒ text (status_name row.status) & "to" ⇒ text "SUCCEEDED" & Fields.end))

unfoldable pub get_status : ℕ → Tx RunStatus
get_status action_id = do row ← action_or_raise action_id; pure row.status
