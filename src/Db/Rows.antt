-- ===== src/Db/Rows.antt =====
-- The vocabularies of models.py and the rows of the tables that the migrations declare.
-- A uuid is a number. An amount, `numeric(20,4)`, is a number of ten-thousandths. A timestamp is a
-- number of microseconds. Columns that no modelled query reads (`created_at`, `updated_at`) are
-- left out.
use aidan_venture_os.Base.{ℕ, String, Bool, Option, true, false}
use aidan_venture_os.Json.Dumps.{Value}

pub data LifecycleState : Type 0 where
  discovered validating building operating archived : LifecycleState

pub data RunStatus : Type 0 where
  pending running succeeded failed awaiting_approval authorized cancelled recovery_required :
      RunStatus

pub data InvestmentDecision : Type 0 where
  validate build improve market scale hold kill do_nothing : InvestmentDecision

pub data PolicyOutcome : Type 0 where
  allow deny require_approval : PolicyOutcome

-- the reasons that `policy.evaluate` gives
pub data PolicyReason : Type 0 where
  kill_switch_global kill_switch_venture insufficient_budget autonomy_insufficient
        above_approval_threshold allowed :
      PolicyReason

pub data EntryType : Type 0 where
  grant reserve release commit : EntryType

pub data ApprovalState : Type 0 where
  pending approved rejected expired : ApprovalState

pub data SafetyMode : Type 0 where
  idempotent reconcilable unsafe : SafetyMode

pub data AttemptStatus : Type 0 where
  claimed completed failed abandoned recovery_required : AttemptStatus

pub data Verdict : Type 0 where
  verified failed : Verdict

pub data EvidenceKind : Type 0 where
  source observation claim : EvidenceKind

pub record Venture : Type 0 where
  pub id : ℕ
  pub slug : String
  pub lifecycle_state : LifecycleState
  pub mandate_version : Option ℕ
  pub autonomy_level : ℕ

pub record MandateVersion : Type 0 where
  pub id : ℕ
  pub venture_id : ℕ
  pub version : ℕ
  pub content_hash : String
  pub source_ref : Option String

pub record ActionRequest : Type 0 where
  pub id : ℕ
  pub venture_id : ℕ
  pub action_type : String
  pub actor : String
  pub payload : Value
  pub payload_hash : ℕ
  pub idempotency_key : String
  pub status : RunStatus
  pub required_autonomy : ℕ
  pub requested_amount : ℕ
  pub requested_currency : String

pub record BudgetAccount : Type 0 where
  pub id : ℕ
  pub venture_id : ℕ
  pub currency : String
  pub granted : ℕ
  pub reserved : ℕ
  pub committed : ℕ

pub record CapitalEntry : Type 0 where
  pub venture_id : ℕ
  pub account_id : ℕ
  pub action_id : Option ℕ
  pub kind : EntryType
  pub amount : ℕ
  pub currency : String
  pub reference : Option String

-- `venture_id` is none just for the GLOBAL scope (a CHECK of the table)
pub record KillSwitch : Type 0 where
  pub venture_id : Option ℕ
  pub active : Bool
  pub engaged_by : String
  pub reason : Option String
  pub released_by : Option String

pub record PolicyDecision : Type 0 where
  pub id : ℕ
  pub action_id : ℕ
  pub decision : PolicyOutcome
  pub inputs_hash : ℕ
  pub inputs : Value
  pub reason : PolicyReason

pub record Approval : Type 0 where
  pub id : ℕ
  pub action_id : ℕ
  pub decision_id : ℕ
  pub state : ApprovalState
  pub bound_inputs_hash : ℕ
  pub expires_at : ℕ
  pub decided_by : Option String
  pub decided_at : Option ℕ
  pub reason : Option String

pub record ExecutionAttempt : Type 0 where
  pub id : ℕ
  pub action_id : ℕ
  pub attempt_number : ℕ
  pub executor_ref : String
  pub safety_mode : SafetyMode
  pub lease_token : ℕ
  pub lease_expires_at : ℕ
  pub status : AttemptStatus
  pub failure_class : Option String

pub record ExecutionResult : Type 0 where
  pub id : ℕ
  pub action_id : ℕ
  pub attempt_id : Option ℕ
  pub external_result_id : String
  pub raw_payload : Value
  pub raw_hash : ℕ
  pub reported_outcome : String

pub record ProofReceipt : Type 0 where
  pub id : ℕ
  pub action_id : ℕ
  pub result_id : ℕ
  pub attempt_id : Option ℕ
  pub verification_type : String
  pub verifier : String
  pub result : Verdict
  pub evidence_hash : ℕ

pub record DecisionRecord : Type 0 where
  pub id : ℕ
  pub venture_id : ℕ
  pub decision : InvestmentDecision
  pub rationale_ref : Option String
  pub resulting_action_id : Option ℕ
  pub source_recommendation_id : Option ℕ

-- the hash that a caller hands in, or one that the kernel has computed
pub data ContentHash : Type 0 where
  given : String → ContentHash
  digest : ℕ → ContentHash

pub record EvidenceRecord : Type 0 where
  pub id : ℕ
  pub venture_id : ℕ
  pub action_id : Option ℕ
  pub kind : EvidenceKind
  pub source_ref : Option String
  pub content_hash : ContentHash
  pub payload : Value

pub record AuditEvent : Type 0 where
  pub id : ℕ
  pub event_type : String
  pub actor : String
  pub venture_id : Option ℕ
  pub action_id : Option ℕ
  pub payload : Value
  pub occurred_at : ℕ

pub data InterventionKind : Type 0 where
  reasoning_correction code_repair deployment_repair provider_repair outcome_transcription :
      InterventionKind

-- an unplanned intervention (migration 0023)
pub record Intervention : Type 0 where
  pub id : ℕ
  pub venture_id : ℕ
  pub kind : InterventionKind
  pub stage : String
  pub related_action_id : Option ℕ
  pub reason : Option String
  pub occurred_at : ℕ

abbrev pub is_verified : Verdict → Bool
is_verified Verdict.verified = true
is_verified Verdict.failed = false
