-- ===== src/Db/Validation.antt =====
-- The rows of validation, of next actions and of the market (migrations 0009, 0010, 0019, 0020 and
-- 0023), and their vocabularies.
use aidan_venture_os.Base.{ℕ, String, Option, List}
use aidan_venture_os.Base.Int.{ℤ}
use aidan_venture_os.Json.Dumps.{Value}
use aidan_venture_os.Db.Research.{Link}

pub data TestType : Type 0 where
  interview loi pilot preorder landing_page outreach pricing usage benchmark other : TestType

pub data Comparator : Type 0 where
  gte lte gt lt eq is_true : Comparator

pub data ValidationOutcome : Type 0 where
  pass fail inconclusive : ValidationOutcome

pub data WtpModality : Type 0 where
  stated_interest stated_willingness signed_commitment actual_payment not_applicable : WtpModality

pub data MeasurementKind : Type 0 where
  outreach_response landing_conversion acquisition_cost activation retention usage
        other_measured_metric :
      MeasurementKind

pub data NextAction : Type 0 where
  research_more validate build hold kill market : NextAction

pub data ReasonCode : Type 0 where
  kill_criterion_triggered insufficient_evidence critical_assumption_unresolved
        validation_contradictory acquisition_unresolved build_consideration_ready
        no_high_value_action_now :
      ReasonCode

pub record Hypothesis : Type 0 where
  pub id : ℕ
  pub venture_id : ℕ
  pub hypothesis_key : String
  pub opportunity_id : ℕ
  pub assumption_id : Option ℕ
  pub statement : String
  pub statement_hash : ℕ
  pub critical_unknown : Option String

-- one precommitted, structured criterion; a threshold is a number of ten-thousandths
pub record Criterion : Type 0 where
  pub metric : Option String
  pub comparator : Option Comparator
  pub threshold : Option ℤ

-- what a test commits to
pub record Definition : Type 0 where
  pub hypothesis_id : ℕ
  pub test_type : TestType
  pub method : String
  pub target_segment : Option String
  pub success_criterion : String
  pub kill_criterion : Option String
  pub evidence_required : String
  pub max_spend : Option ℕ
  pub max_duration_days : Option ℕ
  pub success : Criterion
  pub kill : Criterion

pub record ValidationTest : Type 0 where
  pub id : ℕ
  pub venture_id : ℕ
  pub test_key : String
  pub definition : Definition
  pub definition_hash : ℕ
  pub action_id : Option ℕ

pub record ValidationResult : Type 0 where
  pub id : ℕ
  pub venture_id : ℕ
  pub test_id : ℕ
  pub result_key : String
  pub observed_value : Value
  pub observed_hash : ℕ
  pub interpretation : Option String
  pub outcome : ValidationOutcome
  pub wtp_modality : Option WtpModality
  pub measurement_kind : Option MeasurementKind
  pub observation_id : Option ℕ
  pub external_result_ref : Option String

pub record Recommendation : Type 0 where
  pub id : ℕ
  pub venture_id : ℕ
  pub recommendation_key : String
  pub opportunity_id : ℕ
  pub action_type : NextAction
  pub reason_code : ReasonCode
  pub input_hash : ℕ
  pub selected_test_id : Option ℕ

-- the columns of the market's tables that the allocator reads; every completion is NO_RESPONSE (a
-- CHECK of its table)
pub record MarketActionSpec : Type 0 where
  pub id : ℕ
  pub venture_id : ℕ
  pub opportunity_id : ℕ
  pub test_id : ℕ

pub record MarketObservation : Type 0 where
  pub id : ℕ
  pub spec_id : ℕ

pub record WindowCompletion : Type 0 where
  pub id : ℕ
  pub spec_id : ℕ

pub record ValidationTables : Type 0 where
  pub hypotheses : List Hypothesis
  pub tests : List ValidationTest
  pub validation_results : List ValidationResult
  pub recommendations : List Recommendation
  pub recommendation_assumptions : List Link
  pub recommendation_tests : List Link
  pub recommendation_results : List Link
  pub recommendation_observations : List Link
  pub recommendation_completions : List Link
  pub market_specs : List MarketActionSpec
  pub market_observations : List MarketObservation
  pub completions : List WindowCompletion
