-- ===== src/Db/Research.antt =====
-- The rows of research and of its evidence (migrations 0005 to 0008), and their vocabularies.
-- A digest is a number, as SHA-256 is a parameter of the functions that take one.
use aidan_venture_os.Base.{ℕ, String, Bool, Option, List}
use aidan_venture_os.Json.Dumps.{Value}

pub data Stance : Type 0 where
  supports contradicts : Stance

pub data Importance : Type 0 where
  low medium high critical : Importance

pub data Confidence : Type 0 where
  low medium high : Confidence

pub data OpportunityStatus : Type 0 where
  draft insufficient_evidence candidate killed : OpportunityStatus

pub data Disposition : Type 0 where
  proceed_with_risks kill insufficient_evidence : Disposition

pub data Assessment : Type 0 where
  low_risk material_risk severe_risk insufficient_evidence : Assessment

pub data Dimension : Type 0 where
  dominant_alternatives wtp_weakness distribution_difficulty commoditisation switching_barriers
        regulation data_constraints unit_economics support_burden market_size technology_risk :
      Dimension

pub data ResearchOutcome : Type 0 where
  opportunities_found no_credible_opportunity insufficient_evidence : ResearchOutcome

pub record SourceReceipt : Type 0 where
  pub evidence_id : ℕ
  pub venture_id : ℕ
  pub locator : String
  pub source_type : String
  pub retrieved_at : ℕ
  pub retrieved_by : String
  pub acquisition_key : String
  pub published_at : Option ℕ
  pub publication_time_known : Bool
  pub excerpt : Option String
  pub snapshot_ref : Option String
  pub reliability_code : Option String
  pub metadata : Value

pub record Observation : Type 0 where
  pub evidence_id : ℕ
  pub venture_id : ℕ
  pub source_evidence_id : ℕ
  pub source_locator : Option String
  pub statement : String
  pub excerpt : Option String
  pub observation_key : String

pub record Claim : Type 0 where
  pub evidence_id : ℕ
  pub venture_id : ℕ
  pub statement : String
  pub claim_key : String

pub record ClaimEvidence : Type 0 where
  pub id : ℕ
  pub claim_id : ℕ
  pub observation_id : ℕ
  pub venture_id : ℕ
  pub stance : Stance
  pub reason : Option String

pub record Interpretation : Type 0 where
  pub id : ℕ
  pub venture_id : ℕ
  pub interpretation_key : String
  pub statement : String
  pub statement_hash : ℕ
  pub produced_by : String

pub record Assumption : Type 0 where
  pub id : ℕ
  pub venture_id : ℕ
  pub assumption_key : String
  pub proposition : String
  pub proposition_hash : ℕ
  pub importance : Importance
  pub confidence : Confidence
  pub consequence_if_false : String
  pub cheapest_test : String

pub record Opportunity : Type 0 where
  pub id : ℕ
  pub venture_id : ℕ
  pub opportunity_key : String
  pub buyer_hypothesis : Option String
  pub problem_hypothesis : Option String
  pub acquisition_hypothesis : Option String
  pub critical_unknown : Option String
  pub payload_hash : ℕ
  pub status : OpportunityStatus
  pub status_reason : Option String

pub record KillCase : Type 0 where
  pub id : ℕ
  pub opportunity_id : ℕ
  pub venture_id : ℕ
  pub kill_case_key : String
  pub disposition : Disposition
  pub content_hash : ℕ

pub record KillCaseDimension : Type 0 where
  pub id : ℕ
  pub kill_case_id : ℕ
  pub venture_id : ℕ
  pub dimension : Dimension
  pub assessment : Assessment
  pub rationale : String
  pub content_hash : ℕ

pub record ResearchResult : Type 0 where
  pub id : ℕ
  pub venture_id : ℕ
  pub result_key : String
  pub outcome : ResearchOutcome
  pub reason : Option String

-- a row of a table that relates two others within a venture
pub record Link : Type 0 where
  pub left_id : ℕ
  pub right_id : ℕ
  pub venture_id : ℕ

pub record ResearchTables : Type 0 where
  pub sources : List SourceReceipt
  pub observations : List Observation
  pub claims : List Claim
  pub claim_evidence : List ClaimEvidence
  pub interpretations : List Interpretation
  pub interpretation_claims : List Link
  pub assumptions : List Assumption
  pub assumption_claims : List Link
  pub assumption_interpretations : List Link
  pub opportunities : List Opportunity
  pub opportunity_claims : List Link
  pub opportunity_assumptions : List Link
  pub opportunity_interpretations : List Link
  pub kill_cases : List KillCase
  pub dimensions : List KillCaseDimension
  pub dimension_claims : List Link
  pub research_results : List ResearchResult
