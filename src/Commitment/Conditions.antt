-- ===== src/Commitment/Conditions.antt =====
-- What `_build_gate` demands, written out: an independent description of the conditions that
-- `passes_gate` tests.
use mathlib.Core.List.{Memᴰ}
use aidan_venture_os.Base.{ℕ, ◌<◌, ◌≡◌, ◌≢◌, true, false, some}
use aidan_venture_os.Db.Research.{Importance, Link, Opportunity, OpportunityStatus, Stance}
use aidan_venture_os.Db.Validation.{
  Hypothesis, MeasurementKind, ValidationOutcome, ValidationResult, ValidationTest, WtpModality,
}
use aidan_venture_os.Db.Tx.{Db}
use aidan_venture_os.Validation.{find_test}
use aidan_venture_os.Research.Claims.{count_stance}
use aidan_venture_os.Research.Status.{IsAssessed}
use aidan_venture_os.NextAction.Gather.{
  State, find_hypothesis, gather, has_fail, has_inconclusive, has_pass,
}

-- a claim with support and without contradiction is linked to the opportunity
pub record IsSupported (o : ℕ) (db : Db) : Type 0 where
  pub link : Link
  pub stored : Memᴰ link db.research.opportunity_claims
  pub linked : link.left_id ≡ o
  pub support : 0 < count_stance Stance.supports link.right_id db.research.claim_evidence
  pub unopposed : count_stance Stance.contradicts link.right_id db.research.claim_evidence ≡ 0

-- a stored result of a test of one of the opportunity's hypotheses, in the venture
pub record IsResultOf (v o : ℕ) (db : Db) (r : ValidationResult) : Type 0 where
  pub stored : Memᴰ r db.validation.validation_results
  pub test : ValidationTest
  pub test_found : find_test r.test_id db.validation.tests ≡ some test
  pub hypothesis : Hypothesis
  pub hypothesis_found :
      find_hypothesis test.definition.hypothesis_id db.validation.hypotheses ≡ some hypothesis
  pub same_opportunity : hypothesis.opportunity_id ≡ o
  pub same_venture : hypothesis.venture_id ≡ v

-- the kinds of measurement that concern acquisition
pub data IsAcquisition : MeasurementKind → Type 0 where
  outreach : IsAcquisition MeasurementKind.outreach_response
  landing : IsAcquisition MeasurementKind.landing_conversion
  cost : IsAcquisition MeasurementKind.acquisition_cost

-- a PASS on willingness to pay, with a modality that applies
pub record IsPaidPass (v o : ℕ) (db : Db) : Type 0 where
  pub result : ValidationResult
  pub is_result : IsResultOf v o db result
  pub pass : result.outcome ≡ ValidationOutcome.pass
  pub modality : WtpModality
  pub has_modality : result.wtp_modality ≡ some modality
  pub applies : modality ≢ WtpModality.not_applicable

-- a PASS on acquisition
pub record IsAcquiredPass (v o : ℕ) (db : Db) : Type 0 where
  pub result : ValidationResult
  pub is_result : IsResultOf v o db result
  pub pass : result.outcome ≡ ValidationOutcome.pass
  pub kind : MeasurementKind
  pub has_kind : result.measurement_kind ≡ some kind
  pub acquires : IsAcquisition kind

-- what stands behind a BUILD decision
pub record IsReadyToBuild (v : ℕ) (opportunity : Opportunity) (db : Db) : Type 0 where
  pub candidate : opportunity.status ≡ OpportunityStatus.candidate
  pub claim : IsSupported opportunity.id db
  pub kill_case : IsAssessed opportunity.id db
  pub critical :
      (s : State)
      → Memᴰ s (gather v opportunity.id db)
      → s.assumption.importance ≡ Importance.critical
      → (has_pass s ≡ true) × (has_inconclusive s ≡ false) × (has_fail s ≡ false)
  pub agreed :
      (s : State)
      → Memᴰ s (gather v opportunity.id db)
      → has_pass s ≡ true
      → has_inconclusive s ≡ false
  pub no_fail :
      (r : ValidationResult) → IsResultOf v opportunity.id db r → r.outcome ≢ ValidationOutcome.fail
  pub paid : IsPaidPass v opportunity.id db
  pub acquired : IsAcquiredPass v opportunity.id db
