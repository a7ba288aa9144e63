-- ===== src/Commitment/Gate.antt =====
-- commitment.py: what stands before a BUILD and before the spend of a VALIDATE (`_build_gate`,
-- `_validate_spend_bound`).
use aidan_venture_os.Base.{
  ℕ, Bool, true, false, Option, none, some, List, ◌==◌, ◌&&◌, ◌||◌, not, leb, find, any, select,
}
use aidan_venture_os.Db.Research.{Importance, Link, Opportunity, OpportunityStatus}
use aidan_venture_os.Db.Validation.{
  Hypothesis, MeasurementKind, ValidationOutcome, ValidationResult, ValidationTest, WtpModality,
}
use aidan_venture_os.Db.Tx.{Db, Tx, Error, raise, gets, or_raise, require, ◌>>=◌}
use aidan_venture_os.Validation.{find_test, is_opportunity_of}
use aidan_venture_os.Research.Claims.{ClaimState, claim_state}
use aidan_venture_os.Research.KillCases.{find_kill_case}
use aidan_venture_os.Research.Opportunities.{same_state, is_complete}
use aidan_venture_os.NextAction.Gather.{
  State, gather, all_states, find_hypothesis, has_fail, has_inconclusive, has_outcome, has_pass,
}

abbrev pub is_supported : ClaimState → Bool
is_supported ClaimState.supported = true
is_supported _ = false

-- a linked claim, in the state SUPPORTED
abbrev pub is_supported_link : ℕ → Db → Link → Bool
is_supported_link o db k = k.left_id == o && is_supported (claim_state k.right_id db)

unfoldable pub has_supported_claim : ℕ → Db → Bool
has_supported_claim o db = any (is_supported_link o db) db.research.opportunity_claims

abbrev pub is_critical : Importance → Bool
is_critical Importance.critical = true
is_critical _ = false

-- no unresolved CRITICAL assumption, and no PASS against an INCONCLUSIVE
unfoldable pub is_cleared : State → Bool
is_cleared s =
    (not (is_critical s.assumption.importance)
      || (has_pass s && (not (has_inconclusive s) && not (has_fail s))))
    && not (has_pass s && has_inconclusive s)

abbrev pub hypothesis_of_opportunity : ℕ → ℕ → Option Hypothesis → Bool
hypothesis_of_opportunity v o none = false
hypothesis_of_opportunity v o (some h) = h.opportunity_id == o && h.venture_id == v

abbrev pub test_of_opportunity : ℕ → ℕ → Db → Option ValidationTest → Bool
test_of_opportunity v o db none = false
test_of_opportunity v o db (some t) =
    hypothesis_of_opportunity v o
      (find_hypothesis t.definition.hypothesis_id db.validation.hypotheses)

abbrev pub result_of_opportunity : ℕ → ℕ → Db → ValidationResult → Bool
result_of_opportunity v o db r =
    test_of_opportunity v o db (find_test r.test_id db.validation.tests)

-- the results of the tests of the opportunity's hypotheses
unfoldable pub results_of : ℕ → ℕ → Db → List ValidationResult
results_of v o db = select (result_of_opportunity v o db) db.validation.validation_results

abbrev pub is_wtp : Option WtpModality → Bool
is_wtp none = false
is_wtp (some WtpModality.not_applicable) = false
is_wtp (some _) = true

-- `_ACQUISITION_KINDS`
abbrev pub is_acquisition : Option MeasurementKind → Bool
is_acquisition (some MeasurementKind.outreach_response) = true
is_acquisition (some MeasurementKind.landing_conversion) = true
is_acquisition (some MeasurementKind.acquisition_cost) = true
is_acquisition _ = false

abbrev pub is_wtp_pass : ValidationResult → Bool
is_wtp_pass r = has_outcome ValidationOutcome.pass r && is_wtp r.wtp_modality

abbrev pub is_acquisition_pass : ValidationResult → Bool
is_acquisition_pass r = has_outcome ValidationOutcome.pass r && is_acquisition r.measurement_kind

-- no failure is listed: the conditions of `_build_gate`, one after the other
unfoldable pub passes_gate : ℕ → Opportunity → Db → Bool
passes_gate v o db =
    same_state o.status OpportunityStatus.candidate
    && (has_supported_claim o.id db
        && (is_complete (find_kill_case o.id db.research.kill_cases) db
            && (all_states is_cleared (gather v o.id db)
                && (not (any (has_outcome ValidationOutcome.fail) (results_of v o.id db))
                    && (any is_wtp_pass (results_of v o.id db)
                        && any is_acquisition_pass (results_of v o.id db))))))

-- `_build_gate`
unfoldable pub build_gate : ℕ → ℕ → Tx (Unit {0})
build_gate venture_id opportunity_id = do
  row ← gets (λ db. find (is_opportunity_of opportunity_id venture_id) db.research.opportunities)
  o ← or_raise row Error.not_found
  satisfied ← gets (passes_gate venture_id o)
  require satisfied Error.build_gate_not_satisfied

abbrev pub is_test_of : ℕ → ℕ → ValidationTest → Bool
is_test_of i v t = t.id == i && t.venture_id == v

abbrev covers : ℕ → Option ℕ → Bool
covers amount none = false
covers amount (some most) = leb amount most

-- `_validate_spend_bound`
unfoldable pub validate_spend_bound : ℕ → Option ℕ → ℕ → Tx (Unit {0})
validate_spend_bound venture_id none amount = raise Error.consequential_spend
validate_spend_bound venture_id (some i) amount = do
  row ← gets (λ db. find (is_test_of i venture_id) db.validation.tests)
  t ← or_raise row Error.not_found
  require (covers amount t.definition.max_spend) Error.consequential_spend
