-- ===== src/Scenarios/Study.antt =====
-- Runs of validation.py and of research: one opportunity with one critical assumption and its test.
use aidan_venture_os.Base.{ℕ, none, some, [], ◌∷◌}
use aidan_venture_os.Base.Int.{pos}
use aidan_venture_os.Db.Research.{
  Assumption, Claim, ClaimEvidence, Confidence, Dimension, Importance, KillCase, KillCaseDimension,
  Assessment, Disposition, Observation, Opportunity, OpportunityStatus, ResearchTables, Stance,
}
use aidan_venture_os.Db.Validation.{
  Comparator, Criterion, Definition, Hypothesis, MeasurementKind, TestType, ValidationOutcome,
  ValidationResult, ValidationTest, WtpModality,
}
use aidan_venture_os.Db.Tx.{Db}
use aidan_venture_os.Json.Text.{codes}
use aidan_venture_os.Json.Dumps.{Value, Fields, obj}
use aidan_venture_os.Scenarios.{no_research, no_validation, start}

abbrev pub no_criterion : Criterion
no_criterion = record { metric = none; comparator = none; threshold = none }

-- a conversion of at least 5 passes, and one of at most 1 kills
abbrev pub definition : Definition
definition = record {
  hypothesis_id = 32;
  test_type = TestType.landing_page;
  method = "page";
  target_segment = none;
  success_criterion = "conversion of 5";
  kill_criterion = some "conversion of 1";
  evidence_required = "counts";
  max_spend = some 500000;
  max_duration_days = some 14;
  success = record {
    metric = some "conversion";
    comparator = some Comparator.gte;
    threshold = some (pos 50000);
  };
  kill = record {
    metric = some "conversion";
    comparator = some Comparator.lte;
    threshold = some (pos 10000);
  };
}

abbrev pub page_test : ValidationTest
page_test = record {
  id = 33;
  venture_id = 1;
  test_key = "page";
  definition = definition;
  definition_hash = 0;
  action_id = none;
}

-- the same venture's test that has no kill criterion
abbrev pub mild_test : ValidationTest
mild_test = record page_test {
  id = 34;
  test_key = "mild";
  definition = record definition { kill = no_criterion; success = no_criterion };
}

abbrev pub observed : ℕ → Value
observed n = obj (Fields.field (codes "conversion") (Value.int (pos n)) Fields.end)

abbrev pub opportunity : Opportunity
opportunity = record {
  id = 30;
  venture_id = 1;
  opportunity_key = "shop";
  buyer_hypothesis = some "b";
  problem_hypothesis = some "p";
  acquisition_hypothesis = none;
  critical_unknown = some "u";
  payload_hash = 0;
  status = OpportunityStatus.draft;
  status_reason = none;
}

abbrev pub assumption : Assumption
assumption = record {
  id = 31;
  venture_id = 1;
  assumption_key = "pay";
  proposition = "they pay";
  proposition_hash = 0;
  importance = Importance.critical;
  confidence = Confidence.low;
  consequence_if_false = "no sale";
  cheapest_test = "page";
}

abbrev pub hypothesis : Hypothesis
hypothesis = record {
  id = 32;
  venture_id = 1;
  hypothesis_key = "pay";
  opportunity_id = 30;
  assumption_id = some 31;
  statement = "they pay";
  statement_hash = 0;
  critical_unknown = none;
}

-- an observation supports a claim, which is linked to the opportunity
abbrev pub support : ClaimEvidence
support = record {
  id = 37;
  claim_id = 35;
  observation_id = 36;
  venture_id = 1;
  stance = Stance.supports;
  reason = none;
}

abbrev claim : Claim
claim = record { evidence_id = 35; venture_id = 1; statement = "s"; claim_key = "c" }

abbrev observation : Observation
observation = record {
  evidence_id = 36;
  venture_id = 1;
  source_evidence_id = 29;
  source_locator = none;
  statement = "s";
  excerpt = none;
  observation_key = "o";
}

abbrev assessed : Dimension → KillCaseDimension
assessed d = record {
  id = 39;
  kill_case_id = 38;
  venture_id = 1;
  dimension = d;
  assessment = Assessment.low_risk;
  rationale = "r";
  content_hash = 0;
}

abbrev kill_case : KillCase
kill_case = record {
  id = 38;
  opportunity_id = 30;
  venture_id = 1;
  kill_case_key = "k";
  disposition = Disposition.proceed_with_risks;
  content_hash = 0;
}

abbrev pub studied : Opportunity → ResearchTables
studied o = record no_research {
  observations = observation ∷ [];
  claims = claim ∷ [];
  claim_evidence = support ∷ [];
  assumptions = assumption ∷ [];
  opportunities = o ∷ [];
  opportunity_claims = (record { left_id = 30; right_id = 35; venture_id = 1 }) ∷ [];
  opportunity_assumptions = (record { left_id = 30; right_id = 31; venture_id = 1 }) ∷ [];
  kill_cases = kill_case ∷ [];
  dimensions =
      assessed Dimension.dominant_alternatives
      ∷ assessed Dimension.wtp_weakness
      ∷ assessed Dimension.distribution_difficulty
      ∷ assessed Dimension.commoditisation
      ∷ assessed Dimension.switching_barriers
      ∷ assessed Dimension.regulation
      ∷ assessed Dimension.data_constraints
      ∷ assessed Dimension.unit_economics
      ∷ assessed Dimension.support_burden
      ∷ assessed Dimension.market_size
      ∷ assessed Dimension.technology_risk
      ∷ [];
}

-- the tests are defined, and nothing is measured yet
abbrev pub planned : Db
planned = record start {
  research = studied opportunity;
  validation = record no_validation {
    hypotheses = hypothesis ∷ [];
    tests = page_test ∷ mild_test ∷ [];
  };
  next_id = 50;
}

abbrev result : ValidationOutcome → ValidationResult
result o = record {
  id = 40;
  venture_id = 1;
  test_id = 33;
  result_key = "first";
  observed_value = observed 7;
  observed_hash = 0;
  interpretation = none;
  outcome = o;
  wtp_modality = some WtpModality.actual_payment;
  measurement_kind = some MeasurementKind.landing_conversion;
  observation_id = none;
  external_result_ref = none;
}

-- the opportunity is a CANDIDATE, and its assumption is measured
abbrev pub measured : ValidationOutcome → Db
measured o = record planned {
  research = studied (record opportunity { status = OpportunityStatus.candidate });
  validation = record planned.validation { validation_results = result o ∷ [] };
}
