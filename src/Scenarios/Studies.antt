-- ===== src/Scenarios/Studies.antt =====
-- What validation.py and the research kernel do with the opportunity.
use aidan_venture_os.Base.{◌≡◌, refl, true, false, none, some, arith, find, any, update}
use aidan_venture_os.Db.Research.{OpportunityStatus, Stance}
use aidan_venture_os.Db.Validation.{ValidationOutcome}
use aidan_venture_os.Db.Tx.{Db, Error, ok, err, record_event}
use aidan_venture_os.Json.Canonical.{get}
use aidan_venture_os.Validation.Criteria.{evaluate_outcome, is_met}
use aidan_venture_os.Validation.Outcomes.{record_result_other_test}
use aidan_venture_os.Validation.History.{IsDerived, Step, Steps, Steps-IsDerived}
use aidan_venture_os.Validation.{
  ResultInput, find_result_key, find_test, insert_result, record_result,
}
use aidan_venture_os.Research.Claims.{find_relation, link_evidence, return_relation}
use aidan_venture_os.Research.Relations.{link_evidence_again}
use aidan_venture_os.Research.KillCases.{
  find_kill_case, find_opportunity, missing_dimensions, missing_of,
}
use aidan_venture_os.Research.Opportunities.{
  change_status, finalize_candidate, is_link_of, is_ready, kill,
}
use aidan_venture_os.Research.Status.{IsAssessed, finalize_candidate-IsAssessed}
use aidan_venture_os.Research.Moves
use aidan_venture_os.Scenarios.{after, digest}
use aidan_venture_os.Scenarios.Study.{mild_test, observed, opportunity, page_test, planned}

-- a conversion of 7 of the first test, under one key
abbrev conversion : ResultInput
conversion = record {
  test_id = 33;
  result_key = "first";
  observed_value = some (observed 7);
  interpretation = none;
  wtp_modality = none;
  measurement_kind = none;
  observation_id = none;
  external_result_ref = none;
}

abbrev recorded : Db
recorded = after (record_result digest conversion "aidan" planned)

record_runs :
    record_result digest conversion "aidan" planned
    ≡ ok (record { result_id = 50; outcome = ValidationOutcome.pass; created = true }, recorded)
unfolding record_result insert_result evaluate_outcome is_met find_test find_result_key find any
    record_event get
record_runs = refl

planned-IsDerived : IsDerived planned
unfolding find_test find
planned-IsDerived = record { rows = tt; unused = λ i k. ground arith }

Steps-IsDerived_example : IsDerived recorded
Steps-IsDerived_example =
    Steps-IsDerived digest planned recorded
      (Steps.next planned recorded recorded
        (Step.result_recorded conversion "aidan" planned recorded
          (record { result_id = 50; outcome = ValidationOutcome.pass; created = true }) record_runs)
        (Steps.done recorded))
      planned-IsDerived

-- the same key for the test without criteria: INCONCLUSIVE, though the stored outcome is PASS
record_result_other_test_example :
    record_result digest (record conversion { test_id = 34 }) "aidan" recorded
    ≡ ok (
      record { result_id = 50; outcome = ValidationOutcome.inconclusive; created = false },
      recorded,
    )
unfolding find_test find evaluate_outcome is_met
record_result_other_test_example =
    record_result_other_test digest conversion (record conversion { test_id = 34 }) page_test
      mild_test "aidan" "aidan" ValidationOutcome.inconclusive planned recorded
      (record { result_id = 50; outcome = ValidationOutcome.pass; created = true }) record_runs refl
      refl refl refl refl refl

link_runs :
    link_evidence 35 36 Stance.supports none "aidan" planned
    ≡ ok (record { id = 37; created = false }, planned)
unfolding link_evidence find_relation find return_relation
link_runs = refl

link_evidence_again_example :
    link_evidence 35 36 Stance.contradicts none "aidan" planned
    ≡ err Error.evidence_relation_conflict
link_evidence_again_example =
    link_evidence_again 35 36 Stance.supports Stance.contradicts none none "aidan" "aidan" planned
      planned (record { id = 37; created = false }) link_runs

abbrev finalized : Db
finalized = after (finalize_candidate 30 "aidan" planned)

finalize_runs : finalize_candidate 30 "aidan" planned ≡ ok (OpportunityStatus.candidate, finalized)
unfolding finalize_candidate is_ready find_opportunity find_kill_case missing_dimensions missing_of
    find any update record_event
finalize_runs = refl

finalize_candidate-IsAssessed_example :
    (opportunity.status ≡ OpportunityStatus.draft)
    × (any (is_link_of 30) planned.research.opportunity_claims ≡ true)
    × (any (is_link_of 30) planned.research.opportunity_assumptions ≡ true)
    × IsAssessed 30 planned
    × (find_opportunity 30 finalized.research.opportunities
        ≡ some (record opportunity { status = OpportunityStatus.candidate }))
unfolding find_opportunity find
finalize_candidate-IsAssessed_example =
    finalize_candidate-IsAssessed 30 "aidan" planned finalized OpportunityStatus.candidate
      opportunity finalize_runs refl (λ h. ground arith)

abbrev dropped : Db
dropped = after (kill 30 "no demand" "aidan" finalized)

kill_runs : kill 30 "no demand" "aidan" finalized ≡ ok (OpportunityStatus.killed, dropped)
unfolding kill change_status finalize_candidate is_ready find_opportunity find_kill_case
    missing_dimensions missing_of find any update record_event
kill_runs = refl

Steps-Follows_example : Moves.Follows 30 OpportunityStatus.draft dropped
unfolding find_opportunity find
Steps-Follows_example =
    Moves.Steps-Follows 30 opportunity
      (Moves.Steps.next (Moves.Step.finalized 30 "aidan" OpportunityStatus.candidate finalize_runs)
        (Moves.Steps.next
          (Moves.Step.killed 30 "no demand" "aidan" OpportunityStatus.killed kill_runs)
          Moves.Steps.stop))
      refl
