-- ===== src/Scenarios/Investments.antt =====
-- Recommendations of nextaction.py and what commitment.py makes of them.
use aidan_venture_os.Budget.{clashes, grant_budget, insert_entry, post_grant, upsert_account}
use aidan_venture_os.Research.Claims.{claim_state, count_stance}
use aidan_venture_os.Policy.{
  current_evaluation, evaluate, holds_reservation, input_of, load_policy_input, persist_decision,
}
use aidan_venture_os.KillSwitch.{find_switch}
use aidan_venture_os.Json.Dumps.{dumps}
use aidan_venture_os.Json.Canonical.{canonical_payload_hash}
use aidan_venture_os.Execution.Claim.{open_approval}
use aidan_venture_os.Commitment.Keys.{commit_key}
use aidan_venture_os.Commitment.Gate.{
  build_gate, has_supported_claim, is_cleared, passes_gate, results_of, validate_spend_bound,
}
use aidan_venture_os.Actions.{row_fits, create_action, find_key}
use aidan_venture_os.Research.KillCases.{
  find_opportunity, find_kill_case, missing_dimensions, missing_of,
}
use aidan_venture_os.Validation.{find_test}
use aidan_venture_os.Base.{
  ◌≡◌, ◌↔◌, refl, true, false, none, some, [], ◌∷◌, arith, find, any, select, sort_by,
}
use aidan_venture_os.Db.Rows.{InvestmentDecision, PolicyOutcome}
use aidan_venture_os.Db.Validation.{NextAction, ReasonCode, ValidationOutcome, Recommendation}
use aidan_venture_os.Db.Tx.{Db, ok, record_event}
use aidan_venture_os.NextAction.Basis.{Choice, basis_payload, sorted_ids}
use aidan_venture_os.NextAction.Gather.{
  gather, has_fail, all_states, linked, result_ids, results_about, top_ranked, cheapest,
  cheapest_test,
}
use aidan_venture_os.NextAction.{
  Recommended, find_recommendation, decide, recommend, can_build, decide_build,
  find_recommendation_key, insert_recommendation, current_basis,
}
use aidan_venture_os.NextAction.Choices.{IsBuildable, decide-kill_iff, decide-IsBuildable}
use aidan_venture_os.NextAction.Freshness.{recommend_again}
use aidan_venture_os.Commitment.{
  commit_recommendation, find_decision, assert_not_stale, check_target, convert, insert_decision,
  intake_action, resulting_action, submit_to_policy,
}
use aidan_venture_os.Commitment.Targets.{Committed, Request, decision_for}
use aidan_venture_os.Commitment.Commits.{
  commit_recommendation-IsBounded, commit_recommendation-IsFresh, commit_recommendation-IsGated,
}
use aidan_venture_os.Commitment.Parts.{IsBounded, IsFresh, IsGated}
use aidan_venture_os.Commitment.Again.{commit_again}
use aidan_venture_os.Commitment.Untouched.{Untouched, commit_recommendation-Untouched}
use aidan_venture_os.Commitment.Fresh.{commit-kill_succeeds}
use aidan_venture_os.Db.Queries.{has_venture_id, find_venture, find_account, find_action}
use aidan_venture_os.Scenarios.{after, digest, granted, threshold}
use aidan_venture_os.Scenarios.Study.{measured, planned}

abbrev failing : Db
failing = measured ValidationOutcome.fail

abbrev passing : Db
passing = measured ValidationOutcome.pass

abbrev killing : Choice
killing = record {
  action = NextAction.kill;
  reason = ReasonCode.kill_criterion_triggered;
  selected_test = none;
  considered_assumptions = 31 ∷ [];
  considered_tests = [];
  considered_results = 40 ∷ [];
  considered_observations = [];
  considered_completions = [];
}

abbrev building : Choice
building = record killing {
  action = NextAction.build;
  reason = ReasonCode.build_consideration_ready;
}

killing_runs : decide 1 30 failing ≡ ok (killing, failing)
unfolding decide find gather sort_by linked any results_about select find_test result_ids
killing_runs = refl

building_runs : decide 1 30 passing ≡ ok (building, passing)
unfolding decide find gather sort_by linked any results_about select find_test top_ranked
    decide_build find_opportunity find_venture can_build all_states result_ids
building_runs = refl

decide-kill_iff_example :
    (NextAction.kill ≡ NextAction.kill) ↔ (any has_fail (gather 1 30 failing) ≡ true)
decide-kill_iff_example = decide-kill_iff 1 30 failing failing killing killing_runs

decide-IsBuildable_example : IsBuildable 1 30 passing
decide-IsBuildable_example = decide-IsBuildable 1 30 passing passing building building_runs refl

-- a recommendation to kill, of the failing opportunity
abbrev advised : Db
advised = after (recommend digest 1 30 "first" "aidan" failing)

abbrev kill_advice : Recommended
kill_advice = record {
  recommendation_id = 50;
  action_type = NextAction.kill;
  reason_code = ReasonCode.kill_criterion_triggered;
  created = true;
}

advice_runs : recommend digest 1 30 "first" "aidan" failing ≡ ok (kill_advice, advised)
unfolding decide recommend find gather sort_by linked any results_about select find_test
    find_recommendation_key insert_recommendation record_event
advice_runs = refl

recommend_again_example :
    recommend digest 1 30 "first" "other" advised
    ≡ ok (record kill_advice { created = false }, advised)
recommend_again_example =
    recommend_again digest 1 30 "first" "aidan" failing advised kill_advice advice_runs "other"

-- a commitment without an amount
abbrev plain : Request
plain = record {
  decision = none;
  requested_amount = none;
  requested_currency = "USD";
  required_autonomy = 0;
  action_type = none;
  approval_threshold = threshold;
  actor = "aidan";
}

venture_there : any (has_venture_id 1) failing.ventures ≡ true
unfolding any
venture_there = refl

no_decision : find_decision 50 failing.decision_records ≡ none
unfolding find_decision find
no_decision = refl

commit-kill_succeeds_example :
    (c : Committed) × (db : Db) × (commit_recommendation digest 50 plain advised ≡ ok (c, db))
    × (c.decision ≡ InvestmentDecision.kill)
    × (c.resulting_action_id ≡ none)
    × (c.created ≡ true)
commit-kill_succeeds_example =
    commit-kill_succeeds digest 1 30 "first" "aidan" failing advised kill_advice advice_runs refl
      plain refl refl refl refl venture_there no_decision

-- a recommendation to build, and its decision
abbrev encouraged : Db
encouraged = after (recommend digest 1 30 "first" "aidan" passing)

abbrev built : Db
built = after (commit_recommendation digest 50 plain encouraged)

abbrev build_commitment : Committed
build_commitment = record {
  decision_id = 52;
  decision = InvestmentDecision.build;
  resulting_action_id = none;
  created = true;
  policy_decision = none;
  policy_decision_id = none;
  approval_id = none;
}

build_runs : commit_recommendation digest 50 plain encouraged ≡ ok (build_commitment, built)
unfolding decide recommend commit_recommendation find_recommendation find gather sort_by linked any
    results_about select find_test top_ranked decide_build find_opportunity find_venture can_build
    all_states find_recommendation_key insert_recommendation build_gate has_supported_claim
    is_cleared passes_gate results_of assert_not_stale check_target convert find_decision
    insert_decision resulting_action submit_to_policy record_event canonical_payload_hash dumps
    basis_payload sorted_ids result_ids current_basis claim_state count_stance find_kill_case
    missing_dimensions missing_of
build_runs = refl

commit_recommendation-IsGated_example :
    (r : Recommendation) × (find_recommendation 50 encouraged.validation.recommendations ≡ some r)
    × IsGated r encouraged
commit_recommendation-IsGated_example =
    commit_recommendation-IsGated digest 50 plain encouraged built build_commitment build_runs refl
      refl

-- a recommendation to validate, committed with an amount, in a venture that has a budget
abbrev funded : Db
funded = record planned { accounts = granted.accounts }

abbrev advised_test : Db
advised_test = after (recommend digest 1 30 "first" "aidan" funded)

abbrev spending : Request
spending = record plain { requested_amount = some 400000 }

abbrev tested : Db
tested = after (commit_recommendation digest 50 spending advised_test)

abbrev test_commitment : Committed
test_commitment = record {
  decision_id = 54;
  decision = InvestmentDecision.validate;
  resulting_action_id = some 52;
  created = true;
  policy_decision = some PolicyOutcome.allow;
  policy_decision_id = some 56;
  approval_id = none;
}

test_runs : commit_recommendation digest 50 spending advised_test ≡ ok (test_commitment, tested)
unfolding decide recommend commit_recommendation find_recommendation find gather sort_by linked any
    results_about select top_ranked find_recommendation_key insert_recommendation record_event
    find_decision convert cheapest_test cheapest assert_not_stale create_action find_key
    validate_spend_bound commit_key check_target insert_decision intake_action resulting_action
    submit_to_policy find_account find_action find_venture open_approval canonical_payload_hash
    dumps find_switch basis_payload sorted_ids result_ids current_basis current_evaluation evaluate
    holds_reservation input_of load_policy_input persist_decision grant_budget upsert_account
    post_grant insert_entry clashes row_fits
test_runs = refl

commit_recommendation-IsFresh_example :
    (r : Recommendation) × (find_recommendation 50 advised_test.validation.recommendations ≡ some r)
    × (find_decision r.id advised_test.decision_records ≡ none)
    × (decision_for r.action_type ≡ some InvestmentDecision.validate)
    × IsFresh digest r advised_test
commit_recommendation-IsFresh_example =
    commit_recommendation-IsFresh digest 50 spending advised_test tested test_commitment test_runs
      refl

commit_recommendation-IsBounded_example :
    (r : Recommendation) × (find_recommendation 50 advised_test.validation.recommendations ≡ some r)
    × IsBounded r 400000 advised_test
commit_recommendation-IsBounded_example =
    commit_recommendation-IsBounded digest 50 spending advised_test tested test_commitment test_runs
      refl refl (omega arith)

commit_again_example :
    commit_recommendation digest 50 plain tested
    ≡ ok (record test_commitment { created = false; approval_id = none }, tested)
commit_again_example =
    commit_again digest 50 spending plain advised_test tested test_commitment test_runs

commit_recommendation-Untouched_example : Untouched advised_test tested
commit_recommendation-Untouched_example =
    commit_recommendation-Untouched digest 50 spending advised_test tested test_commitment test_runs
