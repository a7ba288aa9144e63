-- ===== src/Commitment.antt =====
-- packages/core/aidan_core/commitment.py: a recommendation becomes an investment decision, and, where
-- money or the market is touched, an action request under the policy of the kernel.
pub mod Targets
pub mod Gate
pub mod Keys
pub mod Parts
pub mod Conditions
pub mod Gating
pub mod Commits
pub mod Again
pub mod Untouched
pub mod Fresh
use aidan_venture_os.Base.{
  ℕ, String, Bool, true, false, Option, none, some, List, ◌∷◌, ◌==◌, ◌&&◌, ◌||◌, not, ltb, str_eq,
  is_id, is_some, find, any, if◌then◌else◌,
}
use aidan_venture_os.Db.Rows.{
  ActionRequest, DecisionRecord, InvestmentDecision, PolicyDecision, PolicyOutcome,
}
use aidan_venture_os.Db.Validation.{NextAction, Recommendation}
use aidan_venture_os.Db.Tx.{
  Db, Tx, Error, pure, raise, gets, or_raise, modify, require, fresh, record_event, ◌>>=◌, ◌>>◌,
}
use aidan_venture_os.Db.Queries.{has_venture_id, text, ◌⇒◌&◌}
use aidan_venture_os.Json.Text.{Text}
use aidan_venture_os.Json.Dumps.{Value, Fields, obj, null}
use aidan_venture_os.Policy.{Decimal, current_evaluation, persist_decision}
use aidan_venture_os.Actions.{Submission, IntakeResult, create_action, find_key, row_fits}
use aidan_venture_os.Ventures.{decision_name}
use aidan_venture_os.Execution.Claim.{open_approval}
use aidan_venture_os.Validation.{id_text}
use aidan_venture_os.NextAction.{current_basis, find_recommendation}
use aidan_venture_os.Commitment.Targets.{
  Request, Committed, decision_for, default_action_type, action_type_or, same_decision,
  is_compatible, amount_of, is_consequential, is_passive, needs_action,
}
use aidan_venture_os.Commitment.Gate.{build_gate, validate_spend_bound}
use aidan_venture_os.Commitment.Keys.{commit_key, rationale}

-- the checks that hang on the decision: BUILD's gate, and VALIDATE's bound
unfoldable pub check_target : InvestmentDecision → Recommendation → Request → Tx (Unit {0})
check_target InvestmentDecision.build r q = build_gate r.venture_id r.opportunity_id
check_target InvestmentDecision.validate r q =
    if is_consequential q
    then validate_spend_bound r.venture_id r.selected_test_id (amount_of q)
    else pure tt
check_target _ r q = pure tt

abbrev pub is_decision_from : ℕ → DecisionRecord → Bool
is_decision_from i d = is_id d.source_recommendation_id i

unfoldable pub find_decision : ℕ → List DecisionRecord → Option DecisionRecord
find_decision i rows = find (is_decision_from i) rows

abbrev pub is_policy_of : ℕ → PolicyDecision → Bool
is_policy_of a p = p.action_id == a

-- `_existing_policy_outcome`: the newest decision of the action
unfoldable pub existing_policy : Option ℕ → List PolicyDecision → Option PolicyDecision
existing_policy none rows = none
existing_policy (some a) rows = find (is_policy_of a) rows

abbrev pub policy_outcome : Option PolicyDecision → Option PolicyOutcome
policy_outcome none = none
policy_outcome (some p) = some p.decision

abbrev pub policy_id : Option PolicyDecision → Option ℕ
policy_id none = none
policy_id (some p) = some p.id

abbrev returned : DecisionRecord → Option PolicyDecision → Committed
returned d p = record {
  decision_id = d.id;
  decision = d.decision;
  resulting_action_id = d.resulting_action_id;
  created = false;
  policy_decision = policy_outcome p;
  policy_decision_id = policy_id p;
  approval_id = none;
}

-- the decision of an earlier call
unfoldable pub return_decision : DecisionRecord → Tx Committed
return_decision d = do
  p ← gets (λ db. existing_policy d.resulting_action_id db.policy_decisions)
  pure (returned d p)

abbrev optional_id : Option ℕ → Value
optional_id none = null
optional_id (some i) = id_text i

abbrev test_text : Option ℕ → Value
test_text none = text "None"
test_text (some i) = id_text i

-- the payload of the resulting action
abbrev action_payload : Recommendation → InvestmentDecision → Value
action_payload r target = obj (
    "recommendation_id"
    ⇒ id_text r.id & "opportunity_id"
    ⇒ id_text r.opportunity_id & "decision"
    ⇒ text (decision_name target) & (elim target [
      | InvestmentDecision.validate ↦
          "validation_test_id" ⇒ test_text r.selected_test_id & Fields.end
      | _ ↦ Fields.end
    ]))

abbrev pub new_decision : Recommendation → InvestmentDecision → Option ℕ → ℕ → DecisionRecord
new_decision r target action_id i = record {
  id = i;
  venture_id = r.venture_id;
  decision = target;
  rationale_ref = some (rationale r.id);
  resulting_action_id = action_id;
  source_recommendation_id = some r.id;
}

-- INSERT INTO investment_decision_record, and its event
unfoldable pub insert_decision : Recommendation → InvestmentDecision → Option ℕ → String → Tx ℕ
insert_decision r target action_id actor = do
  known ← gets (λ db. any (has_venture_id r.venture_id) db.ventures)
  require known Error.integrity_error
  decision_id ← fresh
  modify (λ db. record db {
    decision_records = new_decision r target action_id decision_id ∷ db.decision_records;
  })
  record_event "investment_decision.committed" actor (some r.venture_id) action_id (
      obj (
        "decision"
        ⇒ text (decision_name target) & "source_recommendation_id"
        ⇒ id_text r.id & "resulting_action_id"
        ⇒ optional_id action_id & Fields.end))
  pure decision_id

-- the default life of an approval, in microseconds
abbrev pub approval_ttl : ℕ
approval_ttl = 3600000000

module _ (sha256 : Text → ℕ) where
  -- `_assert_not_stale`
  unfoldable pub assert_not_stale : Recommendation → Tx (Unit {0})
  assert_not_stale r = do
    basis ← current_basis sha256 r.venture_id r.opportunity_id
    require (basis.1 == r.input_hash) Error.stale_recommendation

  -- `_intake_action`: an action with the key is taken as it is
  unfoldable pub intake_action : Submission → Tx ℕ
  intake_action s = do
    require (row_fits s) Error.data_error
    row ← gets (λ db. find_key s.venture_id s.idempotency_key db.actions)
    elim row [ some a ↦ pure a.id | none ↦ do made ← create_action sha256 s; pure made.action_id ]

  abbrev pub submission : Recommendation → InvestmentDecision → Request → Submission
  submission r target q = record {
    venture_id = r.venture_id;
    action_type = action_type_or q.action_type (default_action_type target);
    actor = q.actor;
    idempotency_key = commit_key r.id;
    payload = some (action_payload r target);
    required_autonomy = q.required_autonomy;
    requested_amount = amount_of q;
    requested_currency = q.requested_currency;
  }

  unfoldable pub resulting_action : Recommendation → InvestmentDecision → Request → Tx (Option ℕ)
  resulting_action r target q =
      if needs_action target (is_consequential q)
      then (do a ← intake_action (submission r target q); pure (some a))
      else pure none

  -- the submission of the action to the policy of the kernel
  unfoldable pub submit_to_policy : ℕ → ℕ → InvestmentDecision → Decimal → Option ℕ → Tx Committed
  submit_to_policy venture_id decision_id target threshold none = pure (record {
    decision_id = decision_id;
    decision = target;
    resulting_action_id = none;
    created = true;
    policy_decision = none;
    policy_decision_id = none;
    approval_id = none;
  })
  submit_to_policy venture_id decision_id target threshold (some a) = do
    found ← current_evaluation sha256 a threshold
    policy_decision_id ← persist_decision a venture_id found.0 found.2
    approval_id ← open_approval sha256 a policy_decision_id found.0 approval_ttl
    pure (record {
      decision_id = decision_id;
      decision = target;
      resulting_action_id = some a;
      created = true;
      policy_decision = some found.0.decision;
      policy_decision_id = some policy_decision_id;
      approval_id = approval_id;
    })

  -- a recommendation without a decision
  unfoldable pub convert : Recommendation → Request → Tx Committed
  convert r q = do
    target ← or_raise (decision_for r.action_type) Error.recommendation_not_convertible
    require (is_compatible q.decision target) Error.recommendation_not_convertible
    assert_not_stale r
    require (not (is_consequential q && is_passive target)) Error.consequential_spend
    check_target target r q
    action_id ← resulting_action r target q
    decision_id ← insert_decision r target action_id q.actor
    submit_to_policy r.venture_id decision_id target q.approval_threshold action_id

  unfoldable pub commit_recommendation : ℕ → Request → Tx Committed
  commit_recommendation recommendation_id q = do
    row ← gets (λ db. find_recommendation recommendation_id db.validation.recommendations)
    r ← or_raise row Error.not_found
    existing ← gets (λ db. find_decision r.id db.decision_records)
    elim existing [ some d ↦ return_decision d | none ↦ convert r q ]
