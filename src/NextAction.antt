-- ===== src/NextAction.antt =====
-- packages/core/aidan_core/nextaction.py: the choice of the next action for an opportunity.
pub mod Gather
pub mod Basis
pub mod Choices
pub mod Freshness
use aidan_venture_os.Base.{
  ℕ, String, Bool, true, false, Option, none, some, List, [], ◌∷◌, ◌++◌, ◌==◌, ◌&&◌, not, str_eq,
  find, any, select, map, if◌then◌else◌,
}
use aidan_venture_os.Db.Rows.{Venture, LifecycleState}
use aidan_venture_os.Db.Research.{Opportunity, OpportunityStatus, Link}
use aidan_venture_os.Db.Validation.{NextAction, ReasonCode, Recommendation, ValidationTables}
use aidan_venture_os.Db.Tx.{
  Db, Tx, Error, pure, raise, gets, or_raise, modify, require, fresh, record_event, ◌>>=◌, ◌>>◌,
}
use aidan_venture_os.Db.Queries.{find_venture, text, ◌⇒◌&◌}
use aidan_venture_os.Json.Text.{Text}
use aidan_venture_os.Json.Dumps.{Value, Fields, obj}
use aidan_venture_os.Json.Canonical.{canonical_payload_hash}
use aidan_venture_os.Validation.{id_text, is_opportunity_of}
use aidan_venture_os.Research.KillCases.{find_opportunity}
use aidan_venture_os.Research.Opportunities.{same_state}
use aidan_venture_os.NextAction.Gather.{
  State, gather, has_fail, has_pass, is_unresolved, is_contradictory, is_settled_key, all_states,
  top_ranked, cheapest_test, result_ids, assumption_ids, MarketBasis, market_basis,
}
use aidan_venture_os.NextAction.Basis.{Choice, basis_payload, action_name, reason_name}

-- what every return of `_decide` shares: the assumptions and results that were considered
abbrev choice : NextAction → ReasonCode → Option ℕ → List ℕ → List State → Choice
choice action reason test tests states = record {
  action = action;
  reason = reason;
  selected_test = test;
  considered_assumptions = assumption_ids states;
  considered_tests = tests;
  considered_results = result_ids states;
  considered_observations = [];
  considered_completions = [];
}

-- VALIDATE with the cheapest test of the assumption, or the action without one
abbrev pub validate_or : NextAction → ReasonCode → ReasonCode → List State → Option ℕ → Choice
validate_or action with_test without states none = choice action without none [] states
validate_or action with_test without states (some t) =
    choice NextAction.validate with_test (some t) (t ∷ []) states

abbrev is_operating : LifecycleState → Bool
is_operating LifecycleState.operating = true
is_operating _ = false

abbrev is_any : List State → Bool
is_any [] = false
is_any (s ∷ ss) = true

-- the condition of a BUILD
unfoldable pub can_build : LifecycleState → OpportunityStatus → List State → Bool
can_build lifecycle status states =
    not (is_operating lifecycle)
    && (same_state status OpportunityStatus.candidate
        && (any has_pass states && (all_states is_settled_key states && is_any states)))

abbrev pub market_or_hold : List State → Option MarketBasis → Choice
market_or_hold states none =
    choice NextAction.hold ReasonCode.no_high_value_action_now none [] states
market_or_hold states (some m) =
    record (choice NextAction.market ReasonCode.acquisition_unresolved none [] states) {
      considered_observations = m.observation_ids;
      considered_completions = m.completion_ids;
    }

-- steps 4 and 5
unfoldable pub decide_build : ℕ → ℕ → List State → Tx Choice
decide_build venture_id opportunity_id states = do
  orow ← gets (λ db. find_opportunity opportunity_id db.research.opportunities)
  o ← or_raise orow Error.not_found
  vrow ← gets (λ db. find_venture venture_id db.ventures)
  v ← or_raise vrow Error.type_error
  market ← gets (market_basis venture_id opportunity_id)
  if can_build v.lifecycle_state o.status states
      then pure (choice NextAction.build ReasonCode.build_consideration_ready none [] states)
      else pure (market_or_hold states market)

-- `_decide`
unfoldable pub decide : ℕ → ℕ → Tx Choice
decide venture_id opportunity_id = do
  states ← gets (gather venture_id opportunity_id)
  elim (find has_fail states) [
    | some s ↦ pure (choice NextAction.kill ReasonCode.kill_criterion_triggered none [] states)
    | none ↦ elim (top_ranked (select is_unresolved states)) [
      | some s ↦ do
        test ← gets (cheapest_test venture_id s.assumption.id)
        pure (
            validate_or NextAction.research_more ReasonCode.critical_assumption_unresolved
              ReasonCode.insufficient_evidence states test)
      | none ↦ elim (find is_contradictory states) [
        | some s ↦ do
          test ← gets (cheapest_test venture_id s.assumption.id)
          pure (
              validate_or NextAction.hold ReasonCode.validation_contradictory
                ReasonCode.validation_contradictory states test)
        | none ↦ decide_build venture_id opportunity_id states
      ]
    ]
  ]

-- the returned Recommendation
pub record Recommended : Type 0 where
  pub recommendation_id : ℕ
  pub action_type : NextAction
  pub reason_code : ReasonCode
  pub created : Bool

abbrev has_recommendation_key : ℕ → String → Recommendation → Bool
has_recommendation_key v k r = r.venture_id == v && str_eq r.recommendation_key k

unfoldable pub find_recommendation_key : ℕ → String → List Recommendation → Option Recommendation
find_recommendation_key v k rows = find (has_recommendation_key v k) rows

abbrev has_recommendation_id : ℕ → Recommendation → Bool
has_recommendation_id i r = r.id == i

unfoldable pub find_recommendation : ℕ → List Recommendation → Option Recommendation
find_recommendation i rows = find (has_recommendation_id i) rows

unfoldable pub get_recommendation : ℕ → Db → Option Recommendation
unfolding find_recommendation
get_recommendation i db = find_recommendation i db.validation.recommendations

abbrev is_recommendation_of : ℕ → Recommendation → Bool
is_recommendation_of o r = r.opportunity_id == o

-- ORDER BY created_at DESC LIMIT 1
unfoldable pub latest_recommendation : ℕ → Db → Option Recommendation
latest_recommendation o db = find (is_recommendation_of o) db.validation.recommendations

abbrev links : ℕ → ℕ → List ℕ → List Link
links i v ids = map (λ x. record { left_id = i; right_id = x; venture_id = v }) ids

module _ (sha256 : Text → ℕ) where
  abbrev pub basis_hash : ℕ → Choice → ℕ
  basis_hash opportunity_id c = canonical_payload_hash sha256 (basis_payload opportunity_id c)

  -- `current_basis`: the choice now, and its hash
  unfoldable pub current_basis : ℕ → ℕ → Tx (Choice × ℕ)
  current_basis venture_id opportunity_id = do
    c ← decide venture_id opportunity_id
    pure (c, basis_hash opportunity_id c)

  abbrev pub new_recommendation : ℕ → ℕ → ℕ → String → Choice → Recommendation
  new_recommendation i venture_id opportunity_id key c = record {
    id = i;
    venture_id = venture_id;
    recommendation_key = key;
    opportunity_id = opportunity_id;
    action_type = c.action;
    reason_code = c.reason;
    input_hash = basis_hash opportunity_id c;
    selected_test_id = c.selected_test;
  }

  unfoldable pub insert_recommendation : ℕ → ℕ → String → Choice → String → Tx Recommended
  insert_recommendation venture_id opportunity_id key c actor = do
    known ← gets (λ db. any (is_opportunity_of opportunity_id venture_id) db.research.opportunities)
    require known Error.integrity_error
    i ← fresh
    modify (λ db. record db {
      validation = record db.validation {
        recommendations =
            new_recommendation i venture_id opportunity_id key c ∷ db.validation.recommendations;
        recommendation_assumptions =
            links i venture_id c.considered_assumptions ++ db.validation.recommendation_assumptions;
        recommendation_tests =
            links i venture_id c.considered_tests ++ db.validation.recommendation_tests;
        recommendation_results =
            links i venture_id c.considered_results ++ db.validation.recommendation_results;
        recommendation_observations =
            links i venture_id c.considered_observations
            ++ db.validation.recommendation_observations;
        recommendation_completions =
            links i venture_id c.considered_completions ++ db.validation.recommendation_completions;
      };
    })
    record_event "nextaction.recommended" actor (some venture_id) none (
        obj (
          "recommendation_id"
          ⇒ id_text i & "opportunity_id"
          ⇒ id_text opportunity_id & "action_type"
          ⇒ text (action_name c.action) & "reason"
          ⇒ text (reason_name c.reason) & Fields.end))
    pure (record {
      recommendation_id = i;
      action_type = c.action;
      reason_code = c.reason;
      created = true;
    })

  unfoldable pub return_recommendation : Recommendation → ℕ → Tx Recommended
  return_recommendation r hash =
      if r.input_hash == hash
      then pure (record {
        recommendation_id = r.id;
        action_type = r.action_type;
        reason_code = r.reason_code;
        created = false;
      })
      else raise Error.idempotency_conflict

  unfoldable pub recommend : ℕ → ℕ → String → String → Tx Recommended
  recommend venture_id opportunity_id key actor = do
    require (not (str_eq key "")) Error.value_error
    c ← decide venture_id opportunity_id
    row ← gets (λ db. find_recommendation_key venture_id key db.validation.recommendations)
    elim row [
      | none ↦ insert_recommendation venture_id opportunity_id key c actor
      | some r ↦ return_recommendation r (basis_hash opportunity_id c)
    ]
