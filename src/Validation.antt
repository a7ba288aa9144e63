-- ===== src/Validation.antt =====
-- packages/core/aidan_core/validation.py: hypotheses, precommitted tests and their results.
pub mod Criteria
pub mod Outcomes
pub mod History
use aidan_venture_os.Base.{
  ℕ, ◌+◌, String, Bool, true, false, Option, none, some, List, ◌∷◌, ◌==◌, ◌&&◌, not, str_eq, is_id,
  find, any, update, is_some, if◌then◌else◌,
}
use aidan_venture_os.Db.Rows.{ActionRequest}
use aidan_venture_os.Db.Research.{Opportunity, Assumption, Observation}
use aidan_venture_os.Db.Validation.{
  Hypothesis, Definition, ValidationTest, ValidationResult, ValidationOutcome, ValidationTables,
  WtpModality, MeasurementKind,
}
use aidan_venture_os.Db.Tx.{
  Db, Tx, Error, pure, raise, gets, or_raise, modify, require, fresh, record_event, ◌>>=◌, ◌>>◌,
}
use aidan_venture_os.Db.Queries.{text, ◌⇒◌&◌}
use aidan_venture_os.Json.Text.{Text, show_ℕ}
use aidan_venture_os.Json.Dumps.{Value, Fields, obj, str}
use aidan_venture_os.Json.Canonical.{or_empty, canonical_payload_hash}
use aidan_venture_os.Validation.Criteria.{
  TestInput, definition_of, definition_value, evaluate_outcome, outcome_name,
}

-- an identifier, and whether its row is new: the result records of this module and of research
pub record Created : Type 0 where
  pub id : ℕ
  pub created : Bool

abbrev pub id_text : ℕ → Value
id_text i = str (show_ℕ i)

-- the row with a key is there: its content must be the same
abbrev pub replay : ℕ → Bool → Tx Created
replay i same =
    if same then pure (record { id = i; created = false }) else raise Error.idempotency_conflict

-- the composite foreign keys (id, venture_id)
abbrev pub is_opportunity_of : ℕ → ℕ → Opportunity → Bool
is_opportunity_of i v r = r.id == i && r.venture_id == v

abbrev pub is_assumption_of : ℕ → ℕ → Assumption → Bool
is_assumption_of i v r = r.id == i && r.venture_id == v

abbrev is_hypothesis_of : ℕ → ℕ → Hypothesis → Bool
is_hypothesis_of i v r = r.id == i && r.venture_id == v

abbrev pub is_observation_of : ℕ → ℕ → Observation → Bool
is_observation_of i v r = r.evidence_id == i && r.venture_id == v

abbrev is_action_of : ℕ → ℕ → ActionRequest → Bool
is_action_of i v r = r.id == i && r.venture_id == v

abbrev assumption_known : Option ℕ → ℕ → Db → Bool
assumption_known none v db = true
assumption_known (some i) v db = any (is_assumption_of i v) db.research.assumptions

abbrev observation_known : Option ℕ → ℕ → Db → Bool
observation_known none v db = true
observation_known (some i) v db = any (is_observation_of i v) db.research.observations

abbrev has_hypothesis_key : ℕ → String → Hypothesis → Bool
has_hypothesis_key v k r = r.venture_id == v && str_eq r.hypothesis_key k

abbrev has_test_key : ℕ → String → ValidationTest → Bool
has_test_key v k r = r.venture_id == v && str_eq r.test_key k

abbrev pub has_test_id : ℕ → ValidationTest → Bool
has_test_id i r = r.id == i

unfoldable pub find_test : ℕ → List ValidationTest → Option ValidationTest
find_test i rows = find (has_test_id i) rows

abbrev pub has_result_key : ℕ → String → ValidationResult → Bool
has_result_key v k r = r.venture_id == v && str_eq r.result_key k

unfoldable pub find_result_key : ℕ → String → List ValidationResult → Option ValidationResult
find_result_key v k rows = find (has_result_key v k) rows

-- the parameters of `create_hypothesis` and `record_result`
pub record HypothesisInput : Type 0 where
  pub opportunity_id : ℕ
  pub statement : String
  pub hypothesis_key : String
  pub assumption_id : Option ℕ
  pub critical_unknown : Option String

pub record ResultInput : Type 0 where
  pub test_id : ℕ
  pub result_key : String
  pub observed_value : Option Value
  pub interpretation : Option String
  pub wtp_modality : Option WtpModality
  pub measurement_kind : Option MeasurementKind
  pub observation_id : Option ℕ
  pub external_result_ref : Option String

-- the dataclass ValidationResult
pub record Recorded : Type 0 where
  pub result_id : ℕ
  pub outcome : ValidationOutcome
  pub created : Bool

module _ (sha256 : Text → ℕ) where
  abbrev statement_digest : HypothesisInput → ℕ
  statement_digest h =
      canonical_payload_hash sha256 (
        obj
          ("statement" ⇒ text h.statement & "opportunity" ⇒ id_text h.opportunity_id & Fields.end))

  unfoldable pub insert_hypothesis : ℕ → HypothesisInput → String → Tx Created
  insert_hypothesis venture_id h actor = do
    known ← gets (λ db.
        any (is_opportunity_of h.opportunity_id venture_id) db.research.opportunities
        && assumption_known h.assumption_id venture_id db)
    require known Error.integrity_error
    hypothesis_id ← fresh
    modify (λ db. record db {
      validation = record db.validation {
        hypotheses =
            (record {
              id = hypothesis_id;
              venture_id = venture_id;
              hypothesis_key = h.hypothesis_key;
              opportunity_id = h.opportunity_id;
              assumption_id = h.assumption_id;
              statement = h.statement;
              statement_hash = statement_digest h;
              critical_unknown = h.critical_unknown;
            })
            ∷ db.validation.hypotheses;
      };
    })
    record_event "validation.hypothesis_created" actor (some venture_id) none (
        obj (
          "hypothesis_id"
          ⇒ id_text hypothesis_id & "opportunity_id"
          ⇒ id_text h.opportunity_id & Fields.end))
    pure (record { id = hypothesis_id; created = true })

  unfoldable pub create_hypothesis : ℕ → HypothesisInput → String → Tx Created
  create_hypothesis venture_id h actor = do
    require (not (str_eq h.statement "")) Error.value_error
    require (not (str_eq h.hypothesis_key "")) Error.value_error
    row ←
        gets (λ db. find (has_hypothesis_key venture_id h.hypothesis_key) db.validation.hypotheses)
    elim row [
      | none ↦ insert_hypothesis venture_id h actor
      | some r ↦ replay r.id (r.statement_hash == statement_digest h)
    ]

  abbrev pub definition_digest : TestInput → ℕ
  definition_digest t = canonical_payload_hash sha256 (definition_value t)

  abbrev pub new_test : ℕ → String → TestInput → ℕ → ValidationTest
  new_test venture_id test_key t i = record {
    id = i;
    venture_id = venture_id;
    test_key = test_key;
    definition = definition_of t;
    definition_hash = definition_digest t;
    action_id = none;
  }

  unfoldable pub insert_test : ℕ → String → TestInput → String → Tx Created
  insert_test venture_id test_key t actor = do
    known ← gets (λ db. any (is_hypothesis_of t.hypothesis_id venture_id) db.validation.hypotheses)
    require known Error.integrity_error
    test_id ← fresh
    modify (λ db. record db {
      validation = record db.validation {
        tests = new_test venture_id test_key t test_id ∷ db.validation.tests;
      };
    })
    record_event "validation.test_defined" actor (some venture_id) none
        (obj ("test_id" ⇒ id_text test_id & "hypothesis_id" ⇒ id_text t.hypothesis_id & Fields.end))
    pure (record { id = test_id; created = true })

  unfoldable pub create_test : ℕ → String → TestInput → String → Tx Created
  create_test venture_id test_key t actor = do
    require (not (str_eq t.success_criterion "")) Error.value_error
    require (not (str_eq t.evidence_required "")) Error.value_error
    row ← gets (λ db. find (has_test_key venture_id test_key) db.validation.tests)
    elim row [
      | none ↦ insert_test venture_id test_key t actor
      | some r ↦ replay r.id (r.definition_hash == definition_digest t)
    ]

  abbrev pub observed_digest : ResultInput → ℕ
  observed_digest r = canonical_payload_hash sha256 (or_empty r.observed_value)

  abbrev pub new_result : ValidationTest → ResultInput → ValidationOutcome → ℕ → ValidationResult
  new_result t r outcome i = record {
    id = i;
    venture_id = t.venture_id;
    test_id = r.test_id;
    result_key = r.result_key;
    observed_value = or_empty r.observed_value;
    observed_hash = observed_digest r;
    interpretation = r.interpretation;
    outcome = outcome;
    wtp_modality = r.wtp_modality;
    measurement_kind = r.measurement_kind;
    observation_id = r.observation_id;
    external_result_ref = r.external_result_ref;
  }

  unfoldable pub insert_result :
      ValidationTest → ResultInput → ValidationOutcome → String → Tx Recorded
  insert_result t r outcome actor = do
    known ← gets (observation_known r.observation_id t.venture_id)
    require known Error.integrity_error
    result_id ← fresh
    modify (λ db. record db {
      validation = record db.validation {
        validation_results = new_result t r outcome result_id ∷ db.validation.validation_results;
      };
    })
    record_event "validation.result_recorded" actor (some t.venture_id) none (
        obj (
          "result_id"
          ⇒ id_text result_id & "validation_test_id"
          ⇒ id_text r.test_id & "outcome"
          ⇒ text (outcome_name outcome) & Fields.end))
    pure (record { result_id = result_id; outcome = outcome; created = true })

  -- the outcome is derived from the test that the call names, also for a result that is there
  unfoldable pub return_result : ResultInput → ValidationOutcome → ValidationResult → Tx Recorded
  return_result r outcome row =
      if row.observed_hash == observed_digest r
      then pure (record { result_id = row.id; outcome = outcome; created = false })
      else raise Error.idempotency_conflict

  unfoldable pub record_result : ResultInput → String → Tx Recorded
  record_result r actor = do
    trow ← gets (λ db. find_test r.test_id db.validation.tests)
    t ← or_raise trow Error.not_found
    outcome ← or_raise (evaluate_outcome t.definition (or_empty r.observed_value)) Error.type_error
    row ← gets (λ db. find_result_key t.venture_id r.result_key db.validation.validation_results)
    elim row [
      | none ↦ insert_result t r outcome actor
      | some existing ↦ return_result r outcome existing
    ]

-- the set-once link, from the test of the existing one on
unfoldable pub set_action : ℕ → ValidationTest → ℕ → String → Tx Bool
set_action test_id t action_id actor = elim t.action_id [
  | some existing ↦ if existing == action_id then pure false else raise Error.idempotency_conflict
  | none ↦ do
    known ← gets (λ db. any (is_action_of action_id t.venture_id) db.actions)
    require known Error.integrity_error
    modify (λ db. record db {
      validation = record db.validation {
        tests =
            update (has_test_id test_id)
              (λ (r : ValidationTest). record r { action_id = some action_id }) db.validation.tests;
      };
    })
    record_event "validation.test_action_linked" actor (some t.venture_id) none
        (obj ("test_id" ⇒ id_text test_id & "action_request_id" ⇒ id_text action_id & Fields.end))
    pure true
]

abbrev has_result_id : ℕ → ValidationResult → Bool
has_result_id i r = r.id == i

unfoldable pub get_result : ℕ → Db → Option ValidationResult
get_result result_id db = find (has_result_id result_id) db.validation.validation_results

unfoldable pub link_action_request : ℕ → ℕ → String → Tx Bool
link_action_request test_id action_id actor = do
  row ← gets (λ db. find_test test_id db.validation.tests)
  t ← or_raise row Error.not_found
  set_action test_id t action_id actor
