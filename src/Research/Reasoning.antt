-- ===== src/Research/Reasoning.antt =====
-- research/assumptions.py and research/interpretations.py: propositions under uncertainty, and
-- attributed reasoning over claims. A category outside its enumeration is refused before.
use aidan_venture_os.Base.{
  ℕ, String, Bool, true, none, some, List, ◌∷◌, ◌==◌, ◌&&◌, not, str_eq, find,
}
use aidan_venture_os.Db.Research.{Assumption, Confidence, Importance, Interpretation, Link}
use aidan_venture_os.Db.Tx.{
  Db, Tx, Error, gets, or_raise, modify, require, fresh, pure, record_event, ◌>>=◌, ◌>>◌,
}
use aidan_venture_os.Db.Queries.{text, ◌⇒◌&◌}
use aidan_venture_os.Json.Text.{Text}
use aidan_venture_os.Json.Dumps.{Fields, obj}
use aidan_venture_os.Json.Canonical.{canonical_payload_hash}
use aidan_venture_os.Validation.{Created, replay, id_text}
use aidan_venture_os.Research.Tables.{
  claim_known, interpretation_known, insert_link, venture_exists,
}

abbrev importance_name : Importance → String
importance_name Importance.low = "LOW"
importance_name Importance.medium = "MEDIUM"
importance_name Importance.high = "HIGH"
importance_name Importance.critical = "CRITICAL"

abbrev confidence_name : Confidence → String
confidence_name Confidence.low = "LOW"
confidence_name Confidence.medium = "MEDIUM"
confidence_name Confidence.high = "HIGH"

-- the parameters of `create_assumption`
pub record AssumptionInput : Type 0 where
  pub proposition : String
  pub assumption_key : String
  pub importance : Importance
  pub confidence : Confidence
  pub consequence_if_false : String
  pub cheapest_test : String

abbrev has_assumption_key : ℕ → String → Assumption → Bool
has_assumption_key v k r = r.venture_id == v && str_eq r.assumption_key k

abbrev has_assumption_id : ℕ → Assumption → Bool
has_assumption_id i r = r.id == i

abbrev has_interpretation_key : ℕ → String → Interpretation → Bool
has_interpretation_key v k r = r.venture_id == v && str_eq r.interpretation_key k

abbrev has_interpretation_id : ℕ → Interpretation → Bool
has_interpretation_id i r = r.id == i

abbrev set_assumption_claims : List Link → Db → Db
set_assumption_claims ls db = record db { research = record db.research { assumption_claims = ls } }

abbrev set_assumption_interpretations : List Link → Db → Db
set_assumption_interpretations ls db = record db {
  research = record db.research { assumption_interpretations = ls };
}

abbrev set_interpretation_claims : List Link → Db → Db
set_interpretation_claims ls db = record db {
  research = record db.research { interpretation_claims = ls };
}

-- assumptions.py, `link_claim` and `link_interpretation` (both `_link`)
unfoldable pub link_assumption_claim : ℕ → ℕ → String → Tx Bool
link_assumption_claim assumption_id claim_id actor = do
  row ← gets (λ db. find (has_assumption_id assumption_id) db.research.assumptions)
  a ← or_raise row Error.not_found
  insert_link (λ db. db.research.assumption_claims) set_assumption_claims "assumption_id" "claim_id"
      "research.assumption_claim_linked" claim_known a.venture_id assumption_id claim_id actor

unfoldable pub link_assumption_interpretation : ℕ → ℕ → String → Tx Bool
link_assumption_interpretation assumption_id interpretation_id actor = do
  row ← gets (λ db. find (has_assumption_id assumption_id) db.research.assumptions)
  a ← or_raise row Error.not_found
  insert_link (λ db. db.research.assumption_interpretations) set_assumption_interpretations
      "assumption_id" "interpretation_id" "research.assumption_interpretation_linked"
      interpretation_known a.venture_id assumption_id interpretation_id actor

-- interpretations.py, `link_claim`
unfoldable pub link_interpretation_claim : ℕ → ℕ → String → Tx Bool
link_interpretation_claim interpretation_id claim_id actor = do
  row ← gets (λ db. find (has_interpretation_id interpretation_id) db.research.interpretations)
  r ← or_raise row Error.not_found
  insert_link (λ db. db.research.interpretation_claims) set_interpretation_claims
      "interpretation_id" "claim_id" "research.interpretation_claim_linked" claim_known r.venture_id
      interpretation_id claim_id actor

module _ (sha256 : Text → ℕ) where
  abbrev proposition_digest : String → ℕ
  proposition_digest s = canonical_payload_hash sha256 (obj ("proposition" ⇒ text s & Fields.end))

  unfoldable pub insert_assumption : ℕ → AssumptionInput → String → Tx Created
  insert_assumption venture_id a actor = do
    known ← gets (venture_exists venture_id)
    require known Error.integrity_error
    assumption_id ← fresh
    modify (λ db. record db {
      research = record db.research {
        assumptions =
            (record {
              id = assumption_id;
              venture_id = venture_id;
              assumption_key = a.assumption_key;
              proposition = a.proposition;
              proposition_hash = proposition_digest a.proposition;
              importance = a.importance;
              confidence = a.confidence;
              consequence_if_false = a.consequence_if_false;
              cheapest_test = a.cheapest_test;
            })
            ∷ db.research.assumptions;
      };
    })
    record_event "research.assumption_created" actor (some venture_id) none (
        obj (
          "assumption_id"
          ⇒ id_text assumption_id & "importance"
          ⇒ text (importance_name a.importance) & "confidence"
          ⇒ text (confidence_name a.confidence) & Fields.end))
    pure (record { id = assumption_id; created = true })

  unfoldable pub create_assumption : ℕ → AssumptionInput → String → Tx Created
  create_assumption venture_id a actor = do
    require (not (str_eq a.proposition "")) Error.value_error
    require (not (str_eq a.assumption_key "")) Error.value_error
    require (not (str_eq a.consequence_if_false "")) Error.value_error
    require (not (str_eq a.cheapest_test "")) Error.value_error
    row ← gets (λ db. find (has_assumption_key venture_id a.assumption_key) db.research.assumptions)
    elim row [
      | none ↦ insert_assumption venture_id a actor
      | some r ↦ replay r.id (r.proposition_hash == proposition_digest a.proposition)
    ]

  abbrev interpretation_digest : String → ℕ
  interpretation_digest s = canonical_payload_hash sha256 (obj ("statement" ⇒ text s & Fields.end))

  unfoldable pub insert_interpretation : ℕ → String → String → String → String → Tx Created
  insert_interpretation venture_id statement interpretation_key produced_by actor = do
    known ← gets (venture_exists venture_id)
    require known Error.integrity_error
    interpretation_id ← fresh
    modify (λ db. record db {
      research = record db.research {
        interpretations =
            (record {
              id = interpretation_id;
              venture_id = venture_id;
              interpretation_key = interpretation_key;
              statement = statement;
              statement_hash = interpretation_digest statement;
              produced_by = produced_by;
            })
            ∷ db.research.interpretations;
      };
    })
    record_event "research.interpretation_created" actor (some venture_id) none
        (obj ("interpretation_id" ⇒ id_text interpretation_id & Fields.end))
    pure (record { id = interpretation_id; created = true })

  unfoldable pub create_interpretation : ℕ → String → String → String → String → Tx Created
  create_interpretation venture_id statement interpretation_key produced_by actor = do
    require (not (str_eq statement "")) Error.value_error
    require (not (str_eq interpretation_key "")) Error.value_error
    require (not (str_eq produced_by "")) Error.value_error
    row ← gets (λ db.
        find (has_interpretation_key venture_id interpretation_key) db.research.interpretations)
    elim row [
      | none ↦ insert_interpretation venture_id statement interpretation_key produced_by actor
      | some r ↦ replay r.id (r.statement_hash == interpretation_digest statement)
    ]
