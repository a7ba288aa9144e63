-- ===== src/Research/KillCases.antt =====
-- research/killcase.py: the one adversarial kill case of an opportunity, and its dimensions.
use aidan_venture_os.Base.{
  ℕ, String, Bool, true, Option, none, some, List, [], ◌∷◌, ◌==◌, ◌&&◌, not, str_eq, find, any,
  if◌then◌else◌,
}
use aidan_venture_os.Db.Research.{
  Assessment, Dimension, Disposition, KillCase, KillCaseDimension, Link, Opportunity,
}
use aidan_venture_os.Db.Tx.{
  Db, Tx, Error, gets, or_raise, modify, require, fresh, pure, record_event, ◌>>=◌, ◌>>◌,
}
use aidan_venture_os.Db.Queries.{text, ◌⇒◌&◌}
use aidan_venture_os.Json.Text.{Text}
use aidan_venture_os.Json.Dumps.{Fields, obj}
use aidan_venture_os.Json.Canonical.{canonical_payload_hash}
use aidan_venture_os.Validation.{Created, replay, id_text}
use aidan_venture_os.Research.Tables.{claim_known, insert_link}

abbrev disposition_name : Disposition → String
disposition_name Disposition.proceed_with_risks = "PROCEED_WITH_RISKS"
disposition_name Disposition.kill = "KILL"
disposition_name Disposition.insufficient_evidence = "INSUFFICIENT_EVIDENCE"

abbrev assessment_name : Assessment → String
assessment_name Assessment.low_risk = "LOW_RISK"
assessment_name Assessment.material_risk = "MATERIAL_RISK"
assessment_name Assessment.severe_risk = "SEVERE_RISK"
assessment_name Assessment.insufficient_evidence = "INSUFFICIENT_EVIDENCE"

abbrev dimension_name : Dimension → String
dimension_name Dimension.dominant_alternatives = "DOMINANT_ALTERNATIVES"
dimension_name Dimension.wtp_weakness = "WTP_WEAKNESS"
dimension_name Dimension.distribution_difficulty = "DISTRIBUTION_DIFFICULTY"
dimension_name Dimension.commoditisation = "COMMODITISATION"
dimension_name Dimension.switching_barriers = "SWITCHING_BARRIERS"
dimension_name Dimension.regulation = "REGULATION"
dimension_name Dimension.data_constraints = "DATA_CONSTRAINTS"
dimension_name Dimension.unit_economics = "UNIT_ECONOMICS"
dimension_name Dimension.support_burden = "SUPPORT_BURDEN"
dimension_name Dimension.market_size = "MARKET_SIZE"
dimension_name Dimension.technology_risk = "TECHNOLOGY_RISK"

-- `REQUIRED_DIMENSIONS`
abbrev pub required_dimensions : List Dimension
required_dimensions =
    Dimension.dominant_alternatives ∷ Dimension.wtp_weakness ∷ Dimension.distribution_difficulty
    ∷ Dimension.commoditisation ∷ Dimension.switching_barriers ∷ Dimension.regulation
    ∷ Dimension.data_constraints ∷ Dimension.unit_economics ∷ Dimension.support_burden
    ∷ Dimension.market_size ∷ Dimension.technology_risk ∷ []

abbrev pub dimension_code : Dimension → ℕ
dimension_code Dimension.dominant_alternatives = 0
dimension_code Dimension.wtp_weakness = 1
dimension_code Dimension.distribution_difficulty = 2
dimension_code Dimension.commoditisation = 3
dimension_code Dimension.switching_barriers = 4
dimension_code Dimension.regulation = 5
dimension_code Dimension.data_constraints = 6
dimension_code Dimension.unit_economics = 7
dimension_code Dimension.support_burden = 8
dimension_code Dimension.market_size = 9
dimension_code Dimension.technology_risk = 10

abbrev pub is_dimension : ℕ → Dimension → KillCaseDimension → Bool
is_dimension k d r = r.kill_case_id == k && dimension_code r.dimension == dimension_code d

abbrev pub is_kill_case_of : ℕ → KillCase → Bool
is_kill_case_of o r = r.opportunity_id == o

abbrev has_kill_case_id : ℕ → KillCase → Bool
has_kill_case_id i r = r.id == i

abbrev has_dimension_id : ℕ → KillCaseDimension → Bool
has_dimension_id i r = r.id == i

abbrev pub has_opportunity_id : ℕ → Opportunity → Bool
has_opportunity_id i r = r.id == i

unfoldable pub find_opportunity : ℕ → List Opportunity → Option Opportunity
find_opportunity i rows = find (has_opportunity_id i) rows

unfoldable pub find_kill_case : ℕ → List KillCase → Option KillCase
find_kill_case o rows = find (is_kill_case_of o) rows

unfoldable pub missing_of : ℕ → List KillCaseDimension → List Dimension → List Dimension
missing_of k rows [] = []
missing_of k rows (d ∷ ds) =
    let rest = missing_of k rows ds in if any (is_dimension k d) rows then rest else d ∷ rest

-- `missing_dimensions`
unfoldable pub missing_dimensions : ℕ → Db → List Dimension
missing_dimensions kill_case_id db =
    missing_of kill_case_id db.research.dimensions required_dimensions

abbrev set_dimension_claims : List Link → Db → Db
set_dimension_claims ls db = record db { research = record db.research { dimension_claims = ls } }

unfoldable pub link_dimension_claim : ℕ → ℕ → String → Tx Bool
link_dimension_claim dimension_id claim_id actor = do
  row ← gets (λ db. find (has_dimension_id dimension_id) db.research.dimensions)
  d ← or_raise row Error.not_found
  insert_link (λ db. db.research.dimension_claims) set_dimension_claims "dimension_id" "claim_id"
      "research.kill_case_dimension_claim_linked" claim_known d.venture_id dimension_id claim_id
      actor

module _ (sha256 : Text → ℕ) where
  abbrev disposition_digest : Disposition → ℕ
  disposition_digest d =
      canonical_payload_hash sha256 (obj ("disposition" ⇒ text (disposition_name d) & Fields.end))

  unfoldable pub insert_kill_case : Opportunity → String → Disposition → String → Tx Created
  insert_kill_case o kill_case_key disposition actor = do
    kill_case_id ← fresh
    modify (λ db. record db {
      research = record db.research {
        kill_cases =
            (record {
              id = kill_case_id;
              opportunity_id = o.id;
              venture_id = o.venture_id;
              kill_case_key = kill_case_key;
              disposition = disposition;
              content_hash = disposition_digest disposition;
            })
            ∷ db.research.kill_cases;
      };
    })
    record_event "research.kill_case_created" actor (some o.venture_id) none
        (obj ("kill_case_id" ⇒ id_text kill_case_id & "opportunity_id" ⇒ id_text o.id & Fields.end))
    pure (record { id = kill_case_id; created = true })

  unfoldable pub create_kill_case : ℕ → String → Disposition → String → Tx Created
  create_kill_case opportunity_id kill_case_key disposition actor = do
    row ← gets (λ db. find_opportunity opportunity_id db.research.opportunities)
    o ← or_raise row Error.not_found
    existing ← gets (λ db. find_kill_case opportunity_id db.research.kill_cases)
    elim existing [
      | none ↦ insert_kill_case o kill_case_key disposition actor
      | some k ↦ replay k.id (k.content_hash == disposition_digest disposition)
    ]

  abbrev assessment_digest : Assessment → String → ℕ
  assessment_digest a rationale =
      canonical_payload_hash sha256
        (obj ("assessment" ⇒ text (assessment_name a) & "rationale" ⇒ text rationale & Fields.end))

  unfoldable pub insert_dimension : KillCase → Dimension → Assessment → String → String → Tx Created
  insert_dimension k dimension assessment rationale actor = do
    dimension_id ← fresh
    modify (λ db. record db {
      research = record db.research {
        dimensions =
            (record {
              id = dimension_id;
              kill_case_id = k.id;
              venture_id = k.venture_id;
              dimension = dimension;
              assessment = assessment;
              rationale = rationale;
              content_hash = assessment_digest assessment rationale;
            })
            ∷ db.research.dimensions;
      };
    })
    record_event "research.kill_case_dimension_added" actor (some k.venture_id) none (
        obj (
          "kill_case_id"
          ⇒ id_text k.id & "dimension"
          ⇒ text (dimension_name dimension) & "assessment"
          ⇒ text (assessment_name assessment) & Fields.end))
    pure (record { id = dimension_id; created = true })

  unfoldable pub add_dimension : ℕ → Dimension → Assessment → String → String → Tx Created
  add_dimension kill_case_id dimension assessment rationale actor = do
    require (not (str_eq rationale "")) Error.value_error
    row ← gets (λ db. find (has_kill_case_id kill_case_id) db.research.kill_cases)
    k ← or_raise row Error.not_found
    existing ← gets (λ db. find (is_dimension kill_case_id dimension) db.research.dimensions)
    elim existing [
      | none ↦ insert_dimension k dimension assessment rationale actor
      | some d ↦ replay d.id (d.content_hash == assessment_digest assessment rationale)
    ]
