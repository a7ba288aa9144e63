-- ===== src/Research/Opportunities.antt =====
-- research/opportunities.py: opportunities and their guarded status.
use aidan_venture_os.Base.{
  ℕ, String, Bool, true, false, Option, none, some, List, [], ◌∷◌, ◌==◌, ◌&&◌, ◌||◌, not, str_eq,
  find, any, update, if◌then◌else◌,
}
use aidan_venture_os.Db.Research.{
  KillCase, Link, Opportunity, OpportunityStatus, ResearchOutcome, ResearchResult,
}
use aidan_venture_os.Db.Tx.{
  Db, Tx, Error, gets, or_raise, modify, require, fresh, pure, record_event, ◌>>=◌, ◌>>◌,
}
use aidan_venture_os.Db.Queries.{text, ◌⇒◌&◌}
use aidan_venture_os.Json.Text.{Text}
use aidan_venture_os.Json.Dumps.{Value, Fields, obj}
use aidan_venture_os.Json.Canonical.{canonical_payload_hash}
use aidan_venture_os.Validation.{Created, replay, id_text, is_assumption_of}
use aidan_venture_os.Research.Tables.{
  claim_known, interpretation_known, insert_link, venture_exists,
}
use aidan_venture_os.Research.KillCases.{
  find_opportunity, has_opportunity_id, find_kill_case, missing_dimensions,
}

-- the parameters of `create_opportunity`
pub record OpportunityInput : Type 0 where
  pub opportunity_key : String
  pub buyer_hypothesis : Option String
  pub problem_hypothesis : Option String
  pub acquisition_hypothesis : Option String
  pub critical_unknown : Option String

abbrev has_opportunity_key : ℕ → String → Opportunity → Bool
has_opportunity_key v k r = r.venture_id == v && str_eq r.opportunity_key k

abbrev pub same_state : OpportunityStatus → OpportunityStatus → Bool
same_state OpportunityStatus.draft OpportunityStatus.draft = true
same_state OpportunityStatus.insufficient_evidence OpportunityStatus.insufficient_evidence = true
same_state OpportunityStatus.candidate OpportunityStatus.candidate = true
same_state OpportunityStatus.killed OpportunityStatus.killed = true
same_state _ _ = false

-- `x or ""`
abbrev or_blank_text : Option String → Value
or_blank_text none = text ""
or_blank_text (some s) = text s

-- a hypothesis that is there and not empty
abbrev pub is_given : Option String → Bool
is_given none = false
is_given (some s) = not (str_eq s "")

abbrev assumption_in : ℕ → ℕ → Db → Bool
assumption_in v i db = any (is_assumption_of i v) db.research.assumptions

abbrev set_opportunity_claims : List Link → Db → Db
set_opportunity_claims ls db = record db {
  research = record db.research { opportunity_claims = ls };
}

abbrev set_opportunity_assumptions : List Link → Db → Db
set_opportunity_assumptions ls db = record db {
  research = record db.research { opportunity_assumptions = ls };
}

abbrev set_opportunity_interpretations : List Link → Db → Db
set_opportunity_interpretations ls db = record db {
  research = record db.research { opportunity_interpretations = ls };
}

-- `link_claim`, `link_assumption` and `link_interpretation` (all `_link`)
unfoldable pub link_opportunity_claim : ℕ → ℕ → String → Tx Bool
link_opportunity_claim opportunity_id claim_id actor = do
  row ← gets (λ db. find_opportunity opportunity_id db.research.opportunities)
  o ← or_raise row Error.not_found
  insert_link (λ db. db.research.opportunity_claims) set_opportunity_claims "opportunity_id"
      "claim_id" "research.opportunity_claim_linked" claim_known o.venture_id opportunity_id
      claim_id actor

unfoldable pub link_opportunity_assumption : ℕ → ℕ → String → Tx Bool
link_opportunity_assumption opportunity_id assumption_id actor = do
  row ← gets (λ db. find_opportunity opportunity_id db.research.opportunities)
  o ← or_raise row Error.not_found
  insert_link (λ db. db.research.opportunity_assumptions) set_opportunity_assumptions
      "opportunity_id" "assumption_id" "research.opportunity_assumption_linked" assumption_in
      o.venture_id opportunity_id assumption_id actor

unfoldable pub link_opportunity_interpretation : ℕ → ℕ → String → Tx Bool
link_opportunity_interpretation opportunity_id interpretation_id actor = do
  row ← gets (λ db. find_opportunity opportunity_id db.research.opportunities)
  o ← or_raise row Error.not_found
  insert_link (λ db. db.research.opportunity_interpretations) set_opportunity_interpretations
      "opportunity_id" "interpretation_id" "research.opportunity_interpretation_linked"
      interpretation_known o.venture_id opportunity_id interpretation_id actor

unfoldable pub get_opportunity_status : ℕ → Tx OpportunityStatus
get_opportunity_status opportunity_id = do
  row ← gets (λ db. find_opportunity opportunity_id db.research.opportunities)
  o ← or_raise row Error.not_found
  pure o.status

-- UPDATE opportunity SET status = …, status_reason = … WHERE id = …
abbrev set_opportunity : ℕ → (Opportunity → Opportunity) → Db → Db
set_opportunity i f db = record db {
  research = record db.research {
    opportunities = update (has_opportunity_id i) f db.research.opportunities;
  };
}

abbrev pub is_link_of : ℕ → Link → Bool
is_link_of i k = k.left_id == i

-- the kill case is there and misses no dimension
abbrev pub is_complete : Option KillCase → Db → Bool
is_complete none db = false
is_complete (some k) db = elim (missing_dimensions k.id db) [ [] ↦ true | d ∷ ds ↦ false ]

-- all that a DRAFT needs to become a CANDIDATE
unfoldable pub is_ready : Opportunity → Db → Bool
is_ready o db =
    (is_given o.buyer_hypothesis && (is_given o.problem_hypothesis && is_given o.critical_unknown))
    && (any (is_link_of o.id) db.research.opportunity_claims
        && (any (is_link_of o.id) db.research.opportunity_assumptions
            && is_complete (find_kill_case o.id db.research.kill_cases) db))

unfoldable pub finalize_candidate : ℕ → String → Tx OpportunityStatus
finalize_candidate opportunity_id actor = do
  row ← gets (λ db. find_opportunity opportunity_id db.research.opportunities)
  o ← or_raise row Error.not_found
  if same_state o.status OpportunityStatus.candidate then pure OpportunityStatus.candidate else do
    require (same_state o.status OpportunityStatus.draft) Error.opportunity_not_ready
    ready ← gets (is_ready o)
    require ready Error.opportunity_not_ready
    modify (set_opportunity opportunity_id (λ r. record r { status = OpportunityStatus.candidate }))
    record_event "research.opportunity_finalized_candidate" actor (some o.venture_id) none
        (obj ("opportunity_id" ⇒ id_text opportunity_id & Fields.end))
    pure OpportunityStatus.candidate

-- `_transition`
unfoldable pub change_status :
    ℕ
    → OpportunityStatus
    → String
    → String
    → String
    → (OpportunityStatus → Bool)
    → Tx OpportunityStatus
change_status opportunity_id target reason event actor from = do
  row ← gets (λ db. find_opportunity opportunity_id db.research.opportunities)
  o ← or_raise row Error.not_found
  if same_state o.status target then pure target else do
    require (from o.status) Error.opportunity_not_ready
    modify (
        set_opportunity opportunity_id
          (λ r. record r { status = target; status_reason = some reason }))
    record_event event actor (some o.venture_id) none
        (obj ("opportunity_id" ⇒ id_text opportunity_id & "reason" ⇒ text reason & Fields.end))
    pure target

abbrev pub is_draft : OpportunityStatus → Bool
is_draft s = same_state s OpportunityStatus.draft

abbrev pub is_open : OpportunityStatus → Bool
is_open s = same_state s OpportunityStatus.draft || same_state s OpportunityStatus.candidate

unfoldable pub mark_insufficient_evidence : ℕ → String → String → Tx OpportunityStatus
mark_insufficient_evidence opportunity_id reason actor =
    change_status opportunity_id OpportunityStatus.insufficient_evidence reason
      "research.opportunity_insufficient_evidence" actor is_draft

unfoldable pub kill : ℕ → String → String → Tx OpportunityStatus
kill opportunity_id reason actor =
    change_status opportunity_id OpportunityStatus.killed reason "research.opportunity_killed" actor
      is_open

abbrev research_outcome_name : ResearchOutcome → String
research_outcome_name ResearchOutcome.opportunities_found = "OPPORTUNITIES_FOUND"
research_outcome_name ResearchOutcome.no_credible_opportunity = "NO_CREDIBLE_OPPORTUNITY"
research_outcome_name ResearchOutcome.insufficient_evidence = "INSUFFICIENT_EVIDENCE"

abbrev has_research_key : ℕ → String → ResearchResult → Bool
has_research_key v k r = r.venture_id == v && str_eq r.result_key k

unfoldable pub record_research_result : ℕ → String → ResearchOutcome → Option String → String → Tx ℕ
record_research_result venture_id result_key outcome reason actor = do
  free ← gets (λ db.
      venture_exists venture_id db
      && not (any (has_research_key venture_id result_key) db.research.research_results))
  require free Error.integrity_error
  result_id ← fresh
  modify (λ db. record db {
    research = record db.research {
      research_results =
          (record {
            id = result_id;
            venture_id = venture_id;
            result_key = result_key;
            outcome = outcome;
            reason = reason;
          })
          ∷ db.research.research_results;
    };
  })
  record_event "research.result_recorded" actor (some venture_id) none (
      obj (
        "result_id"
        ⇒ id_text result_id & "outcome"
        ⇒ text (research_outcome_name outcome) & Fields.end))
  pure result_id

module _ (sha256 : Text → ℕ) where
  abbrev opportunity_digest : OpportunityInput → ℕ
  opportunity_digest o = canonical_payload_hash sha256 (
      obj (
        "buyer"
        ⇒ or_blank_text o.buyer_hypothesis & "problem"
        ⇒ or_blank_text o.problem_hypothesis & "acquisition"
        ⇒ or_blank_text o.acquisition_hypothesis & "critical_unknown"
        ⇒ or_blank_text o.critical_unknown & Fields.end))

  unfoldable pub insert_opportunity : ℕ → OpportunityInput → String → Tx Created
  insert_opportunity venture_id o actor = do
    known ← gets (venture_exists venture_id)
    require known Error.integrity_error
    opportunity_id ← fresh
    modify (λ db. record db {
      research = record db.research {
        opportunities =
            (record {
              id = opportunity_id;
              venture_id = venture_id;
              opportunity_key = o.opportunity_key;
              buyer_hypothesis = o.buyer_hypothesis;
              problem_hypothesis = o.problem_hypothesis;
              acquisition_hypothesis = o.acquisition_hypothesis;
              critical_unknown = o.critical_unknown;
              payload_hash = opportunity_digest o;
              status = OpportunityStatus.draft;
              status_reason = none;
            })
            ∷ db.research.opportunities;
      };
    })
    record_event "research.opportunity_created" actor (some venture_id) none
        (obj ("opportunity_id" ⇒ id_text opportunity_id & "status" ⇒ text "DRAFT" & Fields.end))
    pure (record { id = opportunity_id; created = true })

  unfoldable pub create_opportunity : ℕ → OpportunityInput → String → Tx Created
  create_opportunity venture_id o actor = do
    require (not (str_eq o.opportunity_key "")) Error.value_error
    row ←
        gets
          (λ db. find (has_opportunity_key venture_id o.opportunity_key) db.research.opportunities)
    elim row [
      | none ↦ insert_opportunity venture_id o actor
      | some r ↦ replay r.id (r.payload_hash == opportunity_digest o)
    ]
