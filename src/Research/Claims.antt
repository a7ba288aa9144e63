-- ===== src/Research/Claims.antt =====
-- research/claims.py: claims, the observations for and against them, and their derived state.
use aidan_venture_os.Base.{
  ℕ, ◌+◌, String, Bool, true, false, Option, none, some, List, [], ◌∷◌, ◌==◌, ◌&&◌, not, str_eq,
  find, any, if◌then◌else◌,
}
use aidan_venture_os.Db.Rows.{EvidenceKind}
use aidan_venture_os.Db.Research.{Claim, ClaimEvidence, Stance}
use aidan_venture_os.Db.Tx.{
  Db, Tx, Error, pure, raise, gets, or_raise, modify, require, fresh, record_event, ◌>>=◌, ◌>>◌,
}
use aidan_venture_os.Db.Queries.{text, ◌⇒◌&◌}
use aidan_venture_os.Json.Text.{Text}
use aidan_venture_os.Json.Dumps.{Fields, obj}
use aidan_venture_os.Json.Canonical.{canonical_payload_hash}
use aidan_venture_os.Validation.{Created, replay, id_text, is_observation_of}
use aidan_venture_os.Research.Tables.{has_digest, insert_evidence}

abbrev has_claim_key : ℕ → String → Claim → Bool
has_claim_key v k r = r.venture_id == v && str_eq r.claim_key k

abbrev pub has_claim_id : ℕ → Claim → Bool
has_claim_id i r = r.evidence_id == i

abbrev pub same_stance : Stance → Stance → Bool
same_stance Stance.supports Stance.supports = true
same_stance Stance.contradicts Stance.contradicts = true
same_stance _ _ = false

abbrev stance_name : Stance → String
stance_name Stance.supports = "SUPPORTS"
stance_name Stance.contradicts = "CONTRADICTS"

abbrev stance_event : Stance → String
stance_event Stance.supports = "evidence.claim_supported"
stance_event Stance.contradicts = "evidence.claim_contradicted"

abbrev pub is_relation : ℕ → ℕ → ClaimEvidence → Bool
is_relation c o r = r.claim_id == c && r.observation_id == o

unfoldable pub find_relation : ℕ → ℕ → List ClaimEvidence → Option ClaimEvidence
find_relation c o rows = find (is_relation c o) rows

-- count(*) FILTER (WHERE stance = …) … WHERE claim_id = …
unfoldable pub count_stance : Stance → ℕ → List ClaimEvidence → ℕ
count_stance s c [] = 0
count_stance s c (r ∷ rs) =
    let rest = count_stance s c rs in
    if r.claim_id == c && same_stance s r.stance then 1 + rest else rest

pub data ClaimState : Type 0 where
  unsupported supported contradicted disputed : ClaimState

-- of the numbers of supporting and of contradicting relations
abbrev pub state_of_counts : ℕ → ℕ → ClaimState
state_of_counts s c =
    if s == 0 && c == 0
    then ClaimState.unsupported
    else if not (s == 0) && c == 0
    then ClaimState.supported
    else if s == 0 && not (c == 0)
    then ClaimState.contradicted
    else ClaimState.disputed

unfoldable pub claim_state : ℕ → Db → ClaimState
claim_state claim_id db =
    state_of_counts (count_stance Stance.supports claim_id db.research.claim_evidence)
      (count_stance Stance.contradicts claim_id db.research.claim_evidence)

unfoldable pub insert_relation : ℕ → ℕ → ℕ → Stance → Option String → String → Tx Created
insert_relation venture_id claim_id observation_id stance reason actor = do
  known ← gets (λ db. any (is_observation_of observation_id venture_id) db.research.observations)
  require known Error.integrity_error
  relation_id ← fresh
  modify (λ db. record db {
    research = record db.research {
      claim_evidence =
          (record {
            id = relation_id;
            claim_id = claim_id;
            observation_id = observation_id;
            venture_id = venture_id;
            stance = stance;
            reason = reason;
          })
          ∷ db.research.claim_evidence;
    };
  })
  record_event (stance_event stance) actor (some venture_id) none (
      obj (
        "claim_id"
        ⇒ id_text claim_id & "observation_id"
        ⇒ id_text observation_id & "stance"
        ⇒ text (stance_name stance) & Fields.end))
  pure (record { id = relation_id; created = true })

unfoldable pub return_relation : Stance → ClaimEvidence → Tx Created
return_relation stance r =
    if same_stance r.stance stance
    then pure (record { id = r.id; created = false })
    else raise Error.evidence_relation_conflict

unfoldable pub link_evidence : ℕ → ℕ → Stance → Option String → String → Tx Created
link_evidence claim_id observation_id stance reason actor = do
  row ← gets (λ db. find (has_claim_id claim_id) db.research.claims)
  claim ← or_raise row Error.not_found
  existing ← gets (λ db. find_relation claim_id observation_id db.research.claim_evidence)
  elim existing [
    | none ↦ insert_relation claim.venture_id claim_id observation_id stance reason actor
    | some r ↦ return_relation stance r
  ]

module _ (sha256 : Text → ℕ) where
  abbrev claim_digest : String → ℕ
  claim_digest statement =
      canonical_payload_hash sha256 (obj ("statement" ⇒ text statement & Fields.end))

  unfoldable pub insert_claim : ℕ → String → String → String → Tx Created
  insert_claim venture_id statement claim_key actor = do
    evidence_id ← insert_evidence venture_id EvidenceKind.claim (claim_digest statement)
    modify (λ db. record db {
      research = record db.research {
        claims =
            (record {
              evidence_id = evidence_id;
              venture_id = venture_id;
              statement = statement;
              claim_key = claim_key;
            })
            ∷ db.research.claims;
      };
    })
    record_event "evidence.claim_created" actor (some venture_id) none
        (obj ("evidence_record_id" ⇒ id_text evidence_id & Fields.end))
    pure (record { id = evidence_id; created = true })

  unfoldable pub create_claim : ℕ → String → String → String → Tx Created
  create_claim venture_id statement claim_key actor = do
    require (not (str_eq statement "")) Error.value_error
    require (not (str_eq claim_key "")) Error.value_error
    row ← gets (λ db. find (has_claim_key venture_id claim_key) db.research.claims)
    elim row [
      | none ↦ insert_claim venture_id statement claim_key actor
      | some r ↦ do
        same ← gets (has_digest r.evidence_id (claim_digest statement))
        replay r.evidence_id same
    ]
