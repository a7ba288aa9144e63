-- ===== src/Ventures.antt =====
-- packages/core/aidan_core/ventures.py, decisions.py and evidence.py: the append-only records of a
-- venture.
use aidan_venture_os.Base.{
  none, ℕ, ◌+◌, String, Bool, true, Option, none, some, List, [], ◌∷◌, ◌==◌, ◌&&◌, not, str_eq, any,
  find, ltb, update, if◌then◌else◌,
}
use aidan_venture_os.Base.Int.{pos}
use aidan_venture_os.Db.Rows.{
  ContentHash, EvidenceRecord, EvidenceKind, InvestmentDecision, LifecycleState, MandateVersion,
  Venture,
}
use aidan_venture_os.Db.Tx.{
  Db, Tx, Error, pure, gets, modify, require, fresh, record_event, ◌>>=◌, ◌>>◌,
}
use aidan_venture_os.Db.Queries.{find_venture, has_venture_id, has_action_id, text, ◌⇒◌&◌}
use aidan_venture_os.Json.Dumps.{Value, Fields, obj, int}
use aidan_venture_os.Json.Canonical.{or_empty}
use aidan_venture_os.KillSwitch.{opt_text}

abbrev pub has_slug : String → Venture → Bool
has_slug s r = str_eq r.slug s

-- ventures.py, `create_venture`; the slug is unique
unfoldable pub create_venture : String → ℕ → Tx ℕ
create_venture slug autonomy_level = do
  require (not (str_eq slug "")) Error.value_error
  taken ← gets (λ db. any (has_slug slug) db.ventures)
  require (not taken) Error.integrity_error
  venture_id ← fresh
  modify (λ db. record db {
    ventures =
        (record {
          id = venture_id;
          slug = slug;
          lifecycle_state = LifecycleState.discovered;
          mandate_version = none;
          autonomy_level = autonomy_level;
        })
        ∷ db.ventures;
  })
  record_event "venture.created" "system" (some venture_id) none
      (obj ("slug" ⇒ text slug & "autonomy_level" ⇒ int (pos autonomy_level) & Fields.end))
  pure venture_id

-- coalesce(max(version), 0)
unfoldable pub last_version : ℕ → List MandateVersion → ℕ
last_version v [] = 0
last_version v (r ∷ rs) =
    let rest = last_version v rs in
    if r.venture_id == v && ltb rest r.version then r.version else rest

-- ventures.py, `append_mandate_version`
unfoldable pub append_mandate_version : ℕ → String → Option String → String → Tx ℕ
append_mandate_version venture_id content_hash source_ref actor = do
  require (not (str_eq content_hash "")) Error.value_error
  last ← gets (λ db. last_version venture_id db.mandates)
  known ← gets (λ db. any (has_venture_id venture_id) db.ventures)
  require known Error.integrity_error
  mandate_id ← fresh
  modify (λ db. record db {
    mandates =
        (record {
          id = mandate_id;
          venture_id = venture_id;
          version = last + 1;
          content_hash = content_hash;
          source_ref = source_ref;
        })
        ∷ db.mandates;
    ventures =
        update (has_venture_id venture_id)
          (λ (r : Venture). record r { mandate_version = some (last + 1) }) db.ventures;
  })
  record_event "venture.mandate_version_appended" actor (some venture_id) none
      (obj ("version" ⇒ int (pos (last + 1)) & "content_hash" ⇒ text content_hash & Fields.end))
  pure (last + 1)

-- ventures.py, `get_current_mandate_version`: ORDER BY version DESC LIMIT 1
unfoldable pub current_mandate : ℕ → List MandateVersion → Option MandateVersion
current_mandate v [] = none
current_mandate v (r ∷ rs) =
    let rest = current_mandate v rs in
    if r.venture_id == v
    then elim rest [ none ↦ some r | some s ↦ if ltb r.version s.version then some s else some r ]
    else rest

abbrev pub decision_name : InvestmentDecision → String
decision_name InvestmentDecision.validate = "VALIDATE"
decision_name InvestmentDecision.build = "BUILD"
decision_name InvestmentDecision.improve = "IMPROVE"
decision_name InvestmentDecision.market = "MARKET"
decision_name InvestmentDecision.scale = "SCALE"
decision_name InvestmentDecision.hold = "HOLD"
decision_name InvestmentDecision.kill = "KILL"
decision_name InvestmentDecision.do_nothing = "DO_NOTHING"

-- a nullable reference to an action
abbrev pub action_known : Option ℕ → Db → Bool
action_known none db = true
action_known (some a) db = any (has_action_id a) db.actions

-- decisions.py, `record_decision`
unfoldable pub record_decision : ℕ → InvestmentDecision → Option String → Option ℕ → String → Tx ℕ
record_decision venture_id decision rationale_ref resulting_action_id actor = do
  known ←
      gets
        (λ db. any (has_venture_id venture_id) db.ventures && action_known resulting_action_id db)
  require known Error.integrity_error
  decision_id ← fresh
  modify (λ db. record db {
    decision_records =
        (record {
          id = decision_id;
          venture_id = venture_id;
          decision = decision;
          rationale_ref = rationale_ref;
          resulting_action_id = resulting_action_id;
          source_recommendation_id = none;
        })
        ∷ db.decision_records;
  })
  record_event "investment_decision.recorded" actor (some venture_id) none (
      obj (
        "decision"
        ⇒ text (decision_name decision) & "rationale_ref"
        ⇒ opt_text rationale_ref & Fields.end))
  pure decision_id

abbrev pub kind_name : EvidenceKind → String
kind_name EvidenceKind.source = "SOURCE"
kind_name EvidenceKind.observation = "OBSERVATION"
kind_name EvidenceKind.claim = "CLAIM"

-- evidence.py, `record_evidence`; a kind outside the three is refused before
unfoldable pub record_evidence :
    ℕ → EvidenceKind → String → Option ℕ → Option String → Option Value → String → Tx ℕ
record_evidence venture_id kind content_hash action_id source_ref payload actor = do
  require (not (str_eq content_hash "")) Error.value_error
  known ← gets (λ db. any (has_venture_id venture_id) db.ventures && action_known action_id db)
  require known Error.integrity_error
  evidence_id ← fresh
  modify (λ db. record db {
    evidence =
        (record {
          id = evidence_id;
          venture_id = venture_id;
          action_id = action_id;
          kind = kind;
          source_ref = source_ref;
          content_hash = ContentHash.given content_hash;
          payload = or_empty payload;
        })
        ∷ db.evidence;
  })
  record_event "evidence.recorded" actor (some venture_id) action_id
      (obj ("kind" ⇒ text (kind_name kind) & "content_hash" ⇒ text content_hash & Fields.end))
  pure evidence_id

abbrev has_evidence_id : ℕ → EvidenceRecord → Bool
has_evidence_id i r = r.id == i

-- evidence.py, `get_evidence`
abbrev get_evidence : ℕ → Db → Option EvidenceRecord
get_evidence evidence_id db = find (has_evidence_id evidence_id) db.evidence

-- ventures.py, `get_venture`
abbrev get_venture : ℕ → Db → Option Venture
get_venture venture_id db = find_venture venture_id db.ventures
