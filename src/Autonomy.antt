-- ===== src/Autonomy.antt =====
-- packages/core/aidan_core/alpha/autonomy.py: unplanned interventions, and what they say of a venture.
pub mod Interventions
use aidan_venture_os.Base.{
  ℕ, String, Bool, true, false, Option, none, some, List, [], ◌∷◌, ◌==◌, ◌&&◌, ◌||◌, not, leb, any,
  if◌then◌else◌,
}
use aidan_venture_os.Db.Rows.{ActionRequest, Intervention, InterventionKind}
use aidan_venture_os.Db.Tx.{
  Db, Tx, Error, pure, gets, modify, require, fresh, record_event, ◌>>=◌, ◌>>◌,
}
use aidan_venture_os.Db.Queries.{has_venture_id, text, ◌⇒◌&◌}
use aidan_venture_os.Json.Text.{is_blank}
use aidan_venture_os.Json.Dumps.{Value, Fields, obj}
use aidan_venture_os.Validation.{id_text}

abbrev kind_name : InterventionKind → String
kind_name InterventionKind.reasoning_correction = "REASONING_CORRECTION"
kind_name InterventionKind.code_repair = "CODE_REPAIR"
kind_name InterventionKind.deployment_repair = "DEPLOYMENT_REPAIR"
kind_name InterventionKind.provider_repair = "PROVIDER_REPAIR"
kind_name InterventionKind.outcome_transcription = "OUTCOME_TRANSCRIPTION"

abbrev is_action_of_venture : ℕ → ℕ → ActionRequest → Bool
is_action_of_venture i v r = r.id == i && r.venture_id == v

-- the composite foreign key on (related_action_request_id, venture_id)
abbrev related_known : Option ℕ → ℕ → Db → Bool
related_known none v db = true
related_known (some i) v db = any (is_action_of_venture i v) db.actions

-- `record_intervention`; any other kind, PREDEFINED_APPROVAL too, is refused before
unfoldable pub record_intervention :
    ℕ → InterventionKind → String → ℕ → Option String → Option ℕ → String → Tx ℕ
record_intervention venture_id kind stage occurred_at reason related actor = do
  require (not (is_blank stage)) Error.value_error
  known ←
      gets
        (λ db. any (has_venture_id venture_id) db.ventures && related_known related venture_id db)
  require known Error.integrity_error
  intervention_id ← fresh
  modify (λ db. record db {
    interventions =
        (record {
          id = intervention_id;
          venture_id = venture_id;
          kind = kind;
          stage = stage;
          related_action_id = related;
          reason = reason;
          occurred_at = occurred_at;
        })
        ∷ db.interventions;
  })
  record_event "alpha.intervention_recorded" actor (some venture_id) related (
      obj (
        "alpha_intervention_id"
        ⇒ id_text intervention_id & "intervention_kind"
        ⇒ text (kind_name kind) & "intervention_stage"
        ⇒ text stage & Fields.end))
  pure intervention_id

pub data Assistance : Type 0 where
  clean human_assisted : Assistance

pub data Evidence : Type 0 where
  real simulated : Evidence

abbrev is_intervention_of : ℕ → Intervention → Bool
is_intervention_of v r = r.venture_id == v

unfoldable pub assistance_class : ℕ → Db → Assistance
assistance_class venture_id db =
    if any (is_intervention_of venture_id) db.interventions
    then Assistance.human_assisted
    else Assistance.clean

-- nothing that is stored tells a live transport from a simulated one
abbrev pub evidence_class : ℕ → Db → Evidence
evidence_class venture_id db = Evidence.simulated

abbrev is_clean : Assistance → Bool
is_clean Assistance.clean = true
is_clean Assistance.human_assisted = false

abbrev is_real : Evidence → Bool
is_real Evidence.real = true
is_real Evidence.simulated = false

unfoldable pub is_clean_autonomous_alpha : ℕ → Db → Bool
unfolding assistance_class
is_clean_autonomous_alpha venture_id db =
    is_clean (assistance_class venture_id db) && is_real (evidence_class venture_id db)

pub record Summary : Type 0 where
  pub assistance : Assistance
  pub evidence : Evidence
  pub clean_autonomous_alpha : Bool

abbrev pub autonomy_summary : ℕ → Db → Summary
autonomy_summary venture_id db = record {
  assistance = assistance_class venture_id db;
  evidence = evidence_class venture_id db;
  clean_autonomous_alpha = is_clean_autonomous_alpha venture_id db;
}
