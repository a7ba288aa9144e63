-- ===== src/Actions.antt =====
-- packages/core/aidan_core/actions.py: idempotent intake of action requests.
pub mod Intake
use aidan_venture_os.Base.{
  ℕ, String, Bool, true, false, Option, none, some, List, ◌∷◌, ◌==◌, ◌&&◌, not, str_eq, ltb, ◌^◌,
  find, any, if◌then◌else◌,
}
use aidan_venture_os.Base.Int.{pos}
use aidan_venture_os.Db.Rows.{ActionRequest, RunStatus}
use aidan_venture_os.Db.Tx.{
  Db, Tx, Error, ok, err, pure, raise, gets, or_raise, modify, require, fresh, record_event, ◌>>=◌,
  ◌>>◌,
}
use aidan_venture_os.Budget.{numeric_limit}
use aidan_venture_os.Db.Queries.{find_action, has_venture_id, text, ◌⇒◌&◌}
use aidan_venture_os.Json.Text.{Text, show_ℕ}
use aidan_venture_os.Json.Dumps.{Value, Fields, obj, str, int}
use aidan_venture_os.Json.Canonical.{or_empty, canonical_payload_hash}

-- the parameters of `submit_action_request`
pub record Submission : Type 0 where
  pub venture_id : ℕ
  pub action_type : String
  pub actor : String
  pub idempotency_key : String
  pub payload : Option Value
  pub required_autonomy : ℕ
  pub requested_amount : ℕ
  pub requested_currency : String

pub record IntakeResult : Type 0 where
  pub action_id : ℕ
  pub created : Bool

-- the unique key (venture_id, idempotency_key)
abbrev pub has_key : ℕ → String → ActionRequest → Bool
has_key v k r = r.venture_id == v && str_eq r.idempotency_key k

unfoldable pub find_key : ℕ → String → List ActionRequest → Option ActionRequest
find_key v k rows = find (has_key v k) rows

-- the columns hold what the INSERT gives: numeric(20,4), in ten-thousandths, and smallint
unfoldable pub row_fits : Submission → Bool
unfolding numeric_limit
row_fits s = ltb s.requested_amount numeric_limit && ltb s.required_autonomy (2 ^ 15)

module _ (sha256 : Text → ℕ) where
  -- the row that the INSERT would write
  abbrev pub new_row : Submission → ℕ → ActionRequest
  new_row s i = record {
    id = i;
    venture_id = s.venture_id;
    action_type = s.action_type;
    actor = s.actor;
    payload = or_empty s.payload;
    payload_hash = canonical_payload_hash sha256 (or_empty s.payload);
    idempotency_key = s.idempotency_key;
    status = RunStatus.pending;
    required_autonomy = s.required_autonomy;
    requested_amount = s.requested_amount;
    requested_currency = s.requested_currency;
  }

  unfoldable pub create_action : Submission → Tx IntakeResult
  create_action s = do
    require_venture ← gets (λ db. any (has_venture_id s.venture_id) db.ventures)
    require require_venture Error.integrity_error
    action_id ← fresh
    modify (λ db. record db { actions = new_row s action_id ∷ db.actions })
    record_event "action_request.created" s.actor (some s.venture_id) (some action_id) (
        obj (
          "action_type"
          ⇒ text s.action_type & "payload_hash"
          ⇒ str (show_ℕ (canonical_payload_hash sha256 (or_empty s.payload))) & Fields.end))
    pure (record { action_id = action_id; created = true })

  unfoldable pub return_existing : Submission → ActionRequest → Tx IntakeResult
  return_existing s row =
      if row.payload_hash == canonical_payload_hash sha256 (or_empty s.payload)
      then pure (record { action_id = row.id; created = false })
      else raise Error.idempotency_conflict

  -- INSERT … ON CONFLICT DO NOTHING, then the existing row
  unfoldable pub submit_action_request : Submission → Tx IntakeResult
  submit_action_request s = do
    require (not (str_eq s.action_type "")) Error.value_error
    require (not (str_eq s.idempotency_key "")) Error.value_error
    require (row_fits s) Error.data_error
    row ← gets (λ db. find_key s.venture_id s.idempotency_key db.actions)
    elim row [ none ↦ create_action s | some r ↦ return_existing s r ]

abbrev get_action_request : ℕ → Db → Option ActionRequest
get_action_request action_id db = find_action action_id db.actions
