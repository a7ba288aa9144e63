-- ===== src/Execution/Results.antt =====
-- execution.py: `_upsert_result`, `record_execution_result`.
use aidan_venture_os.Base.{
  ℕ, ◌+◌, String, Bool, true, false, Option, none, some, List, ◌∷◌, ◌==◌, ◌&&◌, ◌||◌, not, str_eq,
  any, find, if◌then◌else◌,
}
use aidan_venture_os.Db.Rows.{ExecutionResult, ExecutionAttempt}
use aidan_venture_os.Db.Tx.{Db, Tx, Error, ok, err, pure, raise, gets, record_event, ◌>>=◌, ◌>>◌}
use aidan_venture_os.Db.Queries.{has_action_id, text, ◌⇒◌&◌}
use aidan_venture_os.Json.Text.{Text}
use aidan_venture_os.Json.Dumps.{Value, Fields, obj}
use aidan_venture_os.Json.Canonical.{canonical_payload_hash, or_empty}

-- what an executor reports of its run
pub record Report : Type 0 where
  pub external_result_id : String
  pub reported_outcome : String
  pub raw_payload : Option Value

-- the unique key (action_request_id, external_result_id)
abbrev pub is_result : ℕ → String → ExecutionResult → Bool
is_result a x r = r.action_id == a && str_eq r.external_result_id x

unfoldable pub find_result : ℕ → String → List ExecutionResult → Option ExecutionResult
find_result a x rows = find (is_result a x) rows

abbrev pub has_attempt_id : ℕ → ExecutionAttempt → Bool
has_attempt_id i r = r.id == i

abbrev pub attempt_exists : Option ℕ → Db → Bool
attempt_exists none db = true
attempt_exists (some i) db = any (has_attempt_id i) db.attempts

-- both attempts are known, and they differ
abbrev pub other_attempt : Option ℕ → Option ℕ → Bool
other_attempt none existing = false
other_attempt (some i) none = false
other_attempt (some i) (some j) = not (j == i)

module _ (sha256 : Text → ℕ) where
  -- the INSERT, with its foreign keys
  unfoldable pub insert_result : ℕ → Option ℕ → Report → Tx (ℕ × Bool)
  insert_result action_id attempt_id rep db =
      if any (has_action_id action_id) db.actions && attempt_exists attempt_id db
      then ok (
        (db.next_id, true),
        record db {
          results =
              (record {
                id = db.next_id;
                action_id = action_id;
                attempt_id = attempt_id;
                external_result_id = rep.external_result_id;
                raw_payload = or_empty rep.raw_payload;
                raw_hash = canonical_payload_hash sha256 (or_empty rep.raw_payload);
                reported_outcome = rep.reported_outcome;
              })
              ∷ db.results;
          next_id = db.next_id + 1;
        },
      )
      else err Error.integrity_error

  -- a result with this external id is there: it must be the same result
  unfoldable pub converge : Option ℕ → Report → ExecutionResult → Tx (ℕ × Bool)
  converge attempt_id rep r =
      if not (r.raw_hash == canonical_payload_hash sha256 (or_empty rep.raw_payload))
        || not (str_eq r.reported_outcome rep.reported_outcome)
      then raise Error.idempotency_conflict
      else if other_attempt attempt_id r.attempt_id
      then raise Error.idempotency_conflict
      else pure (r.id, false)

  -- `_upsert_result`: the result's id, and whether it is new
  unfoldable pub upsert_result : ℕ → Option ℕ → Report → Tx (ℕ × Bool)
  upsert_result action_id attempt_id rep = do
    row ← gets (λ db. find_result action_id rep.external_result_id db.results)
    elim row [ none ↦ insert_result action_id attempt_id rep | some r ↦ converge attempt_id rep r ]

  unfoldable pub record_execution_result : ℕ → Option ℕ → Report → Tx (ℕ × Bool)
  record_execution_result action_id attempt_id rep = do
    result ← upsert_result action_id attempt_id rep
    if result.1
        then (do
          record_event "execution.result_recorded" "executor" none (some action_id)
              (obj ("external_result_id" ⇒ text rep.external_result_id & Fields.end))
          pure result)
        else pure result
