-- ===== src/Proof.antt =====
-- packages/core/aidan_core/proof.py: proof receipts and the deterministic token verifier.
use aidan_venture_os.Base.{
  ℕ, ◌+◌, String, Bool, true, false, Option, none, some, List, ◌∷◌, ◌++◌, ◌==◌, ◌&&◌, ◌||◌, not,
  str_eq, is_some, find, any, if◌then◌else◌,
}
use aidan_venture_os.Db.Rows.{ProofReceipt, Verdict, ExecutionAttempt, is_verified}
use aidan_venture_os.Db.Tx.{Db, Tx, Error, ok, err, pure, ◌>>=◌}
use aidan_venture_os.Json.Text.{Text, codes, show_ℕ}
use aidan_venture_os.Json.Dumps.{Value}
use aidan_venture_os.Json.Canonical.{canonical_payload_hash, or_empty, text_eq, get}

unfoldable pub expected_token : ℕ → Text
expected_token action_id = codes "proof:" ++ show_ℕ action_id

-- `payload.get("token") == expected_token(action_request_id)`
unfoldable pub has_token : ℕ → Value → Bool
has_token action_id payload = elim (get (codes "token") payload) [
  | some (Value.str t) ↦ text_eq t (expected_token action_id)
  | _ ↦ false
]

-- `deterministic_verify`, its verdict
unfoldable pub token_verdict : ℕ → String → Value → Verdict
token_verdict action_id reported_outcome payload =
    if str_eq reported_outcome "success" && has_token action_id payload
    then Verdict.verified
    else Verdict.failed

abbrev pub is_proof_of : ℕ → ProofReceipt → Bool
is_proof_of a r = r.action_id == a && is_verified r.result

abbrev pub id_of : Option ProofReceipt → Option ℕ
id_of none = none
id_of (some r) = some r.id

unfoldable pub find_proof : ℕ → List ProofReceipt → Option ProofReceipt
find_proof a rows = find (is_proof_of a) rows

abbrev pub verified_proof_id : ℕ → Db → Option ℕ
verified_proof_id a db = id_of (find_proof a db.proofs)

abbrev pub is_attempt_of : ℕ → ℕ → ExecutionAttempt → Bool
is_attempt_of i a r = r.id == i && r.action_id == a

-- the composite foreign key (execution_attempt_id, action_request_id)
abbrev pub attempt_belongs : Option ℕ → ℕ → Db → Bool
attempt_belongs none a db = true
attempt_belongs (some i) a db = any (is_attempt_of i a) db.attempts

-- `_write_receipt`, under the partial unique index on VERIFIED receipts
unfoldable pub write_receipt : ℕ → ℕ → Verdict → String → String → ℕ → Option ℕ → Tx ℕ
write_receipt action_id result_id verdict verification_type verifier evidence_hash attempt_id db =
    if is_verified verdict && is_some (find_proof action_id db.proofs)
      || not (attempt_belongs attempt_id action_id db)
    then err Error.integrity_error
    else ok (
      db.next_id,
      record db {
        proofs =
            (record {
              id = db.next_id;
              action_id = action_id;
              result_id = result_id;
              attempt_id = attempt_id;
              verification_type = verification_type;
              verifier = verifier;
              result = verdict;
              evidence_hash = evidence_hash;
            })
            ∷ db.proofs;
        next_id = db.next_id + 1;
      },
    )

module _ (sha256 : Text → ℕ) where
  -- `_record_receipt`: the verdict is always derived here
  unfoldable pub record_receipt : ℕ → ℕ → String → Option Value → Option ℕ → Tx (Verdict × ℕ)
  record_receipt action_id result_id reported_outcome raw_payload attempt_id = do
    let payload = or_empty raw_payload
    let verdict = token_verdict action_id reported_outcome payload
    proof_id ←
        write_receipt action_id result_id verdict "token-match-v1" "gate1.deterministic"
          (canonical_payload_hash sha256 payload) attempt_id
    pure (verdict, proof_id)
