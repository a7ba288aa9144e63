-- ===== src/Db/Tx.antt =====
-- The database, the kernel's errors, and a transaction as a state and exception monad.
-- A raise inside `db.transaction` rolls the database back, so an error carries no state.
use aidan_venture_os.Base.{
  ◌≡◌, refl, ◌⊎◌, inl, inr, ℕ, ◌+◌, String, Bool, true, false, Option, none, some, List, ◌∷◌,
  str_eq, ◌||◌,
}
use aidan_venture_os.Db.Rows.{
  Venture, MandateVersion, ActionRequest, BudgetAccount, CapitalEntry, KillSwitch, PolicyDecision,
  Approval, ExecutionAttempt, ExecutionResult, ProofReceipt, DecisionRecord, EvidenceRecord,
  AuditEvent, Intervention,
}
use aidan_venture_os.Db.Research.{ResearchTables}
use aidan_venture_os.Db.Validation.{ValidationTables}
use aidan_venture_os.Json.Dumps.{Value}

-- errors.py, without the messages; `integrity_error` is psycopg's, for a constraint or a
-- trigger, `data_error` for a number that a column cannot hold, and `type_error` Python's TypeError
pub data Error : Type 0 where
  value_error not_found illegal_transition idempotency_conflict insufficient_budget
        illegal_capital_transition execution_blocked approval_required approval_state
        inconsistent_canonical_state integrity_error data_error type_error opportunity_not_ready
        evidence_relation_conflict stale_recommendation recommendation_not_convertible
        build_gate_not_satisfied consequential_spend invalid_acquisition :
      Error

pub data Result {ℓ} (A : Type ℓ) : Type ℓ where
  ok : A → Result A
  err : Error → Result A

-- Tables hold their newest row first. `next_id` is the supply of unused identifiers
-- (`gen_random_uuid()`, and the identity column of `audit_event`); `now` is `now()`, which stands
-- still within a transaction.
pub record Db : Type 0 where
  pub ventures : List Venture
  pub mandates : List MandateVersion
  pub actions : List ActionRequest
  pub accounts : List BudgetAccount
  pub entries : List CapitalEntry
  pub kill_switches : List KillSwitch
  pub policy_decisions : List PolicyDecision
  pub approvals : List Approval
  pub attempts : List ExecutionAttempt
  pub results : List ExecutionResult
  pub proofs : List ProofReceipt
  -- the actions that have an `execution_spec` row
  pub specs : List ℕ
  pub decision_records : List DecisionRecord
  pub evidence : List EvidenceRecord
  pub interventions : List Intervention
  pub audit_log : List AuditEvent
  pub research : ResearchTables
  pub validation : ValidationTables
  pub next_id : ℕ
  pub now : ℕ

abbrev pub Tx : Type 0 → Type 0
Tx A = Db → Result (A × Db)

module _ {A : Type 0} where
  abbrev pub pure : A → Tx A
  pure a db = ok (a, db)

  abbrev pub raise : Error → Tx A
  raise e db = err e

  abbrev pub gets : (Db → A) → Tx A
  gets f db = ok (f db, db)

  -- `row = cur.fetchone()` followed by `if row is None: raise e`
  abbrev pub or_raise : Option A → Error → Tx A
  or_raise none e = raise e
  or_raise (some a) e = pure a

abbrev pub modify : (Db → Db) → Tx (Unit {0})
modify f db = ok (tt, f db)

-- `if not test: raise e`
abbrev pub require : Bool → Error → Tx (Unit {0})
require true e = pure tt
require false e = raise e

infixl 5 ◌>>=◌ ◌>>◌
abbrev pub ◌>>=◌ : {A B : Type 0} → Tx A → (A → Tx B) → Tx B
◌>>=◌ m f db = elim (m db) [ ok r ↦ f r.0 r.1 | err e ↦ err e ]

abbrev pub ◌>>◌ : {A B : Type 0} → Tx A → Tx B → Tx B
m >> k = m >>= λ _. k

-- a fresh identifier
abbrev pub fresh : Tx ℕ
fresh db = ok (db.next_id, record db { next_id = db.next_id + 1 })

-- `with db.transaction(conn)`: commit on success, roll back on an exception
unfoldable pub transaction : {A : Type 0} → Tx A → Db → Result A × Db
transaction m db = elim (m db) [ ok r ↦ (ok r.0, r.1) | err e ↦ (err e, db) ]

-- audit.py, `record_event`: an empty type or actor is refused
unfoldable pub record_event : String → String → Option ℕ → Option ℕ → Value → Tx (Unit {0})
record_event event_type actor venture_id action_id payload db =
    elim (str_eq event_type "" || str_eq actor "") [
      | true ↦ err Error.value_error
      | false ↦ ok (
        tt,
        record db {
          audit_log =
              (record {
                id = db.next_id;
                event_type = event_type;
                actor = actor;
                venture_id = venture_id;
                action_id = action_id;
                payload = payload;
                occurred_at = db.now;
              })
              ∷ db.audit_log;
          next_id = db.next_id + 1;
        },
      )
    ]

pub Result-cases :
    {A : Type 0} (r : Result (A × Db))
    → ((a : A) × (db : Db) × (r ≡ ok (a, db))) ⊎ ((e : Error) × (r ≡ err e))
Result-cases (ok r) = inl (r.0, r.1, refl)
Result-cases (err e) = inr (e, refl)

-- what a transaction that does not raise has established
abbrev pub Ensures : {A : Type 0} → (Db → Type 0) → Result (A × Db) → Type 0
Ensures P (ok r) = P r.1
Ensures P (err e) = Unit

abbrev pub Keeps : {A : Type 0} → (Db → Type 0) → Tx A → Type 0
Keeps P m = (db : Db) → P db → Ensures P (m db)
