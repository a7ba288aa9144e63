-- ===== src/Execution/Requests.antt =====
-- What `request_execution` does to success and proof.
use aidan_venture_os.Base.{ℕ, ◌≡◌, refl, Option, none, inl, inr, arith, Bool-cases}
use aidan_venture_os.Db.Rows.{PolicyOutcome, RunStatus}
use aidan_venture_os.Db.Tx.{Db, ok, Result-cases, record_event}
use aidan_venture_os.Json.Text.{Text}
use aidan_venture_os.Policy.{
  Decimal, PolicyInput, PolicyResult, persist_decision, current_evaluation, load_policy_input,
}
use aidan_venture_os.Approvals.{create_pending}
use aidan_venture_os.Execution.Status.{set_status}
use aidan_venture_os.Execution.Claim.{RequestOutcome, is_outcome, open_approval, request_execution}
use aidan_venture_os.Execution.Frames.{Frame}
use aidan_venture_os.Execution.Success.{IsProven, Frame-IsProven, set_status-IsProven}

persist_decision-Frame :
    (a v : ℕ) (r : PolicyResult) (inp : PolicyInput) (db db' : Db) (i : ℕ)
    → persist_decision a v r inp db ≡ ok (i, db')
    → Frame db db'
unfolding persist_decision record_event
persist_decision-Frame a v r inp db db' i e = record {
  actions = ground arith;
  proofs = ground arith;
  specs = ground arith;
}

create_pending-Frame :
    (a d h ttl : ℕ) (db db' : Db) (i : ℕ) → create_pending a d h ttl db ≡ ok (i, db') → Frame db db'
unfolding create_pending record_event
create_pending-Frame a d h ttl db db' i e = record {
  actions = ground arith;
  proofs = ground arith;
  specs = ground arith;
}

module _ (sha256 : Text → ℕ) (a : ℕ) where
  open_approval-IsProven :
      (d : ℕ) (r : PolicyResult) (ttl : ℕ) (db db' : Db) (i : Option ℕ)
      → open_approval sha256 a d r ttl db ≡ ok (i, db')
      → IsProven db
      → IsProven db'
  unfolding open_approval
  open_approval-IsProven d r ttl db db' i e h =
      elim (Bool-cases (is_outcome r.decision PolicyOutcome.require_approval)) [
        | inr p ↦ let same : db' ≡ db = ground arith in rw same h
        | inl p ↦ elim (Result-cases (create_pending a d r.inputs_hash ttl db)) [
          | inr (x, f) ↦ absurd (ground arith)
          | inl (j, db1, f) ↦
              elim (Result-cases
                (set_status a RunStatus.awaiting_approval "policy_engine" none db1)) [
                  | inr (x, g) ↦ absurd (ground arith)
                  | inl (u, db2, g) ↦
                      let h1 =
                        Frame-IsProven db db1
                          (create_pending-Frame a d r.inputs_hash ttl db db1 j f) h in
                      let h2 =
                        set_status-IsProven a RunStatus.awaiting_approval "policy_engine" none db1
                          db2 u refl g h1 in
                      let same : db' ≡ db2 = ground arith in rw same h2
                ]
        ]
      ]

  -- A request for execution keeps success and proof together: where an action was SUCCEEDED just when
  -- it had a VERIFIED proof receipt, it still is so.
  pub request_execution-IsProven :
      (th : Decimal) (ttl : ℕ) (db db' : Db) (out : RequestOutcome)
      → request_execution sha256 a th ttl db ≡ ok (out, db')
      → IsProven db
      → IsProven db'
  unfolding request_execution
  request_execution-IsProven th ttl db db' out e h =
      elim (Result-cases (current_evaluation sha256 a th db)) [
        | inr (x, f) ↦ absurd (ground arith)
        | inl (found, db0, f) ↦
            let same : db0 ≡ db = unfold current_evaluation load_policy_input in ground arith in
            elim (Result-cases (persist_decision a found.1 found.0 found.2 db0)) [
              | inr (x, g) ↦ absurd (ground arith)
              | inl (d, db1, g) ↦ elim (Result-cases (open_approval sha256 a d found.0 ttl db1)) [
                | inr (x, k) ↦ absurd (ground arith)
                | inl (i, db2, k) ↦
                    let h0 : IsProven db0 = rw same h in
                    let h1 =
                      Frame-IsProven db0 db1
                        (persist_decision-Frame a found.1 found.0 found.2 db0 db1 d g) h0 in
                    let h2 = open_approval-IsProven d found.0 ttl db1 db2 i k h1 in
                    let done : db' ≡ db2 = ground arith in rw done h2
              ]
            ]
      ]
