-- ===== src/Commitment/Untouched.antt =====
-- What a commitment leaves to the rest of the kernel.
use aidan_venture_os.Base.{ℕ, ◌≡◌, ◌∙◌, Option, none, some, inl, inr, arith, Option-cases}
use aidan_venture_os.Db.Rows.{InvestmentDecision}
use aidan_venture_os.Db.Validation.{Recommendation}
use aidan_venture_os.Db.Tx.{Db, ok, record_event}
use aidan_venture_os.Json.Text.{Text}
use aidan_venture_os.Policy.{Decimal, current_evaluation, load_policy_input, persist_decision}
use aidan_venture_os.Approvals.{create_pending}
use aidan_venture_os.Actions.{create_action}
use aidan_venture_os.Execution.Status.{set_status}
use aidan_venture_os.Execution.Claim.{open_approval}
use aidan_venture_os.NextAction.{find_recommendation}
use aidan_venture_os.Commitment.{
  commit_recommendation, convert, find_decision, insert_decision, intake_action, resulting_action,
  return_decision, submit_to_policy,
}
use aidan_venture_os.Commitment.Targets.{Committed, Request}
use aidan_venture_os.Commitment.Parts.{convert-Parts}

-- no capital has moved, nothing has been executed or proved, and no venture or opportunity has changed
pub record Untouched (db db' : Db) : Type 0 where
  pub accounts : db'.accounts ≡ db.accounts
  pub entries : db'.entries ≡ db.entries
  pub attempts : db'.attempts ≡ db.attempts
  pub results : db'.results ≡ db.results
  pub proofs : db'.proofs ≡ db.proofs
  pub ventures : db'.ventures ≡ db.ventures
  pub research : db'.research ≡ db.research
  pub validation : db'.validation ≡ db.validation

Untouched-trans : (db db1 db2 : Db) → Untouched db db1 → Untouched db1 db2 → Untouched db db2
Untouched-trans db db1 db2 h k = record {
  accounts = k.accounts ∙ h.accounts;
  entries = k.entries ∙ h.entries;
  attempts = k.attempts ∙ h.attempts;
  results = k.results ∙ h.results;
  proofs = k.proofs ∙ h.proofs;
  ventures = k.ventures ∙ h.ventures;
  research = k.research ∙ h.research;
  validation = k.validation ∙ h.validation;
}

Untouched-refl : (db db' : Db) → db' ≡ db → Untouched db db'
Untouched-refl db db' e = record {
  accounts = cc;
  entries = cc;
  attempts = cc;
  results = cc;
  proofs = cc;
  ventures = cc;
  research = cc;
  validation = cc;
}

module _ (sha256 : Text → ℕ) where
  resulting_action-Untouched :
      (r : Recommendation) (d : InvestmentDecision) (q : Request) (db db' : Db) (a : Option ℕ)
      → resulting_action sha256 r d q db ≡ ok (a, db')
      → Untouched db db'
  unfolding resulting_action intake_action create_action record_event
  resulting_action-Untouched r d q db db' a e = record {
    accounts = ground arith;
    entries = ground arith;
    attempts = ground arith;
    results = ground arith;
    proofs = ground arith;
    ventures = ground arith;
    research = ground arith;
    validation = ground arith;
  }

  insert_decision-Untouched :
      (r : Recommendation) (d : InvestmentDecision) (a : Option ℕ) (q : Request) (db db' : Db)
      (i : ℕ)
      → insert_decision r d a q.actor db ≡ ok (i, db')
      → Untouched db db'
  unfolding insert_decision record_event
  insert_decision-Untouched r d a q db db' i e = record {
    accounts = ground arith;
    entries = ground arith;
    attempts = ground arith;
    results = ground arith;
    proofs = ground arith;
    ventures = ground arith;
    research = ground arith;
    validation = ground arith;
  }

  submit_to_policy-Untouched :
      (v i : ℕ) (d : InvestmentDecision) (th : Decimal) (a : Option ℕ) (db db' : Db)
      (out : Committed)
      → submit_to_policy sha256 v i d th a db ≡ ok (out, db')
      → Untouched db db'
  unfolding submit_to_policy current_evaluation load_policy_input persist_decision open_approval
      create_pending set_status record_event
  submit_to_policy-Untouched v i d th none db db' out e = Untouched-refl db db' (ground arith)
  submit_to_policy-Untouched v i d th (some a) db db' out e = record {
    accounts = ground arith;
    entries = ground arith;
    attempts = ground arith;
    results = ground arith;
    proofs = ground arith;
    ventures = ground arith;
    research = ground arith;
    validation = ground arith;
  }

  -- A commitment reserves and spends nothing, executes and proves nothing, and changes no venture, no
  -- research and no validation.
  pub commit_recommendation-Untouched :
      (i : ℕ) (q : Request) (db db' : Db) (out : Committed)
      → commit_recommendation sha256 i q db ≡ ok (out, db')
      → Untouched db db'
  unfolding commit_recommendation return_decision
  commit_recommendation-Untouched i q db db' out e =
      elim (Option-cases (find_recommendation i db.validation.recommendations)) [
        | inl p ↦ absurd (ground arith)
        | inr (r, p) ↦ elim (Option-cases (find_decision r.id db.decision_records)) [
          | inr (d, k) ↦ Untouched-refl db db' (ground arith)
          | inl k ↦
              let c : convert sha256 r q db ≡ ok (out, db') = ground arith in
              let parts = convert-Parts sha256 r q db db' out c in
              let h1 =
                resulting_action-Untouched r parts.target q db parts.db1 parts.action_id
                  parts.acted in
              let h2 =
                insert_decision-Untouched r parts.target parts.action_id q parts.db1 parts.db2
                  parts.decision_id parts.recorded in
              let h3 =
                submit_to_policy-Untouched r.venture_id parts.decision_id parts.target
                  q.approval_threshold parts.action_id parts.db2 db' out parts.submitted in
              Untouched-trans db parts.db2 db' (Untouched-trans db parts.db1 parts.db2 h1 h2) h3
        ]
      ]
