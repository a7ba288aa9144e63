-- ===== src/Commitment/Again.antt =====
-- A second commitment of a recommendation returns the first one.
use aidan_venture_os.Base.{
  ℕ, ◌≡◌, ap, ◌∙◌, false, Option, none, some, ◌∷◌, inl, inr, arith, find, Option-cases,
}
use aidan_venture_os.Db.Rows.{InvestmentDecision}
use aidan_venture_os.Db.Validation.{Recommendation}
use aidan_venture_os.Db.Tx.{Db, ok, Result-cases, record_event}
use aidan_venture_os.Json.Text.{Text}
use aidan_venture_os.Policy.{
  Decimal, PolicyResult, current_evaluation, load_policy_input, persist_decision,
}
use aidan_venture_os.Approvals.{create_pending}
use aidan_venture_os.Actions.{create_action}
use aidan_venture_os.Execution.Status.{set_status}
use aidan_venture_os.Execution.Claim.{open_approval}
use aidan_venture_os.NextAction.{find_recommendation}
use aidan_venture_os.Commitment.{
  approval_ttl, commit_recommendation, convert, existing_policy, find_decision, insert_decision,
  intake_action, new_decision, policy_id, policy_outcome, resulting_action, return_decision,
  submit_to_policy,
}
use aidan_venture_os.Commitment.Targets.{Committed, Request}
use aidan_venture_os.Commitment.Parts.{convert-Parts, submit_to_policy_fields}

-- no decision and no recommendation has changed
record KeepsDecisions (db db' : Db) : Type 0 where
  decisions : db'.decision_records ≡ db.decision_records
  recommendations : db'.validation.recommendations ≡ db.validation.recommendations

module _ (sha256 : Text → ℕ) where
  open_approval-keeps :
      (a j ttl : ℕ) (res : PolicyResult) (db db' : Db) (m : Option ℕ)
      → open_approval sha256 a j res ttl db ≡ ok (m, db')
      → KeepsDecisions db db' × (db'.policy_decisions ≡ db.policy_decisions)
  unfolding open_approval create_pending set_status record_event
  open_approval-keeps a j ttl res db db' m e =
      (record { decisions = ground arith; recommendations = ground arith }, ground arith)

  resulting_action-keeps :
      (r : Recommendation) (d : InvestmentDecision) (q : Request) (db db' : Db) (a : Option ℕ)
      → resulting_action sha256 r d q db ≡ ok (a, db')
      → KeepsDecisions db db'
  unfolding resulting_action intake_action create_action record_event
  resulting_action-keeps r d q db db' a e = record {
    decisions = ground arith;
    recommendations = ground arith;
  }

  -- the policy decision that a later call finds is the one of this call
  submit_to_policy-keeps :
      (v i : ℕ) (d : InvestmentDecision) (th : Decimal) (a : Option ℕ) (db db' : Db)
      (out : Committed)
      → submit_to_policy sha256 v i d th a db ≡ ok (out, db')
      → KeepsDecisions db db'
        × (out.decision_id ≡ i)
        × (policy_outcome (existing_policy a db'.policy_decisions) ≡ out.policy_decision)
        × (policy_id (existing_policy a db'.policy_decisions) ≡ out.policy_decision_id)
  unfolding submit_to_policy existing_policy find
  submit_to_policy-keeps v i d th none db db' out e = (
    record { decisions = ground arith; recommendations = ground arith },
    ground arith,
    ground arith,
    ground arith,
  )
  submit_to_policy-keeps v i d th (some a) db db' out e =
      elim (Result-cases (current_evaluation sha256 a th db)) [
        | inr (x, p) ↦ absurd (ground arith)
        | inl (found, db1, p) ↦
            let here : db1 ≡ db = unfold current_evaluation load_policy_input in ground arith in
            elim (Result-cases (persist_decision a v found.0 found.2 db1)) [
              | inr (x, q) ↦ absurd (ground arith)
              | inl (j, db2, q) ↦
                  elim (Result-cases (open_approval sha256 a j found.0 approval_ttl db2)) [
                    | inr (x, k) ↦ absurd (ground arith)
                    | inl (m, db3, k) ↦
                        let kept = open_approval-keeps a j approval_ttl found.0 db2 db3 m k in
                        let decisions = kept.0.decisions in
                        let recommendations = kept.0.recommendations in
                        let policies = kept.1 in
                        unfold persist_decision record_event in
                        (
                          record { decisions = ground arith; recommendations = ground arith },
                          ground arith,
                          ground arith,
                          ground arith,
                        )
                  ]
            ]
      ]

  module _ (i : ℕ) (q q' : Request) (db db' : Db) (out : Committed) where
    -- After a commitment that went through, a further one of the same recommendation, whatever it asks
    -- for, returns the same decision, the same resulting action and the same policy decision. It creates
    -- nothing and leaves the database as it is.
    pub commit_again :
        commit_recommendation sha256 i q db ≡ ok (out, db')
        → commit_recommendation sha256 i q' db'
          ≡ ok (record out { created = false; approval_id = none }, db')
    unfolding commit_recommendation return_decision
    commit_again e = elim (Option-cases (find_recommendation i db.validation.recommendations)) [
      | inl p ↦ absurd (ground arith)
      | inr (r, p) ↦ elim (Option-cases (find_decision r.id db.decision_records)) [
        | inr (d, k) ↦ ground arith
        | inl k ↦
            let c : convert sha256 r q db ≡ ok (out, db') = ground arith in
            let parts = convert-Parts sha256 r q db db' out c in
            let fields =
              submit_to_policy_fields sha256 r r.venture_id parts.decision_id parts.target
                q.approval_threshold parts.action_id parts.db2 db' out parts.submitted in
            let kept =
              submit_to_policy-keeps r.venture_id parts.decision_id parts.target
                q.approval_threshold parts.action_id parts.db2 db' out parts.submitted in
            let kept1 =
              resulting_action-keeps r parts.target q db parts.db1 parts.action_id parts.acted in
            let added : parts.db2.decision_records ≡ (
                new_decision r parts.target parts.action_id parts.decision_id
                ∷ parts.db1.decision_records) =
              unfold insert_decision record_event in ground (arith, parts.recorded) in
            let same : parts.db2.validation.recommendations ≡ parts.db1.validation.recommendations =
              unfold insert_decision record_event in ground (arith, parts.recorded) in
            let here : find_recommendation i db'.validation.recommendations ≡ some r =
              ap (find_recommendation i) (kept.0.recommendations ∙ same ∙ kept1.recommendations)
              ∙ p in
            let there : find_decision r.id db'.decision_records
                ≡ some (new_decision r parts.target parts.action_id parts.decision_id) =
              ap (find_decision r.id) (kept.0.decisions ∙ added)
              ∙ (unfold find_decision find in ground arith) in
            ground (arith, here, there, fields.0, fields.2, kept.1, kept.2, kept.3)
      ]
    ]
