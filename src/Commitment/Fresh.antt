-- ===== src/Commitment/Fresh.antt =====
-- A recommendation that has just been made can be committed.
use aidan_venture_os.Base.{
  ℕ, String, ◌≡◌, refl, sym, ◌∙◌, true, false, none, some, inl, inr, arith, find, any, str_eq,
}
use aidan_venture_os.Db.Rows.{InvestmentDecision}
use aidan_venture_os.Db.Validation.{NextAction, Recommendation}
use aidan_venture_os.Db.Tx.{Db, ok, record_event, Result-cases}
use aidan_venture_os.Db.Queries.{has_venture_id}
use aidan_venture_os.Json.Text.{Text}
use aidan_venture_os.NextAction.{
  Recommended, current_basis, decide, find_recommendation, insert_recommendation,
  new_recommendation, recommend, return_recommendation,
}
use aidan_venture_os.NextAction.Freshness.{
  decide-Agree, insert_recommendation_effect, recommend_choice,
}
use aidan_venture_os.Commitment.{
  assert_not_stale, check_target, commit_recommendation, convert, find_decision, insert_decision,
  resulting_action, submit_to_policy,
}
use aidan_venture_os.Commitment.Targets.{Committed, Request}

module _ (sha256 : Text → ℕ) (v o : ℕ) (key actor : String) (db db' : Db) (out : Recommended)
    (e : recommend sha256 v o key actor db ≡ ok (out, db')) (new : out.created ≡ true) where
  -- the stored row, and that it is not stale
  recommend_row :
      (r : Recommendation) × (find_recommendation out.recommendation_id
          db'.validation.recommendations
        ≡ some r)
      × (r.id ≡ out.recommendation_id)
      × (r.action_type ≡ out.action_type)
      × (r.venture_id ≡ v)
      × (assert_not_stale sha256 r db' ≡ ok (tt, db'))
      × (db'.decision_records ≡ db.decision_records)
      × (db'.ventures ≡ db.ventures)
  recommend_row =
      let (c, here, named, ways) = recommend_choice sha256 v o key actor db db' out e in
      elim ways [
        | inr (r, q, e') ↦ absurd (unfold return_recommendation in ground arith)
        | inl (e', q) ↦
            let i : insert_recommendation sha256 v o key c actor db ≡ ok (out, db') = sym e' ∙ e in
            let row = insert_recommendation_effect sha256 v o key c actor db db' out i in
            let there : decide v o db' ≡ ok (c, db') = decide-Agree db db' row.0 v o db c here in
            let added = row.1 in
            let given = row.2 in
            let kept : db'.decision_records ≡ db.decision_records =
              unfold insert_recommendation record_event in ground arith in
            (
              new_recommendation sha256 db.next_id v o key c,
              unfold find_recommendation find in ground arith,
              ground arith,
              ground arith,
              refl,
              unfold assert_not_stale current_basis in ground arith,
              kept,
              row.0.ventures,
            )
      ]

  -- Where a new recommendation is KILL, its venture is there, no decision refers to its identifier and
  -- the actor is named, committing it without an amount goes through with a new KILL decision that has
  -- no action.
  pub commit-kill_succeeds :
      (q : Request)
      → out.action_type ≡ NextAction.kill
      → q.decision ≡ none
      → q.requested_amount ≡ none
      → str_eq q.actor "" ≡ false
      → any (has_venture_id v) db.ventures ≡ true
      → find_decision out.recommendation_id db.decision_records ≡ none
      → (c : Committed) × (db2 : Db) × (commit_recommendation sha256 out.recommendation_id q db'
          ≡ ok (c, db2))
        × (c.decision ≡ InvestmentDecision.kill)
        × (c.resulting_action_id ≡ none)
        × (c.created ≡ true)
  unfolding commit_recommendation convert check_target resulting_action insert_decision
      submit_to_policy record_event
  commit-kill_succeeds q k d n a w f =
      let (r, found, id, action, venture, fresh, kept, ventures) = recommend_row in
      let decision : find_decision r.id db'.decision_records ≡ none = rw id (rw kept f) in
      let home : any (has_venture_id r.venture_id) db'.ventures ≡ true =
        rw venture (rw ventures w) in
      let mapped : r.action_type ≡ NextAction.kill = action ∙ k in
      elim (Result-cases (commit_recommendation sha256 out.recommendation_id q db')) [
        | inl (c, db2, p) ↦ (c, db2, p, ground arith, ground arith, ground arith)
        | inr (x, p) ↦ absurd (ground arith)
      ]
