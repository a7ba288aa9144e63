-- ===== src/Commitment/Commits.antt =====
-- What a committed recommendation rests on.
use aidan_venture_os.Base.{
  ℕ, ◌≡◌, sym, ap, subst, ◌<◌, ◌∙◌, true, none, some, inl, inr, arith, Option-cases,
}
use aidan_venture_os.Db.Rows.{InvestmentDecision}
use aidan_venture_os.Db.Validation.{Recommendation}
use aidan_venture_os.Db.Tx.{Db, ok}
use aidan_venture_os.Json.Text.{Text}
use aidan_venture_os.NextAction.{find_recommendation}
use aidan_venture_os.Commitment.Gate.{validate_spend_bound}
use aidan_venture_os.Commitment.{
  check_target, commit_recommendation, convert, find_decision, return_decision,
}
use aidan_venture_os.Commitment.Targets.{
  Committed, Request, amount_of, decision_for, is_consequential,
}
use aidan_venture_os.Commitment.Parts.{
  IsGated, IsBounded, IsFresh, Parts, build_gate-IsGated, validate_spend_bound-IsBounded,
  convert-Parts, submit_to_policy_fields,
}

module _ (sha256 : Text → ℕ) (i : ℕ) (q : Request) (db db' : Db) (out : Committed)
    (e : commit_recommendation sha256 i q db ≡ ok (out, db')) (new : out.created ≡ true) where
  -- a commitment that is new converts its recommendation
  commit_recommendation-Parts :
      (r : Recommendation) × (find_recommendation i db.validation.recommendations ≡ some r)
      × (find_decision r.id db.decision_records ≡ none)
      × Parts sha256 r q db db' out
      × (convert sha256 r q db ≡ ok (out, db'))
  unfolding commit_recommendation return_decision
  commit_recommendation-Parts =
      elim (Option-cases (find_recommendation i db.validation.recommendations)) [
        | inl p ↦ absurd (ground arith)
        | inr (r, p) ↦ elim (Option-cases (find_decision r.id db.decision_records)) [
          | inr (d, k) ↦ absurd (ground arith)
          | inl k ↦
              let c : convert sha256 r q db ≡ ok (out, db') = ground arith in
              (r, p, k, convert-Parts sha256 r q db db' out c, c)
        ]
      ]

  -- A new decision is the one that its recommendation maps to, for a recommendation that had none, and
  -- `_decide` on the current database makes a choice with exactly the hash that the recommendation was
  -- stored with.
  pub commit_recommendation-IsFresh :
      (r : Recommendation) × (find_recommendation i db.validation.recommendations ≡ some r)
      × (find_decision r.id db.decision_records ≡ none)
      × (decision_for r.action_type ≡ some out.decision)
      × IsFresh sha256 r db
  commit_recommendation-IsFresh =
      let (r, p, k, parts, c) = commit_recommendation-Parts in
      let fields =
        submit_to_policy_fields sha256 r r.venture_id parts.decision_id parts.target
          q.approval_threshold parts.action_id parts.db2 db' out parts.submitted in
      (r, p, k, parts.mapped ∙ ap some (sym fields.0), parts.basis)

  -- A new BUILD decision has, in the current database, a CANDIDATE opportunity of the venture. A claim
  -- linked to it has support and no contradiction, and its kill case assesses every dimension. Each of
  -- its CRITICAL assumptions has a PASS and neither an INCONCLUSIVE nor a FAIL, and none of its
  -- assumptions has a PASS beside an INCONCLUSIVE. No result of its hypotheses is a FAIL, one is a PASS
  -- with a modality of willingness to pay that applies, and one is a PASS that measures acquisition.
  pub commit_recommendation-IsGated :
      out.decision ≡ InvestmentDecision.build
      → (r : Recommendation) × (find_recommendation i db.validation.recommendations ≡ some r)
        × IsGated r db
  commit_recommendation-IsGated b =
      let (r, p, k, parts, c) = commit_recommendation-Parts in
      let fields =
        submit_to_policy_fields sha256 r r.venture_id parts.decision_id parts.target
          q.approval_threshold parts.action_id parts.db2 db' out parts.submitted in
      let build : parts.target ≡ InvestmentDecision.build = sym fields.0 ∙ b in
      let checked : check_target InvestmentDecision.build r q db ≡ ok (tt, db) =
        subst (λ d. check_target d r q db ≡ ok (tt, db)) build parts.checked in
      (r, p, unfold check_target in build_gate-IsGated r db db tt checked)

  -- A new VALIDATE decision for a positive amount has a selected test of the venture, whose committed
  -- greatest spend covers the amount.
  pub commit_recommendation-IsBounded :
      out.decision ≡ InvestmentDecision.validate
      → 0 < amount_of q
      → (r : Recommendation) × (find_recommendation i db.validation.recommendations ≡ some r)
        × IsBounded r (amount_of q) db
  commit_recommendation-IsBounded b l =
      let (r, p, k, parts, c) = commit_recommendation-Parts in
      let fields =
        submit_to_policy_fields sha256 r r.venture_id parts.decision_id parts.target
          q.approval_threshold parts.action_id parts.db2 db' out parts.submitted in
      let validate : parts.target ≡ InvestmentDecision.validate = sym fields.0 ∙ b in
      let checked : check_target InvestmentDecision.validate r q db ≡ ok (tt, db) =
        subst (λ d. check_target d r q db ≡ ok (tt, db)) validate parts.checked in
      let spends : is_consequential q ≡ true = ground arith in
      let bound : validate_spend_bound r.venture_id r.selected_test_id (amount_of q) db
          ≡ ok (tt, db) =
        unfold check_target in ground arith in
      (r, p, validate_spend_bound-IsBounded r (amount_of q) db db tt bound)
