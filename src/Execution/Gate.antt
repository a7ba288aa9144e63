-- ===== src/Execution/Gate.antt =====
-- Nothing is claimed and nothing is completed past the policy.
use aidan_venture_os.Base.{
  ◌⊎◌, refl, ℕ, String, ◌≡◌, true, Option, some, inl, inr, arith, is_some, Option-cases,
}
use aidan_venture_os.Db.Rows.{ActionRequest, Venture, PolicyOutcome, SafetyMode}
use aidan_venture_os.Db.Tx.{Db, Error, ok, err}
use aidan_venture_os.Db.Queries.{find_action, find_venture}
use aidan_venture_os.Json.Text.{Text}
use aidan_venture_os.KillSwitch.{is_killed}
use aidan_venture_os.Policy.{
  Decimal, evaluate, input_of, current_evaluation, load_policy_input, decide,
}
use aidan_venture_os.Approvals.{valid_approval}
use aidan_venture_os.Proof.{find_proof}
use aidan_venture_os.Execution.Claim.{authorize, authorize_and_claim}
use aidan_venture_os.Execution.Complete.{
  Completion, CompletionOutcome, ProofHook, complete, complete_first,
}

outcome-cases :
    (o : PolicyOutcome)
    → (o ≡ PolicyOutcome.allow) ⊎ ((o ≡ PolicyOutcome.deny) ⊎ (o ≡ PolicyOutcome.require_approval))
outcome-cases PolicyOutcome.allow = inl refl
outcome-cases PolicyOutcome.deny = inr (inl refl)
outcome-cases PolicyOutcome.require_approval = inr (inr refl)

-- What an authorization has found: the current policy allows the action, or it asks for an approval
-- and there is a valid one for exactly the current inputs.
pub record IsAuthorized (sha256 : Text → ℕ) (a : ℕ) (threshold : Decimal) (db : Db) : Type 0 where
  pub act : ActionRequest
  pub venture : Venture
  pub is_act : find_action a db.actions ≡ some act
  pub is_venture : find_venture act.venture_id db.ventures ≡ some venture
  pub cleared :
      ((evaluate sha256 (input_of act venture threshold db)).decision ≡ PolicyOutcome.allow)
      ⊎ (((evaluate sha256 (input_of act venture threshold db)).decision
            ≡ PolicyOutcome.require_approval)
          × (is_some (
                valid_approval a
                  (evaluate sha256 (input_of act venture threshold db)).inputs_hash
                  db)
              ≡ true))

module _ (sha256 : Text → ℕ) (a : ℕ) (threshold : Decimal) (db : Db) where
  pub authorize_same : (v : ℕ) (db' : Db) → authorize sha256 a threshold db ≡ ok (v, db') → db' ≡ db
  unfolding authorize current_evaluation load_policy_input
  authorize_same v db' e = ground arith

  pub authorize_sound :
      (v : ℕ) (db' : Db)
      → authorize sha256 a threshold db ≡ ok (v, db')
      → IsAuthorized sha256 a threshold db
  unfolding authorize current_evaluation load_policy_input
  authorize_sound v db' e = elim (Option-cases (find_action a db.actions)) [
    | inl p ↦ absurd (ground arith)
    | inr (act, p) ↦ elim (Option-cases (find_venture act.venture_id db.ventures)) [
      | inl q ↦ absurd (ground arith)
      | inr (venture, q) ↦ record {
        act = act;
        venture = venture;
        is_act = p;
        is_venture = q;
        cleared =
            elim (outcome-cases (evaluate sha256 (input_of act venture threshold db)).decision) [
              | inl d ↦ inl d
              | inr (inl d) ↦ absurd (ground arith)
              | inr (inr d) ↦ inr (d, ground arith)
            ];
      }
    ]
  ]

  -- while a kill switch is on, nothing of the venture is authorized
  authorize_killed :
      (act : ActionRequest) (venture : Venture)
      → find_action a db.actions ≡ some act
      → find_venture act.venture_id db.ventures ≡ some venture
      → is_killed act.venture_id db ≡ true
      → authorize sha256 a threshold db ≡ err Error.execution_blocked
  unfolding authorize current_evaluation load_policy_input evaluate decide input_of is_killed
  authorize_killed act venture p q k = ground arith

  -- While a kill switch is on, GLOBAL or of the venture, an action of the venture cannot be claimed.
  pub authorize_and_claim_killed :
      (act : ActionRequest) (venture : Venture) (mode : SafetyMode) (ref : String) (lease : ℕ)
      → find_action a db.actions ≡ some act
      → find_venture act.venture_id db.ventures ≡ some venture
      → is_killed act.venture_id db ≡ true
      → authorize_and_claim sha256 a mode ref lease threshold db ≡ err Error.execution_blocked
  unfolding authorize_and_claim
  authorize_and_claim_killed act venture mode ref lease p q k =
      ground (arith, authorize_killed act venture p q k)

  -- While a kill switch is on, GLOBAL or of the venture, the most that a completion can do for an
  -- action of the venture is to report an earlier success, and then it changes nothing.
  pub complete_killed :
      (act : ActionRequest) (venture : Venture) (c : Completion) (hook : Option ProofHook)
      (out : CompletionOutcome) (db' : Db)
      → find_action a db.actions ≡ some act
      → find_venture act.venture_id db.ventures ≡ some venture
      → is_killed act.venture_id db ≡ true
      → complete sha256 a c hook threshold db ≡ ok (out, db')
      → (out.duplicated ≡ true) × (db' ≡ db)
  unfolding complete complete_first
  complete_killed act venture c hook out db' p q k e =
      elim (Option-cases (find_proof a db.proofs)) [
        | inl none_yet ↦ ground (arith, authorize_killed act venture p q k)
        | inr (r, there) ↦ ground arith
      ]
