-- ===== src/Execution/Receipts.antt =====
-- The steps of a completion: the receipt, and what follows a verdict (execution.py, proof.py).
use aidan_venture_os.Base.{
  ℕ, String, ◌≡◌, refl, ap, ◌∙◌, subst, true, false, Option, none, some, ◌∷◌, ◌==◌, ◌⊎◌, find, any,
  update, inl, inr, arith, Option-cases, Bool-cases,
}
use aidan_venture_os.Db.Rows.{ActionRequest, RunStatus, Verdict, ProofReceipt, LifecycleState}
use aidan_venture_os.Db.Tx.{Db, ok, Result-cases, record_event}
use aidan_venture_os.Db.Queries.{find_action, has_action_id}
use aidan_venture_os.Json.Text.{Text}
use aidan_venture_os.Json.Dumps.{Value}
use aidan_venture_os.Json.Canonical.{canonical_payload_hash, or_empty}
use aidan_venture_os.Budget.{release_budget, reconcile_completion}
use aidan_venture_os.Lifecycle.{transition}
use aidan_venture_os.Proof.{find_proof, write_receipt, record_receipt}
use aidan_venture_os.Execution.Status.{set_status, transition_to_success, same_status, with_status}
use aidan_venture_os.Execution.Complete.{
  Completion, CompletionOutcome, change_lifecycle, finish_failed, finish_verified,
}
use aidan_venture_os.Execution.Frames.{
  Frame, release_budget-Frame, reconcile_completion-Frame, transition-Frame,
}
use aidan_venture_os.Execution.Success.{
  IsProven, Frame-IsProven, set_status-IsProven, success-IsProven, find_action-update,
}

-- one receipt for the action has been put in front
pub record Written (a : ℕ) (verdict : Verdict) (i : ℕ) (db db' : Db) : Type 0 where
  pub receipt : ProofReceipt
  pub of_action : receipt.action_id ≡ a
  pub with_verdict : receipt.result ≡ verdict
  pub with_id : receipt.id ≡ i
  pub proofs : db'.proofs ≡ receipt ∷ db.proofs
  pub actions : db'.actions ≡ db.actions
  pub specs : db'.specs ≡ db.specs

pub record_receipt_effect :
    (sha256 : Text → ℕ) (a result_id : ℕ) (reported : String) (raw : Option Value)
    (attempt : Option ℕ) (db db' : Db) (v : Verdict) (i : ℕ)
    → record_receipt sha256 a result_id reported raw attempt db ≡ ok ((v, i), db')
    → Written a v i db db'
unfolding record_receipt write_receipt
record_receipt_effect sha256 a result_id reported raw attempt db db' v i e = record {
  receipt = record {
    id = i;
    action_id = a;
    result_id = result_id;
    attempt_id = attempt;
    verification_type = "token-match-v1";
    verifier = "gate1.deterministic";
    result = v;
    evidence_hash = canonical_payload_hash sha256 (or_empty raw);
  };
  of_action = refl;
  with_verdict = refl;
  with_id = refl;
  proofs = ground arith;
  actions = ground arith;
  specs = ground arith;
}

-- a receipt that is not VERIFIED
pub Written-IsProven :
    (a i : ℕ) (db db' : Db) → Written a Verdict.failed i db db' → IsProven db → IsProven db'
unfolding find_proof find
Written-IsProven a i db db' w h b = rw (w.proofs, w.actions) (ground (arith, h b, w.with_verdict))

-- What `_transition_to_success` has done.
transition_to_success_effect :
    (a : ℕ) (actor : String) (db db' : Db) (u : Unit {0})
    → transition_to_success a actor db ≡ ok (u, db')
    → (act : ActionRequest) × (find_action a db.actions ≡ some act)
      × (db'.proofs ≡ db.proofs)
      × (db'.specs ≡ db.specs)
      × ((same_status act.status RunStatus.succeeded ≡ true)
          ⊎ (db'.actions ≡ update (has_action_id a) (with_status RunStatus.succeeded) db.actions))
unfolding transition_to_success record_event
transition_to_success_effect a actor db db' u e = elim (Option-cases (find_action a db.actions)) [
  | inl p ↦ absurd (ground arith)
  | inr (act, p) ↦ elim (Bool-cases (same_status act.status RunStatus.succeeded)) [
    | inl same ↦ (act, p, ground arith, ground arith, inl same)
    | inr other ↦ (act, p, ground arith, ground arith, inr (ground arith))
  ]
]

change_lifecycle-Frame :
    (v : ℕ) (t : Option LifecycleState) (actor : String) (db db' : Db) (u : Unit {0})
    → change_lifecycle v t actor db ≡ ok (u, db')
    → Frame db db'
change_lifecycle-Frame v none actor db db' u e = record {
  actions = ground arith;
  proofs = ground arith;
  specs = ground arith;
}
change_lifecycle-Frame v (some t) actor db db' u e =
    elim (Result-cases (transition v t actor none db)) [
      | inl (s, mid, f) ↦
          let frame = transition-Frame v actor db mid t s none f in
          let same : db' ≡ mid = ground arith in rw same frame
      | inr (x, f) ↦ absurd (ground arith)
    ]

module _ (a v : ℕ) (c : Completion) (proof_id : ℕ) (out : CompletionOutcome) (db db' : Db) where
  -- What follows a verdict that is not VERIFIED: a release, FAILED, and nothing else of note.
  pub finish_failed-IsProven :
      finish_failed a v c proof_id db ≡ ok (out, db')
      → IsProven db
      → (IsProven db' × (out.duplicated ≡ false) × (out.verified ≡ false))
  unfolding finish_failed record_event
  finish_failed-IsProven e h = elim (Result-cases (release_budget a "budget" db)) [
    | inr (x, f) ↦ absurd (ground arith)
    | inl (b, db1, f) ↦
        elim (Result-cases (set_status a RunStatus.failed c.actor (some "proof_failed") db1)) [
          | inr (x, g) ↦ absurd (ground arith)
          | inl (u, db2, g) ↦
              let h1 = Frame-IsProven db db1 (release_budget-Frame a "budget" db db1 b f) h in
              let h2 =
                set_status-IsProven a RunStatus.failed c.actor (some "proof_failed") db1 db2 u refl
                  g h1 in
              let same : (db'.specs ≡ db2.specs)
                  × (db'.actions ≡ db2.actions)
                  × (db'.proofs ≡ db2.proofs)
                  × (out.duplicated ≡ false)
                  × (out.verified ≡ false) =
                (ground arith, ground arith, ground arith, ground arith, ground arith) in
              (
                Frame-IsProven db2 db'
                    (record { actions = same.1; proofs = same.2; specs = same.0 }) h2,
                same.3,
                same.4,
              )
        ]
  ]

  -- What follows a VERIFIED receipt.
  finish_verified_effect :
      finish_verified a v c proof_id db ≡ ok (out, db')
      → (mid : Db) × (transition_to_success a c.actor db ≡ ok (tt, mid))
        × Frame mid db'
        × (out ≡ record {
          status = RunStatus.succeeded;
          proof_id = proof_id;
          verified = true;
          duplicated = false;
        })
  unfolding finish_verified record_event
  finish_verified_effect e = elim (Result-cases (transition_to_success a c.actor db)) [
    | inr (x, f) ↦ absurd (ground arith)
    | inl (u, mid, f) ↦ elim (Result-cases (reconcile_completion a c.actual_cost "budget" mid)) [
      | inr (x, g) ↦ absurd (ground arith)
      | inl (w, db1, g) ↦ elim (Result-cases (change_lifecycle v c.lifecycle_to c.actor db1)) [
        | inr (x, k) ↦ absurd (ground arith)
        | inl (z, db2, k) ↦
            let f1 = reconcile_completion-Frame a "budget" mid db1 c.actual_cost w g in
            let f2 = change_lifecycle-Frame v c.lifecycle_to c.actor db1 db2 z k in
            let f3 : (db'.actions ≡ db2.actions)
                × (db'.proofs ≡ db2.proofs)
                × (db'.specs ≡ db2.specs) =
              (ground arith, ground arith, ground arith) in
            (
              mid,
              f,
              record {
                actions = f3.0 ∙ f2.actions ∙ f1.actions;
                proofs = f3.1 ∙ f2.proofs ∙ f1.proofs;
                specs = f3.2 ∙ f2.specs ∙ f1.specs;
              },
              ground arith,
            )
      ]
    ]
  ]

-- an action that has been completed with success, under the receipt `i`
pub record IsDone (a i : ℕ) (db : Db) : Type 0 where
  pub act : ActionRequest
  pub is_act : find_action a db.actions ≡ some act
  pub succeeded : same_status act.status RunStatus.succeeded ≡ true
  pub receipt : ProofReceipt
  pub is_receipt : find_proof a db.proofs ≡ some receipt
  pub with_id : receipt.id ≡ i
  pub no_spec : any (λ k. k == a) db.specs ≡ false

-- A first completion: the receipt `r` has just been written on `db1`, giving `db2`.
module _ (a v i : ℕ) (c : Completion) (out : CompletionOutcome) (db1 db2 db' : Db) where
  pub finish_verified-IsDone :
      Written a Verdict.verified i db1 db2
      → IsProven db1
      → find_proof a db1.proofs ≡ none
      → any (λ k. k == a) db1.specs ≡ false
      → finish_verified a v c i db2 ≡ ok (out, db')
      → (IsProven db' × IsDone a i db' × (out.proof_id ≡ i))
  finish_verified-IsDone w h no_proof no_spec e =
      let (mid, f, frame, is_out) = finish_verified_effect a v c i out db2 db' e in
      let (act, p, proofs, specs, how) = transition_to_success_effect a c.actor db2 mid tt f in
      elim how [
        | inl done ↦ absurd (ground (arith, h a, w.actions))
        | inr changed ↦
            let there : find_action a db1.actions ≡ some act =
              subst (λ t. find_action a t ≡ some act) w.actions p in
            let proven : IsProven mid =
              success-IsProven a db1 mid w.receipt h (ground arith) w.of_action w.with_verdict
                (changed
                  ∙ ap (λ t. update (has_action_id a) (with_status RunStatus.succeeded) t)
                      w.actions)
                (proofs ∙ w.proofs) in
            let moved : find_action a
                  (update (has_action_id a) (with_status RunStatus.succeeded) db1.actions)
                ≡ some (with_status RunStatus.succeeded act) =
              ground (arith, find_action-update a a RunStatus.succeeded db1.actions) in
            (
              Frame-IsProven mid db' frame proven,
              record {
                act = with_status RunStatus.succeeded act;
                is_act =
                    ap (find_action a) (
                      frame.actions
                      ∙ changed
                      ∙ ap (update (has_action_id a) (with_status RunStatus.succeeded)) w.actions)
                    ∙ moved;
                succeeded = refl;
                receipt = w.receipt;
                is_receipt =
                    rw (frame.proofs, proofs, w.proofs)
                      (unfold find_proof find in ground (arith, w.of_action, w.with_verdict));
                with_id = w.with_id;
                no_spec = rw (frame.specs, specs, w.specs) no_spec;
              },
              ground (arith, is_out),
            )
      ]
