-- ===== src/Execution/Completions.antt =====
-- What a completion that went through has done.
use aidan_venture_os.Base.{
  ℕ, ◌≡◌, refl, sym, subst, true, false, none, ◌==◌, ◌⊎◌, any, inl, inr, arith, Option-cases,
}
use aidan_venture_os.Db.Rows.{ActionRequest, RunStatus, Verdict}
use aidan_venture_os.Db.Tx.{Db, ok, Result-cases}
use aidan_venture_os.Db.Queries.{find_action}
use aidan_venture_os.Json.Text.{Text}
use aidan_venture_os.Policy.{Decimal}
use aidan_venture_os.Proof.{find_proof, record_receipt}
use aidan_venture_os.Execution.Claim.{authorize}
use aidan_venture_os.Execution.Results.{upsert_result}
use aidan_venture_os.Execution.Complete.{
  Completion, CompletionOutcome, finish_failed, finish_verified, complete_first, complete_execution,
  complete,
}
use aidan_venture_os.Execution.Gate.{authorize_same}
use aidan_venture_os.Execution.Frames.{Frame, upsert_result-Frame}
use aidan_venture_os.Execution.Success.{IsProven, Frame-IsProven}
use aidan_venture_os.Execution.Receipts.{
  Written, IsDone, record_receipt_effect, Written-IsProven, finish_failed-IsProven,
  finish_verified-IsDone,
}

is_verified-cases : (v : Verdict) → (v ≡ Verdict.verified) ⊎ (v ≡ Verdict.failed)
is_verified-cases Verdict.verified = inl refl
is_verified-cases Verdict.failed = inr refl

-- the databases between the steps of a first completion
record First (a v : ℕ) (c : Completion) (out : CompletionOutcome) (db db' : Db) : Type 0 where
  db1 : Db
  db2 : Db
  verdict : Verdict
  proof_id : ℕ
  frame : Frame db db1
  written : Written a verdict proof_id db1 db2
  ending :
      ((verdict ≡ Verdict.verified) × (finish_verified a v c proof_id db2 ≡ ok (out, db')))
      ⊎ ((verdict ≡ Verdict.failed) × (finish_failed a v c proof_id db2 ≡ ok (out, db')))

module _ (sha256 : Text → ℕ) (a : ℕ) (c : Completion) (th : Decimal) (out : CompletionOutcome)
    (db db' : Db) where
  -- what a first completion comes to
  complete_first_effect :
      (act : ActionRequest)
      → complete_first sha256 a c none th act db ≡ ok (out, db')
      → First a act.venture_id c out db db'
  unfolding complete_first
  complete_first_effect act e = elim (Result-cases (authorize sha256 a th db)) [
    | inr (x, f) ↦ absurd (ground arith)
    | inl (v, db0, f) ↦
        let same : db0 ≡ db = authorize_same sha256 a th db v db0 f in
        elim (Result-cases (upsert_result sha256 a c.attempt_id c.report db)) [
          | inr (x, g) ↦ absurd (ground arith)
          | inl (r, db1, g) ↦
              elim (Result-cases (
                record_receipt sha256 a r.0 c.report.reported_outcome c.report.raw_payload
                  c.attempt_id db1)) [
                    | inr (x, k) ↦ absurd (ground arith)
                    | inl ((verdict, i), db2, k) ↦ record {
                      db1 = db1;
                      db2 = db2;
                      verdict = verdict;
                      proof_id = i;
                      frame = upsert_result-Frame sha256 a c.attempt_id c.report db db1 r g;
                      written =
                          record_receipt_effect sha256 a r.0 c.report.reported_outcome
                            c.report.raw_payload c.attempt_id db1 db2 verdict i k;
                      ending = elim (is_verified-cases verdict) [
                        | inl p ↦ inl (p, ground arith)
                        | inr p ↦ inr (p, ground arith)
                      ];
                    }
                  ]
        ]
  ]

  -- a first completion, on a database where success and proof go together
  complete_first-IsProven :
      (act : ActionRequest)
      → complete_first sha256 a c none th act db ≡ ok (out, db')
      → IsProven db
      → find_proof a db.proofs ≡ none
      → any (λ k. k == a) db.specs ≡ false
      → (IsProven db' × ((out.verified ≡ true) → IsDone a out.proof_id db'))
  complete_first-IsProven act e h no_proof no_spec =
      let s = complete_first_effect act e in
      let h1 = Frame-IsProven db s.db1 s.frame h in
      elim s.ending [
        | inl (ver, f) ↦
            let (h', is_done_there, is_id) =
              finish_verified-IsDone a act.venture_id s.proof_id c out s.db1 s.db2 db'
                (subst (λ v. Written a v s.proof_id s.db1 s.db2) ver s.written) h1
                (ground (arith, s.frame.proofs)) (ground (arith, s.frame.specs)) f in
            (h', λ _. subst (λ i. IsDone a i db') (sym is_id) is_done_there)
        | inr (bad, f) ↦
            let h2 =
              Written-IsProven a s.proof_id s.db1 s.db2
                (subst (λ v. Written a v s.proof_id s.db1 s.db2) bad s.written) h1 in
            let (h', _, not_verified) =
              finish_failed-IsProven a act.venture_id c s.proof_id out s.db2 db' f h2 in
            (h', λ done. absurd (ground arith))
      ]

  -- A completion with the built-in verifier that does not raise keeps success and proof together:
  -- where an action was SUCCEEDED just when it had a VERIFIED proof receipt, it still is so.
  pub complete_execution-IsProven :
      complete_execution sha256 a c th db ≡ ok (out, db') → IsProven db → IsProven db'
  unfolding complete_execution complete
  complete_execution-IsProven e h = elim (Option-cases (find_action a db.actions)) [
    | inl p ↦ absurd (ground arith)
    | inr (act, p) ↦ elim (Option-cases (find_proof a db.proofs)) [
      | inr (r, q) ↦ let same : db' ≡ db = ground arith in rw same h
      | inl q ↦ (complete_first-IsProven act (ground arith) h q (ground arith)).0
    ]
  ]

  complete_execution-IsDone :
      complete_execution sha256 a c th db ≡ ok (out, db')
      → IsProven db
      → out.verified ≡ true
      → IsDone a out.proof_id db'
  unfolding complete_execution complete
  complete_execution-IsDone e h done = elim (Option-cases (find_action a db.actions)) [
    | inl p ↦ absurd (ground arith)
    | inr (act, p) ↦ elim (Option-cases (find_proof a db.proofs)) [
      | inl q ↦ (complete_first-IsProven act (ground arith) h q (ground arith)).1 done
      | inr (r, q) ↦
          let same : db' ≡ db = ground arith in
          rw same (record {
            act = act;
            is_act = p;
            succeeded = ground arith;
            receipt = r;
            is_receipt = q;
            with_id = ground arith;
            no_spec = ground arith;
          })
    ]
  ]

  -- Take a completion that reported success, on a database where success and proof went together, and
  -- a later database in which the action's row, its VERIFIED proof and whether it has an execution
  -- specification are as that completion left them. There another completion of the action, whatever
  -- it reports, returns the same proof as a duplicate and changes nothing.
  pub complete_execution_again :
      (c' : Completion) (th' : Decimal) (later : Db)
      → complete_execution sha256 a c th db ≡ ok (out, db')
      → IsProven db
      → out.verified ≡ true
      → find_action a later.actions ≡ find_action a db'.actions
      → find_proof a later.proofs ≡ find_proof a db'.proofs
      → any (λ k. k == a) later.specs ≡ any (λ k. k == a) db'.specs
      → complete_execution sha256 a c' th' later
        ≡ ok (
          record {
            status = RunStatus.succeeded;
            proof_id = out.proof_id;
            verified = true;
            duplicated = true;
          },
          later,
        )
  unfolding complete_execution complete
  complete_execution_again c' th' later e h done same_action same_proof same_spec =
      let d = complete_execution-IsDone e h done in
      ground (arith, d.is_act, d.succeeded, d.is_receipt, d.with_id, d.no_spec)
