-- ===== src/Recovery/Truth.antt =====
-- Recovery and the agreement of success and proof.
use aidan_venture_os.Base.{
  ℕ, ◌≡◌, refl, Option, none, some, inl, inr, arith, Option-cases, Bool-cases, any, leb,
}
use aidan_venture_os.Db.Rows.{AttemptStatus, ExecutionAttempt, RunStatus, SafetyMode}
use aidan_venture_os.Db.Tx.{Db, ok, Result-cases, record_event}
use aidan_venture_os.Db.Queries.{find_action}
use aidan_venture_os.Json.Text.{Text}
use aidan_venture_os.Execution.Status.{set_status, same_status}
use aidan_venture_os.Execution.Claim.{create_attempt, is_attempt_status}
use aidan_venture_os.Execution.Results.{Report, upsert_result}
use aidan_venture_os.Execution.Frames.{Frame, create_attempt-Frame, upsert_result-Frame}
use aidan_venture_os.Execution.Success.{IsProven, Frame-IsProven, set_status-IsProven}
use aidan_venture_os.Execution.Complete.{set_attempt}
use aidan_venture_os.Recovery.{
  Outcome, Reconciler, latest_attempt, is_result_of, recover_action, recover_attempt,
  recover_expired, hold_unsafe, surface_result, reconcile, reclaim, resume_status, is_mode, ask,
}

surface_result-Frame :
    (a : ℕ) (r : ExecutionAttempt) (db db' : Db) (out : Outcome)
    → surface_result a r db ≡ ok (out, db')
    → Frame db db'
unfolding surface_result record_event
surface_result-Frame a r db db' out e = record {
  actions = ground arith;
  proofs = ground arith;
  specs = ground arith;
}

hold_unsafe-IsProven :
    (a : ℕ) (r : ExecutionAttempt) (db db' : Db) (out : Outcome)
    → hold_unsafe a r db ≡ ok (out, db')
    → IsProven db
    → IsProven db'
unfolding hold_unsafe record_event
hold_unsafe-IsProven a r db db' out e h =
    elim (Result-cases (set_attempt (some r.id) AttemptStatus.recovery_required db)) [
      | inr (x, f) ↦ absurd (ground arith)
      | inl (u, db1, f) ↦
          elim (Result-cases (set_status a RunStatus.recovery_required "recovery" none db1)) [
            | inr (x, g) ↦ absurd (ground arith)
            | inl (v, db2, g) ↦
                let h1 =
                  Frame-IsProven db db1
                    (record { actions = ground arith; proofs = ground arith; specs = ground arith })
                    h in
                let h2 =
                  set_status-IsProven a RunStatus.recovery_required "recovery" none db1 db2 v refl g
                    h1 in
                Frame-IsProven db2 db'
                  (record { actions = ground arith; proofs = ground arith; specs = ground arith })
                  h2
          ]
    ]

resume_status-IsProven :
    (a : ℕ) (s : RunStatus) (db db' : Db) (u : Unit {0})
    → resume_status a s db ≡ ok (u, db')
    → IsProven db
    → IsProven db'
unfolding resume_status
resume_status-IsProven a s db db' u e h =
    elim (Bool-cases (same_status s RunStatus.recovery_required)) [
      | inl p ↦
          set_status-IsProven a RunStatus.running "recovery" none db db' u refl (ground arith) h
      | inr p ↦ let same : db' ≡ db = ground arith in rw same h
    ]

reclaim-IsProven :
    (a : ℕ) (s : RunStatus) (r : ExecutionAttempt) (lease : ℕ) (db db' : Db) (out : Outcome)
    → reclaim a s r lease db ≡ ok (out, db')
    → IsProven db
    → IsProven db'
unfolding reclaim record_event
reclaim-IsProven a s r lease db db' out e h =
    elim (Result-cases (set_attempt (some r.id) AttemptStatus.abandoned db)) [
      | inr (x, f) ↦ absurd (ground arith)
      | inl (u, db1, f) ↦
          elim (Result-cases (create_attempt a r.safety_mode "recovery" lease db1)) [
            | inr (x, g) ↦ absurd (ground arith)
            | inl (n, db2, g) ↦ elim (Result-cases (resume_status a s db2)) [
              | inr (x, k) ↦ absurd (ground arith)
              | inl (v, db3, k) ↦
                  let h1 =
                    Frame-IsProven db db1
                      (record {
                        actions = ground arith;
                        proofs = ground arith;
                        specs = ground arith;
                      })
                      h in
                  let h2 =
                    Frame-IsProven db1 db2
                      (create_attempt-Frame a "recovery" db1 db2 r.safety_mode lease n g) h1 in
                  let h3 = resume_status-IsProven a s db2 db3 v k h2 in
                  Frame-IsProven db3 db'
                    (record { actions = ground arith; proofs = ground arith; specs = ground arith })
                    h3
            ]
          ]
    ]

module _ (sha256 : Text → ℕ) (a : ℕ) where
  reconcile-IsProven :
      (r : ExecutionAttempt) (rep : Report) (db db' : Db) (out : Outcome)
      → reconcile sha256 a r rep db ≡ ok (out, db')
      → IsProven db
      → IsProven db'
  unfolding reconcile record_event
  reconcile-IsProven r rep db db' out e h =
      elim (Result-cases (upsert_result sha256 a (some r.id) rep db)) [
        | inr (x, f) ↦ absurd (ground arith)
        | inl (u, db1, f) ↦
            let h1 =
              Frame-IsProven db db1 (upsert_result-Frame sha256 a (some r.id) rep db db1 u f) h in
            Frame-IsProven db1 db'
              (record { actions = ground arith; proofs = ground arith; specs = ground arith }) h1
      ]

  recover_expired-IsProven :
      (s : RunStatus) (r : ExecutionAttempt) (reconciler : Option Reconciler) (lease : ℕ)
      (db db' : Db) (out : Outcome)
      → recover_expired sha256 a s r reconciler lease db ≡ ok (out, db')
      → IsProven db
      → IsProven db'
  unfolding recover_expired
  recover_expired-IsProven s r reconciler lease db db' out e h =
      elim (Bool-cases (is_mode r.safety_mode SafetyMode.unsafe)) [
        | inl p ↦ hold_unsafe-IsProven a r db db' out (ground arith) h
        | inr p ↦ elim (Option-cases (ask reconciler r.safety_mode a)) [
          | inl q ↦ reclaim-IsProven a s r lease db db' out (ground arith) h
          | inr (rep, q) ↦ reconcile-IsProven r rep db db' out (ground arith) h
        ]
      ]

  recover_attempt-IsProven :
      (s : RunStatus) (r : ExecutionAttempt) (reconciler : Option Reconciler) (lease : ℕ)
      (db db' : Db) (out : Outcome)
      → recover_attempt sha256 a s r reconciler lease db ≡ ok (out, db')
      → IsProven db
      → IsProven db'
  unfolding recover_attempt
  recover_attempt-IsProven s r reconciler lease db db' out e h =
      elim (Bool-cases (is_attempt_status r.status AttemptStatus.claimed)) [
        | inr p ↦ let same : db' ≡ db = ground arith in rw same h
        | inl p ↦ elim (Bool-cases (any (is_result_of a) db.results)) [
          | inl q ↦ Frame-IsProven db db' (surface_result-Frame a r db db' out (ground arith)) h
          | inr q ↦ elim (Bool-cases (leb r.lease_expires_at db.now)) [
            | inr k ↦ let same : db' ≡ db = ground arith in rw same h
            | inl k ↦ recover_expired-IsProven s r reconciler lease db db' out (ground arith) h
          ]
        ]
      ]

  -- Recovery keeps success and proof together: where an action was SUCCEEDED just when it had a
  -- VERIFIED proof receipt, it still is so, whatever the reconciler answers.
  pub recover_action-IsProven :
      (reconciler : Option Reconciler) (lease : ℕ) (db db' : Db) (out : Outcome)
      → recover_action sha256 a reconciler lease db ≡ ok (out, db')
      → IsProven db
      → IsProven db'
  unfolding recover_action
  recover_action-IsProven reconciler lease db db' out e h =
      elim (Option-cases (find_action a db.actions)) [
        | inl p ↦ let same : db' ≡ db = ground arith in rw same h
        | inr (act, p) ↦ elim (Option-cases (latest_attempt a db.attempts)) [
          | inl q ↦ let same : db' ≡ db = ground arith in rw same h
          | inr (r, q) ↦
              recover_attempt-IsProven act.status r reconciler lease db db' out (ground arith) h
        ]
      ]
