-- ===== src/Execution/Failures.antt =====
-- What a failed attempt does to success and proof (execution.py, `fail_attempt`).
use aidan_venture_os.Base.{
  ℕ, String, ◌≡◌, refl, Bool, true, false, Option, none, some, inl, inr, arith,
}
use aidan_venture_os.Db.Rows.{RunStatus}
use aidan_venture_os.Db.Tx.{Db, ok, Result-cases, record_event}
use aidan_venture_os.Budget.{release_budget}
use aidan_venture_os.Execution.Status.{set_status, same_status}
use aidan_venture_os.Execution.Complete.{mark_failed, release_if, disposition, fail_attempt}
use aidan_venture_os.Execution.Frames.{Frame, release_budget-Frame}
use aidan_venture_os.Execution.Success.{IsProven, Frame-IsProven, set_status-IsProven}

mark_failed-Frame :
    (i : Option ℕ) (class : String) (db db' : Db) (u : Unit {0})
    → mark_failed i class db ≡ ok (u, db')
    → Frame db db'
mark_failed-Frame none class db db' u e = record {
  actions = ground arith;
  proofs = ground arith;
  specs = ground arith;
}
mark_failed-Frame (some i) class db db' u e = record {
  actions = ground arith;
  proofs = ground arith;
  specs = ground arith;
}

release_if-Frame :
    (terminal : Bool) (a : ℕ) (db db' : Db) (u : Unit {0})
    → release_if terminal a db ≡ ok (u, db')
    → Frame db db'
release_if-Frame false a db db' u e = record {
  actions = ground arith;
  proofs = ground arith;
  specs = ground arith;
}
release_if-Frame true a db db' u e = elim (Result-cases (release_budget a "budget" db)) [
  | inr (x, f) ↦ absurd (ground arith)
  | inl (b, mid, f) ↦
      let same : db' ≡ mid = ground arith in rw same (release_budget-Frame a "budget" db mid b f)
]

disposition_unfinished :
    (terminal : Bool) → same_status (disposition terminal) RunStatus.succeeded ≡ false
disposition_unfinished true = refl
disposition_unfinished false = refl

-- A failed attempt, terminal or not, keeps success and proof together: where an action was SUCCEEDED
-- just when it had a VERIFIED proof receipt, it still is so.
pub fail_attempt-IsProven :
    (a : ℕ) (i : Option ℕ) (class : String) (terminal : Bool) (actor : String) (db db' : Db)
    (s : RunStatus)
    → fail_attempt a i class terminal actor db ≡ ok (s, db')
    → IsProven db
    → IsProven db'
unfolding fail_attempt record_event
fail_attempt-IsProven a i class terminal actor db db' s e h =
    elim (Result-cases (mark_failed i class db)) [
      | inr (x, f) ↦ absurd (ground arith)
      | inl (u, db1, f) ↦ elim (Result-cases (release_if terminal a db1)) [
        | inr (x, g) ↦ absurd (ground arith)
        | inl (v, db2, g) ↦
            elim (Result-cases (set_status a (disposition terminal) actor (some class) db2)) [
              | inr (x, k) ↦ absurd (ground arith)
              | inl (w, db3, k) ↦
                  let h1 = Frame-IsProven db db1 (mark_failed-Frame i class db db1 u f) h in
                  let h2 = Frame-IsProven db1 db2 (release_if-Frame terminal a db1 db2 v g) h1 in
                  let h3 =
                    set_status-IsProven a (disposition terminal) actor (some class) db2 db3 w
                      (disposition_unfinished terminal) k h2 in
                  Frame-IsProven db3 db'
                    (record { actions = ground arith; proofs = ground arith; specs = ground arith })
                    h3
            ]
      ]
    ]
