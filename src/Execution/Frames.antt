-- ===== src/Execution/Frames.antt =====
-- Steps of a transaction that leave the action requests and the proof receipts alone.
use aidan_venture_os.Base.{ℕ, String, ◌≡◌, Bool, Option, arith}
use aidan_venture_os.Base.Int.{ℤ}
use aidan_venture_os.Db.Rows.{LifecycleState, SafetyMode}
use aidan_venture_os.Db.Tx.{Db, ok, record_event}
use aidan_venture_os.Json.Text.{Text}
use aidan_venture_os.Budget.{
  reserve_budget, reserve_on, release_budget, release_on, reconcile_completion, reconcile_on,
  move_funds, insert_entry,
}
use aidan_venture_os.Lifecycle.{transition}
use aidan_venture_os.Execution.Claim.{create_attempt, AttemptHandle}
use aidan_venture_os.Execution.Results.{Report, upsert_result, insert_result, converge}

pub record Frame (db db' : Db) : Type 0 where
  pub actions : db'.actions ≡ db.actions
  pub proofs : db'.proofs ≡ db.proofs
  pub specs : db'.specs ≡ db.specs

module _ (a : ℕ) (actor : String) (db db' : Db) where
  pub reserve_budget-Frame : (b : Bool) → reserve_budget a actor db ≡ ok (b, db') → Frame db db'
  unfolding reserve_budget reserve_on move_funds insert_entry record_event
  reserve_budget-Frame b e = record {
    actions = ground arith;
    proofs = ground arith;
    specs = ground arith;
  }

  pub release_budget-Frame : (b : Bool) → release_budget a actor db ≡ ok (b, db') → Frame db db'
  unfolding release_budget release_on move_funds insert_entry record_event
  release_budget-Frame b e = record {
    actions = ground arith;
    proofs = ground arith;
    specs = ground arith;
  }

  pub reconcile_completion-Frame :
      (n : ℤ) (u : Unit {0}) → reconcile_completion a n actor db ≡ ok (u, db') → Frame db db'
  unfolding reconcile_completion reconcile_on move_funds insert_entry record_event
  reconcile_completion-Frame n u e = record {
    actions = ground arith;
    proofs = ground arith;
    specs = ground arith;
  }

  pub transition-Frame :
      (s t : LifecycleState) (reason : Option String)
      → transition a s actor reason db ≡ ok (t, db')
      → Frame db db'
  unfolding transition record_event
  transition-Frame s t reason e = record {
    actions = ground arith;
    proofs = ground arith;
    specs = ground arith;
  }

  pub create_attempt-Frame :
      (mode : SafetyMode) (lease : ℕ) (h : AttemptHandle)
      → create_attempt a mode actor lease db ≡ ok (h, db')
      → Frame db db'
  unfolding create_attempt
  create_attempt-Frame mode lease h e = record {
    actions = ground arith;
    proofs = ground arith;
    specs = ground arith;
  }

pub upsert_result-Frame :
    (sha256 : Text → ℕ) (a : ℕ) (i : Option ℕ) (rep : Report) (db db' : Db) (r : ℕ × Bool)
    → upsert_result sha256 a i rep db ≡ ok (r, db')
    → Frame db db'
unfolding upsert_result insert_result converge
upsert_result-Frame sha256 a i rep db db' r e = record {
  actions = ground arith;
  proofs = ground arith;
  specs = ground arith;
}
