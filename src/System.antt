-- ===== src/System.antt =====
-- Sequences of the kernel's transactions on actions, capital and the lifecycle.
use aidan_venture_os.Base.{ℕ, String, ◌≡◌, Bool, Option}
use aidan_venture_os.Db.Rows.{LifecycleState, RunStatus, SafetyMode}
use aidan_venture_os.Db.Tx.{Db, ok}
use aidan_venture_os.Json.Text.{Text}
use aidan_venture_os.Policy.{Decimal}
use aidan_venture_os.Budget.{reserve_budget, release_budget}
use aidan_venture_os.Lifecycle.{transition}
use aidan_venture_os.Execution.Claim.{
  authorize_and_claim, AttemptHandle, request_execution, RequestOutcome,
}
use aidan_venture_os.Execution.Complete.{
  Completion, CompletionOutcome, complete_execution, fail_attempt,
}
use aidan_venture_os.Execution.Frames.{reserve_budget-Frame, release_budget-Frame, transition-Frame}
use aidan_venture_os.Execution.Success.{IsProven, Frame-IsProven}
use aidan_venture_os.Execution.Requests.{request_execution-IsProven}
use aidan_venture_os.Execution.Claims.{claim-IsProven}
use aidan_venture_os.Execution.Completions.{complete_execution-IsProven}
use aidan_venture_os.Execution.Failures.{fail_attempt-IsProven}
use aidan_venture_os.Recovery.{Outcome, Reconciler, recover_action}
use aidan_venture_os.Recovery.Truth.{recover_action-IsProven}

-- One transaction that does not raise, with any parameters. One that raises changes nothing.
pub data Step (sha256 : Text → ℕ) (db db' : Db) : Type 0 where
  requested :
      (a : ℕ) (th : Decimal) (ttl : ℕ) (out : RequestOutcome)
      → request_execution sha256 a th ttl db ≡ ok (out, db')
      → Step sha256 db db'
  claimed :
      (a : ℕ) (mode : SafetyMode) (ref : String) (lease : ℕ) (th : Decimal) (h : AttemptHandle)
      → authorize_and_claim sha256 a mode ref lease th db ≡ ok (h, db')
      → Step sha256 db db'
  completed :
      (a : ℕ) (c : Completion) (th : Decimal) (out : CompletionOutcome)
      → complete_execution sha256 a c th db ≡ ok (out, db')
      → Step sha256 db db'
  attempt_failed :
      (a : ℕ) (i : Option ℕ) (class : String) (terminal : Bool) (actor : String) (s : RunStatus)
      → fail_attempt a i class terminal actor db ≡ ok (s, db')
      → Step sha256 db db'
  recovered :
      (a : ℕ) (reconciler : Option Reconciler) (lease : ℕ) (out : Outcome)
      → recover_action sha256 a reconciler lease db ≡ ok (out, db')
      → Step sha256 db db'
  reserved :
      (a : ℕ) (actor : String) (b : Bool)
      → reserve_budget a actor db ≡ ok (b, db')
      → Step sha256 db db'
  released :
      (a : ℕ) (actor : String) (b : Bool)
      → release_budget a actor db ≡ ok (b, db')
      → Step sha256 db db'
  moved :
      (v : ℕ) (s t : LifecycleState) (actor : String) (reason : Option String)
      → transition v s actor reason db ≡ ok (t, db')
      → Step sha256 db db'

-- any number of them, in any order
pub data Run (sha256 : Text → ℕ) : Db → Db → Type 0 where
  stop : {db : Db} → Run sha256 db db
  next : {db mid db' : Db} → Step sha256 db mid → Run sha256 mid db' → Run sha256 db db'

Step-IsProven : (sha256 : Text → ℕ) (db db' : Db) → Step sha256 db db' → IsProven db → IsProven db'
Step-IsProven sha256 db db' (Step.requested a th ttl out e) h =
    request_execution-IsProven sha256 a th ttl db db' out e h
Step-IsProven sha256 db db' (Step.claimed a mode ref lease th w e) h =
    claim-IsProven sha256 a mode ref lease th db db' w e h
Step-IsProven sha256 db db' (Step.completed a c th out e) h =
    complete_execution-IsProven sha256 a c th out db db' e h
Step-IsProven sha256 db db' (Step.attempt_failed a i class terminal actor s e) h =
    fail_attempt-IsProven a i class terminal actor db db' s e h
Step-IsProven sha256 db db' (Step.recovered a reconciler lease out e) h =
    recover_action-IsProven sha256 a reconciler lease db db' out e h
Step-IsProven sha256 db db' (Step.reserved a actor b e) h =
    Frame-IsProven db db' (reserve_budget-Frame a actor db db' b e) h
Step-IsProven sha256 db db' (Step.released a actor b e) h =
    Frame-IsProven db db' (release_budget-Frame a actor db db' b e) h
Step-IsProven sha256 db db' (Step.moved v s t actor reason e) h =
    Frame-IsProven db db' (transition-Frame v actor db db' s t reason e) h

-- Whatever requests, claims, completions, failures, recoveries, reservations, releases and lifecycle
-- transitions follow one another, in any order and with any parameters: where an action was SUCCEEDED
-- just when it had a VERIFIED proof receipt, it is so in the end.
pub Run-IsProven :
    (sha256 : Text → ℕ) {db db' : Db} → Run sha256 db db' → IsProven db → IsProven db'
Run-IsProven sha256 Run.stop h = h
Run-IsProven sha256 (Run.next {db} {mid} s r) h =
    Run-IsProven sha256 r (Step-IsProven sha256 db mid s h)
