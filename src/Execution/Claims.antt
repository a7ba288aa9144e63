-- ===== src/Execution/Claims.antt =====
-- What a claim that went through has done.
use aidan_venture_os.Base.{
  ℕ, ◌≤◌, String, ◌≡◌, refl, sym, ◌∙◌, subst, Bool, true, false, Option, none, some, is_some, inl,
  inr, arith, Option-cases,
}
use aidan_venture_os.Db.Rows.{ActionRequest, RunStatus, SafetyMode, EntryType}
use aidan_venture_os.Db.Tx.{Db, Error, ok, err, Result-cases, record_event}
use aidan_venture_os.Db.Queries.{find_action}
use aidan_venture_os.Json.Text.{Text}
use aidan_venture_os.Policy.{Decimal}
use aidan_venture_os.Budget.{reserve_budget, entry_of}
use aidan_venture_os.Budget.Ledger.Operations.{reserve_budget_reserved}
use aidan_venture_os.Execution.Status.{set_status, same_status, with_status, is_claimable}
use aidan_venture_os.Execution.Claim.{authorize, create_attempt, authorize_and_claim, AttemptHandle}
use aidan_venture_os.Execution.Gate.{IsAuthorized, authorize_same, authorize_sound}
use aidan_venture_os.Execution.Frames.{reserve_budget-Frame, create_attempt-Frame}
use aidan_venture_os.Execution.Success.{
  IsProven, Frame-IsProven, set_status-IsProven, set_status_effect, find_action-update,
}

same_status_self : (s : RunStatus) → same_status s s ≡ true
same_status_self RunStatus.pending = refl
same_status_self RunStatus.running = refl
same_status_self RunStatus.succeeded = refl
same_status_self RunStatus.failed = refl
same_status_self RunStatus.awaiting_approval = refl
same_status_self RunStatus.authorized = refl
same_status_self RunStatus.cancelled = refl
same_status_self RunStatus.recovery_required = refl

running_unclaimable :
    (s : RunStatus) → same_status s RunStatus.running ≡ true → is_claimable s ≡ false
unfolding is_claimable
running_unclaimable RunStatus.running h = refl
running_unclaimable s h = ground arith

create_attempt_entries :
    (a : ℕ) (ref : String) (lease : ℕ) (mode : SafetyMode) (db db' : Db) (h : AttemptHandle)
    → create_attempt a mode ref lease db ≡ ok (h, db')
    → db'.entries ≡ db.entries
unfolding create_attempt
create_attempt_entries a ref lease mode db db' h e = ground arith

set_status_entries :
    (i : ℕ) (s : RunStatus) (actor : String) (reason : Option String) (db db' : Db) (u : Unit {0})
    → set_status i s actor reason db ≡ ok (u, db')
    → db'.entries ≡ db.entries
unfolding set_status record_event
set_status_entries i s actor reason db db' u e = ground arith

-- after `_set_status` the action has the status asked for
set_status_there :
    (i : ℕ) (s : RunStatus) (actor : String) (reason : Option String) (db db' : Db) (u : Unit {0})
    → set_status i s actor reason db ≡ ok (u, db')
    → (act : ActionRequest) × (find_action i db'.actions ≡ some act)
      × (same_status act.status s ≡ true)
set_status_there i s actor reason db db' u e =
    let (act, p, how) = set_status_effect i s actor reason db db' u e in
    elim how [
      | inl (same, same_db) ↦ (act, rw same_db p, same)
      | inr (allowed, changed, _) ↦ (
        with_status s act,
        rw changed (ground (arith, find_action-update i i s db.actions)),
        same_status_self s,
      )
    ]

-- the databases between the steps of a claim
pub record Steps (sha256 : Text → ℕ) (a : ℕ) (mode : SafetyMode) (ref : String) (lease : ℕ)
    (th : Decimal) (db db' : Db) (h : AttemptHandle) : Type 0 where
  pub act : ActionRequest
  pub is_act : find_action a db.actions ≡ some act
  pub claimable : is_claimable act.status ≡ true
  pub venture_id : ℕ
  pub reserved : Bool
  pub db1 : Db
  pub db2 : Db
  pub db3 : Db
  pub authorized : authorize sha256 a th db ≡ ok (venture_id, db)
  pub reserving : reserve_budget a "budget" db ≡ ok (reserved, db1)
  pub attempting : create_attempt a mode ref lease db1 ≡ ok (h, db2)
  pub setting : set_status a RunStatus.running "executor" none db2 ≡ ok (tt, db3)
  pub actions : db'.actions ≡ db3.actions
  pub proofs : db'.proofs ≡ db3.proofs
  pub specs : db'.specs ≡ db3.specs
  pub accounts : db'.accounts ≡ db3.accounts
  pub entries : db'.entries ≡ db3.entries
  pub attempts : db'.attempts ≡ db3.attempts
  pub grows : db3.next_id ≤ db'.next_id

module _ (sha256 : Text → ℕ) (a : ℕ) (mode : SafetyMode) (ref : String) (lease : ℕ)
    (th : Decimal) where
  module _ (db db' : Db) (h : AttemptHandle) where
    pub claim-Steps :
        authorize_and_claim sha256 a mode ref lease th db ≡ ok (h, db')
        → Steps sha256 a mode ref lease th db db' h
    unfolding authorize_and_claim record_event
    claim-Steps e = elim (Option-cases (find_action a db.actions)) [
      | inl p ↦ absurd (ground arith)
      | inr (act, p) ↦ elim (Result-cases (authorize sha256 a th db)) [
        | inr (x, f) ↦ absurd (ground arith)
        | inl (v, db0, f) ↦
            let same : db0 ≡ db = authorize_same sha256 a th db v db0 f in
            elim (Result-cases (reserve_budget a "budget" db)) [
              | inr (x, g) ↦ absurd (ground arith)
              | inl (b, db1, g) ↦ elim (Result-cases (create_attempt a mode ref lease db1)) [
                | inr (x, k) ↦ absurd (ground arith)
                | inl (h', db2, k) ↦
                    elim (Result-cases (set_status a RunStatus.running "executor" none db2)) [
                      | inr (x, l) ↦ absurd (ground arith)
                      | inl (u, db3, l) ↦ record {
                        act = act;
                        is_act = p;
                        claimable = ground arith;
                        venture_id = v;
                        reserved = b;
                        db1 = db1;
                        db2 = db2;
                        db3 = db3;
                        authorized = ground arith;
                        reserving = g;
                        attempting = ground arith;
                        setting = l;
                        actions = ground arith;
                        proofs = ground arith;
                        specs = ground arith;
                        accounts = ground arith;
                        entries = ground arith;
                        attempts = ground arith;
                        grows = ground arith;
                      }
                    ]
              ]
            ]
      ]
    ]

    -- A claim goes through only where the current policy allows the action, or asks for an approval
    -- and there is a valid one for exactly the current inputs.
    pub claim-IsAuthorized :
        authorize_and_claim sha256 a mode ref lease th db ≡ ok (h, db')
        → IsAuthorized sha256 a th db
    claim-IsAuthorized e =
        let s = claim-Steps e in authorize_sound sha256 a th db s.venture_id db s.authorized

    -- A claim keeps success and proof together: where an action was SUCCEEDED just when it had a
    -- VERIFIED proof receipt, it still is so after a claim.
    pub claim-IsProven :
        authorize_and_claim sha256 a mode ref lease th db ≡ ok (h, db') → IsProven db → IsProven db'
    claim-IsProven e p =
        let s = claim-Steps e in
        let p1 =
          Frame-IsProven db s.db1 (reserve_budget-Frame a "budget" db s.db1 s.reserved s.reserving)
            p in
        let p2 =
          Frame-IsProven s.db1 s.db2
            (create_attempt-Frame a ref s.db1 s.db2 mode lease h s.attempting) p1 in
        let p3 =
          set_status-IsProven a RunStatus.running "executor" none s.db2 s.db3 tt refl s.setting
            p2 in
        Frame-IsProven s.db3 db'
          (record { actions = s.actions; proofs = s.proofs; specs = s.specs }) p3

    -- After a claim the action is RUNNING and has a RESERVE entry.
    pub claim_effect :
        authorize_and_claim sha256 a mode ref lease th db ≡ ok (h, db')
        → (act : ActionRequest) × (find_action a db'.actions ≡ some act)
          × (same_status act.status RunStatus.running ≡ true)
          × (is_some (entry_of a EntryType.reserve db'.entries) ≡ true)
    claim_effect e =
        let s = claim-Steps e in
        let (act, p, q) =
          set_status_there a RunStatus.running "executor" none s.db2 s.db3 tt s.setting in
        let there = reserve_budget_reserved a "budget" db s.db1 s.reserved s.reserving in
        let e1 = create_attempt_entries a ref lease mode s.db1 s.db2 h s.attempting in
        let e2 = set_status_entries a RunStatus.running "executor" none s.db2 s.db3 tt s.setting in
        (
          act,
          subst (λ t. find_action a t ≡ some act) (sym s.actions) p,
          q,
          subst (λ t. is_some (entry_of a EntryType.reserve t) ≡ true) (sym (s.entries ∙ e2 ∙ e1))
              there,
        )

    -- Right after a claim, a second claim of the action is refused, whatever its parameters.
    pub claim_twice :
        (mode' : SafetyMode) (ref' : String) (lease' : ℕ) (th' : Decimal)
        → authorize_and_claim sha256 a mode ref lease th db ≡ ok (h, db')
        → authorize_and_claim sha256 a mode' ref' lease' th' db' ≡ err Error.execution_blocked
    unfolding authorize_and_claim
    claim_twice mode' ref' lease' th' e =
        let (act, p, q, _) = claim_effect e in ground (arith, running_unclaimable act.status q)
