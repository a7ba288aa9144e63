-- ===== src/Execution/Funds.antt =====
-- Claims and the capital ledger.
use aidan_venture_os.Base.{
  ℕ, ◌≤◌, String, ◌≡◌, refl, subst, Option, none, some, inl, inr, arith, ap, Option-cases, update,
}
use aidan_venture_os.Db.Rows.{ActionRequest, RunStatus, SafetyMode}
use aidan_venture_os.Db.Tx.{Db, ok, record_event}
use aidan_venture_os.Db.Queries.{find_action, has_action_id}
use aidan_venture_os.Json.Text.{Text}
use aidan_venture_os.Policy.{Decimal}
use aidan_venture_os.Budget.Ledger.Spec.{IsConsistent}
use aidan_venture_os.Budget.Ledger.Posts.{carry-IsConsistent}
use aidan_venture_os.Budget.Ledger.Operations.{reserve_budget-IsConsistent}
use aidan_venture_os.Execution.Status.{set_status, with_status}
use aidan_venture_os.Execution.Claim.{create_attempt, authorize_and_claim, AttemptHandle}
use aidan_venture_os.Execution.Success.{find_action-update, set_status_effect}
use aidan_venture_os.Execution.Claims.{claim-Steps}

-- an action may have changed, but not its venture or its currency
abbrev AreSameAccounts : Db → Db → Type 0
AreSameAccounts db db' =
    (b : ℕ) (act' : ActionRequest)
    → find_action b db'.actions ≡ some act'
    → (act : ActionRequest) × (find_action b db.actions ≡ some act)
      × (act'.venture_id ≡ act.venture_id)
      × (act'.requested_currency ≡ act.requested_currency)

-- a step that leaves the ledger alone
record Carries (db db' : Db) : Type 0 where
  accounts : db'.accounts ≡ db.accounts
  entries : db'.entries ≡ db.entries
  grows : db.next_id ≤ db'.next_id
  homes : AreSameAccounts db db'

Carries-IsConsistent : (db db' : Db) → Carries db db' → IsConsistent db → IsConsistent db'
Carries-IsConsistent db db' c h = carry-IsConsistent db db' h c.accounts c.entries c.grows c.homes

same_homes : (db db' : Db) → db'.actions ≡ db.actions → AreSameAccounts db db'
same_homes db db' same b act' p =
    (act', subst (λ t. find_action b t ≡ some act') same p, refl, refl)

create_attempt-Carries :
    (a : ℕ) (mode : SafetyMode) (ref : String) (lease : ℕ) (db db' : Db) (h : AttemptHandle)
    → create_attempt a mode ref lease db ≡ ok (h, db')
    → Carries db db'
unfolding create_attempt
create_attempt-Carries a mode ref lease db db' h e = record {
  accounts = ground arith;
  entries = ground arith;
  grows = ground arith;
  homes = same_homes db db' (ground arith);
}

updated_homes :
    (a : ℕ) (s : RunStatus) (db db' : Db)
    → db'.actions ≡ update (has_action_id a) (with_status s) db.actions
    → AreSameAccounts db db'
updated_homes a s db db' changed b act' p =
    let is_new : find_action b (update (has_action_id a) (with_status s) db.actions) ≡ some act' =
      subst (λ t. find_action b t ≡ some act') changed p in
    elim (Option-cases (find_action b db.actions)) [
      | inl q ↦ absurd (ground (arith, find_action-update a b s db.actions))
      | inr (act, q) ↦ (
        act,
        q,
        ground (arith, find_action-update a b s db.actions),
        ground (arith, find_action-update a b s db.actions),
      )
    ]

set_status-Carries :
    (a : ℕ) (s : RunStatus) (actor : String) (reason : Option String) (db db' : Db) (u : Unit {0})
    → set_status a s actor reason db ≡ ok (u, db')
    → Carries db db'
unfolding set_status record_event
set_status-Carries a s actor reason db db' u e = record {
  accounts = ground arith;
  entries = ground arith;
  grows = ground arith;
  homes =
      let (act, p, how) = set_status_effect a s actor reason db db' u e in
      elim how [
        | inl (_, same) ↦ same_homes db db' (ap (λ (d : Db). d.actions) same)
        | inr (_, changed, _) ↦ updated_homes a s db db' changed
      ];
}

-- A claim keeps the database consistent: the balances of every account stay what its ledger entries
-- add up to.
pub claim-IsConsistent :
    (sha256 : Text → ℕ) (a : ℕ) (mode : SafetyMode) (ref : String) (lease : ℕ) (th : Decimal)
    (db db' : Db) (h : AttemptHandle)
    → authorize_and_claim sha256 a mode ref lease th db ≡ ok (h, db')
    → IsConsistent db
    → IsConsistent db'
claim-IsConsistent sha256 a mode ref lease th db db' h e c =
    let s = claim-Steps sha256 a mode ref lease th db db' h e in
    let c1 = reserve_budget-IsConsistent a "budget" db s.db1 s.reserved c s.reserving in
    let c2 =
      Carries-IsConsistent s.db1 s.db2
        (create_attempt-Carries a mode ref lease s.db1 s.db2 h s.attempting) c1 in
    let c3 =
      Carries-IsConsistent s.db2 s.db3
        (set_status-Carries a RunStatus.running "executor" none s.db2 s.db3 tt s.setting) c2 in
    Carries-IsConsistent s.db3 db'
      (record {
        accounts = s.accounts;
        entries = s.entries;
        grows = s.grows;
        homes = same_homes s.db3 db' s.actions;
      })
      c3
