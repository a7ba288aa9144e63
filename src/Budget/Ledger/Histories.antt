-- ===== src/Budget/Ledger/Histories.antt =====
-- Sequences of operations of budget.py: the ledger they leave, and what the database then refuses.
use aidan_venture_os.Base.{ℕ, String, ◌≡◌, ◌≢◌, none, inl, inr, arith, Option-cases}
use aidan_venture_os.Base.Int.{ℤ, pos_part}
use aidan_venture_os.Db.Rows.{EntryType}
use aidan_venture_os.Db.Tx.{Db, Error, err}
use aidan_venture_os.Db.Queries.{find_action, find_account}
use aidan_venture_os.Budget.{
  commit_budget, entry_of, reconcile_completion, release_budget, reserve_budget,
}
use aidan_venture_os.Budget.Ledger.Grants.{grant_budget-IsConsistent}
use aidan_venture_os.Budget.Ledger.Guards.{
  commit_on_guarded, reconcile_on_guarded, release_on_guarded, reserve_on_guarded,
}
use aidan_venture_os.Budget.Ledger.Limits.{AreCovered}
use aidan_venture_os.Budget.Ledger.Operations.{
  commit_budget-IsConsistent, find_action-id, reconcile_completion-IsConsistent,
  release_budget-IsConsistent, reserve_budget-IsConsistent, same_act,
}
use aidan_venture_os.Budget.Ledger.Overdraft.{Post, Posts, Posts-AreCovered}
use aidan_venture_os.Budget.Ledger.Spec.{IsConsistent}

-- an operation of budget.py whose statement breaks a constraint of the tables; a reconciliation, of
-- an action that has no RELEASE entry
pub data Refusal (db : Db) : Type 0 where
  reserving :
      (a : ℕ) (actor : String) → reserve_budget a actor db ≡ err Error.integrity_error → Refusal db
  releasing :
      (a : ℕ) (actor : String) → release_budget a actor db ≡ err Error.integrity_error → Refusal db
  committing :
      (a : ℕ) (actor : String) → commit_budget a actor db ≡ err Error.integrity_error → Refusal db
  reconciling :
      (a : ℕ) (n : ℤ) (actor : String)
      → entry_of a EntryType.release db.entries ≡ none
      → reconcile_completion a n actor db ≡ err Error.integrity_error
      → Refusal db

Post-IsConsistent : {db db' : Db} → Post db db' → IsConsistent db → IsConsistent db'
Post-IsConsistent {db} {db'} (Post.granted v n c by ref i e) h =
    grant_budget-IsConsistent v n c by ref db db' i h e
Post-IsConsistent {db} {db'} (Post.reserved a actor b e) h =
    reserve_budget-IsConsistent a actor db db' b h e
Post-IsConsistent {db} {db'} (Post.released a actor b e) h =
    release_budget-IsConsistent a actor db db' b h e
Post-IsConsistent {db} {db'} (Post.committed a actor b e) h =
    commit_budget-IsConsistent a actor db db' b h e
Post-IsConsistent {db} {db'} (Post.reconciled a n actor u k e) h =
    reconcile_completion-IsConsistent a n actor db db' u h k e

Posts-IsConsistent : {db db' : Db} → Posts db db' → IsConsistent db → IsConsistent db'
Posts-IsConsistent Posts.stop h = h
Posts-IsConsistent (Posts.next p ps) h = Posts-IsConsistent ps (Post-IsConsistent p h)

module _ (db : Db) (h : IsConsistent db) (c : AreCovered db.accounts) (a : ℕ) (actor : String) where
  reserve_budget_guarded : reserve_budget a actor db ≢ err Error.integrity_error
  unfolding reserve_budget
  reserve_budget_guarded e = elim (Option-cases (find_action a db.actions)) [
    | inl p ↦ ground arith
    | inr (act, p) ↦
        elim (Option-cases (find_account act.venture_id act.requested_currency db.accounts)) [
          | inl q ↦ ground arith
          | inr (acc, q) ↦
              reserve_on_guarded db h c act acc actor (same_act a db act p) q (ground arith)
        ]
  ]

  release_budget_guarded : release_budget a actor db ≢ err Error.integrity_error
  unfolding release_budget
  release_budget_guarded e = elim (Option-cases (find_action a db.actions)) [
    | inl p ↦ ground arith
    | inr (act, p) ↦
        elim (Option-cases (find_account act.venture_id act.requested_currency db.accounts)) [
          | inl q ↦ ground arith
          | inr (acc, q) ↦
              release_on_guarded db h c act acc actor (same_act a db act p) q (ground arith)
        ]
  ]

  commit_budget_guarded : commit_budget a actor db ≢ err Error.integrity_error
  unfolding commit_budget
  commit_budget_guarded e = elim (Option-cases (find_action a db.actions)) [
    | inl p ↦ ground arith
    | inr (act, p) ↦
        elim (Option-cases (find_account act.venture_id act.requested_currency db.accounts)) [
          | inl q ↦ ground arith
          | inr (acc, q) ↦
              commit_on_guarded db h c act acc actor (same_act a db act p) q (ground arith)
        ]
  ]

  reconcile_completion_guarded :
      (n : ℤ)
      → entry_of a EntryType.release db.entries ≡ none
      → reconcile_completion a n actor db ≢ err Error.integrity_error
  unfolding reconcile_completion
  reconcile_completion_guarded n k e = elim (Option-cases (find_action a db.actions)) [
    | inl p ↦ ground arith
    | inr (act, p) ↦
        elim (Option-cases (find_account act.venture_id act.requested_currency db.accounts)) [
          | inl q ↦ ground arith
          | inr (acc, q) ↦
              reconcile_on_guarded db h c act acc actor (same_act a db act p) q (pos_part n)
                (rw (find_action-id a db act p) k) (ground arith)
        ]
  ]

not-Refusal : (db : Db) → IsConsistent db → AreCovered db.accounts → ¬ Refusal db
not-Refusal db h c (Refusal.reserving a actor e) = reserve_budget_guarded db h c a actor e
not-Refusal db h c (Refusal.releasing a actor e) = release_budget_guarded db h c a actor e
not-Refusal db h c (Refusal.committing a actor e) = commit_budget_guarded db h c a actor e
not-Refusal db h c (Refusal.reconciling a n actor k e) =
    reconcile_completion_guarded db h c a actor n k e

-- From a database where the balances of every account are what its ledger entries add up to and no
-- account has more reserved and committed than granted, take any sequence of grants, reservations,
-- releases, commits and reconciliations that go through, each reconciliation of an action without a
-- RELEASE entry. The balances still are what the entries add up to, and no reservation, release,
-- commit or reconciliation of an action without a RELEASE entry then fails on a constraint of the
-- database: what the constraints forbid, the tests of budget.py have refused before.
pub Posts-IsGuarded :
    {db db' : Db}
    → Posts db db'
    → IsConsistent db
    → AreCovered db.accounts
    → IsConsistent db' × (¬ Refusal db')
Posts-IsGuarded {db} {db'} ps h c =
    let h' = Posts-IsConsistent ps h in (h', not-Refusal db' h' (Posts-AreCovered ps c))
