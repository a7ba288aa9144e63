-- ===== src/Budget/Ledger/Misuse.antt =====
-- `reconcile_completion` does not look for a RELEASE entry, as `commit_budget` does.
use aidan_venture_os.Base.{ℕ, ◌<◌, String, ◌≡◌, refl, subst, none, some, inl, inr, arith, find}
use aidan_venture_os.Db.Rows.{ActionRequest, BudgetAccount, CapitalEntry, EntryType}
use aidan_venture_os.Db.Tx.{Db, ok}
use aidan_venture_os.Db.Queries.{find_account}
use aidan_venture_os.Budget.{entry_of, capital_state, reconcile_on, clashes, shift}
use aidan_venture_os.Budget.Ledger.Sums.{held-close_again, is_closed-some}
use aidan_venture_os.Budget.Ledger.Accounts.{row-find_account, row-update}
use aidan_venture_os.Budget.Ledger.Spec.{IsConsistent}
use aidan_venture_os.Budget.Ledger.Effects.{reconcile_on_effect, actual_entry}
use aidan_venture_os.Budget.Ledger.Posts.{post}

-- On a consistent database, when an action has a RESERVE entry of more than 0 and a RELEASE entry but
-- no COMMIT, a reconciliation that goes through leaves balances that the ledger does not add up to.
pub reconcile_after_release :
    (act : ActionRequest) (acc : BudgetAccount) (actual : ℕ) (actor : String) (db db' : Db)
    (r rel : CapitalEntry)
    → IsConsistent db
    → find_account act.venture_id act.requested_currency db.accounts ≡ some acc
    → entry_of act.id EntryType.reserve db.entries ≡ some r
    → entry_of act.id EntryType.release db.entries ≡ some rel
    → entry_of act.id EntryType.commit db.entries ≡ none
    → 0 < r.amount
    → reconcile_on act acc actual actor (capital_state act.id db) db ≡ ok (tt, db')
    → ¬ IsConsistent db'
unfolding clashes entry_of find
reconcile_after_release act acc actual actor db db' r rel h is_acc is_r is_rel no_com pos e k =
    let is_row =
      row-find_account act.venture_id act.requested_currency acc db.accounts h.keyed is_acc in
    elim (reconcile_on_effect act acc actual actor db db' tt is_row e) [
      | inl (c, same) ↦ ground arith
      | inr (s, is_s, q, fit, grows, ending) ↦ elim ending [
        | inr (_, new, _) ↦ ground arith
        | inl (_, is_post) ↦
            let entry = actual_entry act acc actual in
            let done = post db acc.id 0 s.amount actual entry db'.audit_log db'.next_id in
            let k' : IsConsistent done = subst IsConsistent is_post k in
            ground (
              arith,
              k'.reserved acc.id,
              h.reserved acc.id,
              row-update acc.id (shift 0 s.amount actual) (λ t. refl) acc.id db.accounts,
              held-close_again act.id acc.id entry db.entries refl (ground arith)
                  (is_closed-some act.id rel db.entries is_rel),
            )
      ]
    ]
