-- ===== src/Scenarios/Balances.antt =====
-- Runs of budget.py that end where they began, or within what was granted.
use aidan_venture_os.Base.{◌≡◌, refl, true, none, some, find, any}
use aidan_venture_os.Base.Int.{pos}
use aidan_venture_os.Db.Rows.{EntryType}
use aidan_venture_os.Db.Tx.{Db, ok, record_event}
use aidan_venture_os.Db.Queries.{find_account, find_action}
use aidan_venture_os.Budget.{
  clashes, entry_of, grant_budget, insert_entry, post_grant, release_budget, upsert_account,
}
use aidan_venture_os.Budget.Ledger.Spec.{IsConsistent}
use aidan_venture_os.Budget.Ledger.Histories.{Refusal, Posts-IsGuarded}
use aidan_venture_os.Budget.Ledger.Overdraft.{Post, Posts}
use aidan_venture_os.Budget.Ledger.Undo.{release_after_reserve}
use aidan_venture_os.Budget.Ledger.Accounts.{IsKeyed}
use aidan_venture_os.Scenarios.{
  grant_runs, granted, purchase, reserve_runs, reserved, start-IsConsistent,
}

Posts-IsGuarded_example : IsConsistent reserved × (¬ Refusal reserved)
Posts-IsGuarded_example =
    Posts-IsGuarded
      (Posts.next (Post.granted 1 (pos 1000000) "USD" "owner" none 20 grant_runs)
        (Posts.next (Post.reserved 7 "budget" true reserve_runs) Posts.stop))
      start-IsConsistent tt

no_entries :
    (find_action 7 granted.actions ≡ some purchase)
    × IsKeyed granted.accounts
    × (entry_of 7 EntryType.release granted.entries ≡ none)
    × (entry_of 7 EntryType.commit granted.entries ≡ none)
unfolding grant_budget upsert_account post_grant insert_entry clashes record_event any find
    find_account find_action entry_of
no_entries = (refl, (refl, tt), refl, refl)

release_after_reserve_example :
    (db : Db) × (release_budget 7 "owner" reserved ≡ ok (true, db))
    × (db.accounts ≡ granted.accounts)
release_after_reserve_example =
    release_after_reserve 7 purchase "budget" "owner" granted reserved reserve_runs no_entries.0
      no_entries.1 no_entries.2 no_entries.3 refl
