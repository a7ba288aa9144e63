-- ===== src/Budget/Ledger/Effects.antt =====
-- What a call that returned has done to the tables: nothing, or one posting.
use aidan_venture_os.Base.{
  ℕ, ◌+◌, ◌≤◌, String, ◌≡◌, Bool, true, false, none, some, ◌⊎◌, inl, inr, arith, Bool-cases,
  is_some, Option-cases, ◌<◌, ◌-◌, ◌∷◌,
}
use aidan_venture_os.Db.Rows.{ActionRequest, BudgetAccount, CapitalEntry, EntryType}
use aidan_venture_os.Db.Tx.{Db, ok, record_event}
use aidan_venture_os.Budget.{
  entry_of, entry_for, clashes, capital_state, move_funds, insert_entry, reserve_on, release_on,
  commit_on, reconcile_on,
}
use aidan_venture_os.Budget.Ledger.Accounts.{row}
use aidan_venture_os.Budget.Ledger.Posts.{post}

module _ (act : ActionRequest) (acc : BudgetAccount) (actor : String) (db db' : Db) (b : Bool) where
  module _ (is_row : row acc.id db.accounts ≡ some acc) where
    pub reserve_on_effect :
        reserve_on act acc actor (capital_state act.id db) db ≡ ok (b, db')
        → (db' ≡ db)
          ⊎ ((entry_of act.id EntryType.reserve db.entries ≡ none)
              × (db.next_id ≤ db'.next_id)
              × (acc.reserved + acc.committed + act.requested_amount ≤ acc.granted)
              × (db'
                  ≡ post db acc.id act.requested_amount 0 0
                      (entry_for act acc EntryType.reserve act.requested_amount none)
                      db'.audit_log
                      db'.next_id))
    unfolding reserve_on move_funds insert_entry record_event
    reserve_on_effect h = ground arith

    pub release_on_effect :
        release_on act acc actor (capital_state act.id db) db ≡ ok (b, db')
        → (db' ≡ db)
          ⊎ ((r : CapitalEntry) × (entry_of act.id EntryType.reserve db.entries ≡ some r)
              × (entry_of act.id EntryType.release db.entries ≡ none)
              × (entry_of act.id EntryType.commit db.entries ≡ none)
              × (r.amount ≤ acc.reserved)
              × (db.next_id ≤ db'.next_id)
              × (db'
                  ≡ post db acc.id 0 r.amount 0
                      (entry_for act acc EntryType.release r.amount none)
                      db'.audit_log
                      db'.next_id))
    unfolding release_on move_funds insert_entry record_event
    release_on_effect h = elim (Option-cases (entry_of act.id EntryType.reserve db.entries)) [
      | inl p ↦ inl (ground arith)
      | inr (r, p) ↦ elim (Bool-cases b) [
        | inl yes' ↦
            inr (r, p, ground arith, ground arith, ground arith, ground arith, ground arith)
        | inr no' ↦ inl (ground arith)
      ]
    ]

    pub commit_on_effect :
        commit_on act acc actor (capital_state act.id db) db ≡ ok (b, db')
        → (db' ≡ db)
          ⊎ ((r : CapitalEntry) × (entry_of act.id EntryType.reserve db.entries ≡ some r)
              × (entry_of act.id EntryType.release db.entries ≡ none)
              × (entry_of act.id EntryType.commit db.entries ≡ none)
              × (r.amount ≤ acc.reserved)
              × (db.next_id ≤ db'.next_id)
              × (db'
                  ≡ post db acc.id 0 r.amount r.amount
                      (entry_for act acc EntryType.commit r.amount none)
                      db'.audit_log
                      db'.next_id))
    unfolding commit_on move_funds insert_entry record_event
    commit_on_effect h = elim (Option-cases (entry_of act.id EntryType.reserve db.entries)) [
      | inl p ↦ inl (ground arith)
      | inr (r, p) ↦ elim (Bool-cases b) [
        | inl yes' ↦
            inr (r, p, ground arith, ground arith, ground arith, ground arith, ground arith)
        | inr no' ↦ inl (ground arith)
      ]
    ]

-- the commit entry of `reconcile_completion`
abbrev pub actual_entry : ActionRequest → BudgetAccount → ℕ → CapitalEntry
actual_entry act acc actual = entry_for act acc EntryType.commit actual (some "actual")

abbrev pub unused_entry : ActionRequest → BudgetAccount → ℕ → CapitalEntry
unused_entry act acc amount = entry_for act acc EntryType.release amount (some "unused")

module _ (act : ActionRequest) (acc : BudgetAccount) (actual : ℕ) (actor : String) where
  module _ (db db' : Db) (u : Unit {0}) (is_row : row acc.id db.accounts ≡ some acc) where
    pub reconcile_on_effect :
        reconcile_on act acc actual actor (capital_state act.id db) db ≡ ok (u, db')
        → ((is_some (entry_of act.id EntryType.commit db.entries) ≡ true) × (db' ≡ db))
          ⊎ ((r : CapitalEntry) × (entry_of act.id EntryType.reserve db.entries ≡ some r)
              × (entry_of act.id EntryType.commit db.entries ≡ none)
              × (r.amount ≤ acc.reserved)
              × (db.next_id ≤ db'.next_id)
              × (let done =
                    post db acc.id 0 r.amount actual
                      (actual_entry act acc actual)
                      db'.audit_log
                      db'.next_id in
                  ((r.amount ≤ actual) × (db' ≡ done))
                  ⊎ ((actual < r.amount)
                      × (clashes (unused_entry act acc (r.amount - actual)) done.entries ≡ false)
                      × (db' ≡ record done {
                        entries = unused_entry act acc (r.amount - actual) ∷ done.entries;
                      }))))
    unfolding reconcile_on move_funds insert_entry record_event
    reconcile_on_effect h = elim (Option-cases (entry_of act.id EntryType.commit db.entries)) [
      | inr (c, q) ↦ inl (ground arith, ground arith)
      | inl q ↦ elim (Option-cases (entry_of act.id EntryType.reserve db.entries)) [
        | inl p ↦ absurd (ground arith)
        | inr (r, p) ↦ inr (r, p, q, ground arith, ground arith, ground arith)
      ]
    ]
