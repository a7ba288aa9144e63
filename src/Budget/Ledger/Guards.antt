-- ===== src/Budget/Ledger/Guards.antt =====
-- The tests that budget.py makes before it writes are enough: the CHECKs and the unique indexes of
-- the tables do not refuse what it writes.
use aidan_venture_os.Base.{
  ℕ, ◌≤◌, String, ◌≡◌, ◌≢◌, none, some, List, [], ◌∷◌, inl, inr, arith, find, Option-cases,
}
use aidan_venture_os.Db.Rows.{ActionRequest, BudgetAccount, CapitalEntry, EntryType}
use aidan_venture_os.Db.Tx.{Db, Error, err, record_event}
use aidan_venture_os.Db.Queries.{find_action, find_account}
use aidan_venture_os.Budget.{
  capital_state, clashes, commit_on, entry_of, insert_entry, move_funds, reconcile_on, release_on,
  reserve_on,
}
use aidan_venture_os.Budget.Ledger.Accounts.{row, row-find_account}
use aidan_venture_os.Budget.Ledger.Limits.{AreCovered, IsCovered}
use aidan_venture_os.Budget.Ledger.Spec.{IsConsistent}
use aidan_venture_os.Budget.Ledger.Sums.{held, held_by-also, is_closed, is_closed-none}

row-IsCovered :
    (i : ℕ) (acc : BudgetAccount) (rows : List BudgetAccount)
    → row i rows ≡ some acc
    → AreCovered rows
    → IsCovered acc
unfolding find
row-IsCovered i acc [] h c = absurd (ground arith)
row-IsCovered i acc (x ∷ xs) h c = ground (arith, row-IsCovered i acc xs)

module _ (db : Db) (h : IsConsistent db) (c : AreCovered db.accounts) (act : ActionRequest)
    (acc : BudgetAccount) (actor : String) (is_act : find_action act.id db.actions ≡ some act)
    (is_acc : find_account act.venture_id act.requested_currency db.accounts ≡ some acc) where
  is_row : row acc.id db.accounts ≡ some acc
  is_row = row-find_account act.venture_id act.requested_currency acc db.accounts h.keyed is_acc

  -- an open reservation is part of the account's reserved balance
  open_reserve :
      (r : CapitalEntry)
      → entry_of act.id EntryType.reserve db.entries ≡ some r
      → entry_of act.id EntryType.release db.entries ≡ none
      → entry_of act.id EntryType.commit db.entries ≡ none
      → r.amount ≤ acc.reserved
  unfolding held
  open_reserve r p q k = ground (
    arith,
    is_row,
    h.reserved acc.id,
    h.homed act.id act r is_act p,
    held_by-also act.id acc.id (is_closed db.entries) r db.entries h.distinct
        (is_closed-none act.id db.entries q k) p,
  )

  pub reserve_on_guarded :
      reserve_on act acc actor (capital_state act.id db) db ≢ err Error.integrity_error
  unfolding reserve_on move_funds insert_entry record_event clashes
  reserve_on_guarded e = elim (Option-cases (entry_of act.id EntryType.reserve db.entries)) [
    | inr (r, p) ↦ ground arith
    | inl p ↦ ground (arith, is_row)
  ]

  pub release_on_guarded :
      release_on act acc actor (capital_state act.id db) db ≢ err Error.integrity_error
  unfolding release_on move_funds insert_entry record_event clashes
  release_on_guarded e = elim (Option-cases (entry_of act.id EntryType.commit db.entries)) [
    | inr (r, p) ↦ ground arith
    | inl p ↦ elim (Option-cases (entry_of act.id EntryType.release db.entries)) [
      | inr (r, q) ↦ ground arith
      | inl q ↦ elim (Option-cases (entry_of act.id EntryType.reserve db.entries)) [
        | inl k ↦ ground arith
        | inr (r, k) ↦
            let fit = open_reserve r k q p in
            let covered = row-IsCovered acc.id acc db.accounts is_row c in ground (arith, is_row)
      ]
    ]
  ]

  pub commit_on_guarded :
      commit_on act acc actor (capital_state act.id db) db ≢ err Error.integrity_error
  unfolding commit_on move_funds insert_entry record_event clashes
  commit_on_guarded e = elim (Option-cases (entry_of act.id EntryType.commit db.entries)) [
    | inr (r, p) ↦ ground arith
    | inl p ↦ elim (Option-cases (entry_of act.id EntryType.release db.entries)) [
      | inr (r, q) ↦ ground arith
      | inl q ↦ elim (Option-cases (entry_of act.id EntryType.reserve db.entries)) [
        | inl k ↦ ground arith
        | inr (r, k) ↦
            let fit = open_reserve r k q p in
            let covered = row-IsCovered acc.id acc db.accounts is_row c in ground (arith, is_row)
      ]
    ]
  ]

  pub reconcile_on_guarded :
      (actual : ℕ)
      → entry_of act.id EntryType.release db.entries ≡ none
      → reconcile_on act acc actual actor (capital_state act.id db) db ≢ err Error.integrity_error
  unfolding reconcile_on move_funds insert_entry record_event clashes entry_of find
  reconcile_on_guarded actual q e =
      elim (Option-cases (entry_of act.id EntryType.commit db.entries)) [
        | inr (r, p) ↦ ground arith
        | inl p ↦ elim (Option-cases (entry_of act.id EntryType.reserve db.entries)) [
          | inl k ↦ ground arith
          | inr (r, k) ↦ let fit = open_reserve r k q p in ground (arith, is_row)
        ]
      ]
