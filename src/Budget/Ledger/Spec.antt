-- ===== src/Budget/Ledger/Spec.antt =====
-- The invariant that ties the balances to the ledger.
use aidan_venture_os.Base.{ℕ, ◌≤◌, ◌≡◌, none, some, false}
use aidan_venture_os.Db.Rows.{ActionRequest, CapitalEntry, EntryType}
use aidan_venture_os.Db.Tx.{Db}
use aidan_venture_os.Db.Queries.{find_action, find_account}
use aidan_venture_os.Budget.{entry_of}
use aidan_venture_os.Budget.Ledger.Sums.{posted, held, is_closed, IsDistinct}
use aidan_venture_os.Budget.Ledger.Accounts.{IsKeyed, row, column, id_of}

-- The balances of every account are what its entries add up to: granted is the sum of GRANT,
-- committed the sum of COMMIT, reserved the sum of the reservations that are neither released nor
-- committed. An action's RESERVE stands in the account of its venture and currency.
pub record IsConsistent (db : Db) : Type 0 where
  pub granted :
      (i : ℕ) → column (λ r. r.granted) (row i db.accounts) ≡ posted EntryType.grant i db.entries
  pub committed :
      (i : ℕ) → column (λ r. r.committed) (row i db.accounts) ≡ posted EntryType.commit i db.entries
  pub reserved : (i : ℕ) → column (λ r. r.reserved) (row i db.accounts) ≡ held i db.entries
  pub keyed : IsKeyed db.accounts
  pub unused : (i : ℕ) → db.next_id ≤ i → row i db.accounts ≡ none
  pub distinct : IsDistinct db.entries
  pub opened :
      (a : ℕ)
      → entry_of a EntryType.reserve db.entries ≡ none
      → is_closed db.entries (some a) ≡ false
  pub homed :
      (a : ℕ) (act : ActionRequest) (e : CapitalEntry)
      → find_action a db.actions ≡ some act
      → entry_of a EntryType.reserve db.entries ≡ some e
      → id_of (find_account act.venture_id act.requested_currency db.accounts) ≡ some e.account_id
