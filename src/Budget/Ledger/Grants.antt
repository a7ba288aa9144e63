-- ===== src/Budget/Ledger/Grants.antt =====
-- `grant_budget` keeps the balances equal to what the ledger adds up to.
use aidan_venture_os.Base.{
  ℕ, ◌+◌, ◌≤◌, String, ◌≡◌, refl, sym, subst, Option, none, some, inl, inr, arith, Option-cases,
  ◌⊎◌, ◌∷◌, update,
}
use aidan_venture_os.Base.Int.{ℤ, pos_part}
use aidan_venture_os.Db.Rows.{BudgetAccount, CapitalEntry, EntryType}
use aidan_venture_os.Db.Tx.{Db, ok, record_event, Result-cases}
use aidan_venture_os.Db.Queries.{has_account_id, find_account}
use aidan_venture_os.Budget.{upsert_account, post_grant, insert_entry, clashes, grant_budget}
use aidan_venture_os.Budget.Ledger.Accounts.{row-find_account}
use aidan_venture_os.Budget.Ledger.Spec.{IsConsistent}
use aidan_venture_os.Budget.Ledger.Posts.{grant-IsConsistent, open-IsConsistent}

abbrev grant_entry : ℕ → ℕ → ℕ → String → Option String → CapitalEntry
grant_entry venture_id account_id amount currency reference = record {
  venture_id = venture_id;
  account_id = account_id;
  action_id = none;
  kind = EntryType.grant;
  amount = amount;
  currency = currency;
  reference = reference;
}

abbrev funded : Db → ℕ → ℕ → Db
funded db i amount = record db {
  accounts =
      update (has_account_id i) (λ (r : BudgetAccount). record r { granted = r.granted + amount })
        db.accounts;
}

abbrev opened : Db → ℕ → String → ℕ → Db
opened db v c amount = record db {
  accounts =
      (record {
        id = db.next_id;
        venture_id = v;
        currency = c;
        granted = amount;
        reserved = 0;
        committed = 0;
      })
      ∷ db.accounts;
  next_id = db.next_id + 1;
}

upsert_account_effect :
    (v : ℕ) (c : String) (amount : ℕ) (db db' : Db) (i : ℕ)
    → upsert_account v c amount db ≡ ok (i, db')
    → ((acc : BudgetAccount) × (find_account v c db.accounts ≡ some acc)
        × (i ≡ acc.id)
        × (db' ≡ funded db acc.id amount))
      ⊎ ((find_account v c db.accounts ≡ none) × (i ≡ db.next_id) × (db' ≡ opened db v c amount))
unfolding upsert_account
upsert_account_effect v c amount db db' i e = elim (Option-cases (find_account v c db.accounts)) [
  | inr (acc, q) ↦ inl (acc, q, ground arith, ground arith)
  | inl q ↦ inr (q, ground arith, ground arith)
]

post_grant_effect :
    (v amount : ℕ) (c by : String) (ref : Option String) (i : ℕ) (db db' : Db) (j : ℕ)
    → post_grant v amount c by ref i db ≡ ok (j, db')
    → (db.next_id ≤ db'.next_id)
      × (db' ≡ record db {
        entries = grant_entry v i amount c ref ∷ db.entries;
        audit_log = db'.audit_log;
        next_id = db'.next_id;
      })
unfolding post_grant insert_entry clashes record_event
post_grant_effect v amount c by ref i db db' j e = (ground arith, ground arith)

module _ (v amount : ℕ) (c by : String) (ref : Option String) (db : Db) (h : IsConsistent db) where
  module _ (db' : Db) (j : ℕ) where
    post_grant-funded :
        (acc : BudgetAccount)
        → find_account v c db.accounts ≡ some acc
        → post_grant v amount c by ref acc.id (funded db acc.id amount) ≡ ok (j, db')
        → IsConsistent db'
    post_grant-funded acc q e =
        let (grows, is_post) =
          post_grant_effect v amount c by ref acc.id (funded db acc.id amount) db' j e in
        subst IsConsistent (sym is_post) (
          grant-IsConsistent db h db'.audit_log db'.next_id (grant_entry v acc.id amount c ref) acc
            refl refl (row-find_account v c acc db.accounts h.keyed q) grows)

    post_grant-opened :
        find_account v c db.accounts ≡ none
        → post_grant v amount c by ref db.next_id (opened db v c amount) ≡ ok (j, db')
        → IsConsistent db'
    post_grant-opened q e =
        let (grows, is_post) =
          post_grant_effect v amount c by ref db.next_id (opened db v c amount) db' j e in
        subst IsConsistent (sym is_post) (
          open-IsConsistent db h db'.audit_log db'.next_id (grant_entry v db.next_id amount c ref)
            (record {
              id = db.next_id;
              venture_id = v;
              currency = c;
              granted = amount;
              reserved = 0;
              committed = 0;
            })
            refl refl refl refl refl refl refl q (omega arith))

-- `grant_budget`, where it does not raise, keeps the database consistent, for a new account and for
-- one that is there.
pub grant_budget-IsConsistent :
    (v : ℕ) (amount : ℤ) (c by : String) (ref : Option String) (db db' : Db) (j : ℕ)
    → IsConsistent db
    → grant_budget v amount c by ref db ≡ ok (j, db')
    → IsConsistent db'
unfolding grant_budget
grant_budget-IsConsistent v amount c by ref db db' j h e =
    let n = pos_part amount in
    elim (Result-cases (upsert_account v c n db)) [
      | inr (x, f) ↦ absurd (ground arith)
      | inl (i, mid, f) ↦
          let g : post_grant v n c by ref i mid ≡ ok (j, db') = ground arith in
          elim (upsert_account_effect v c n db mid i f) [
            | inl (acc, q, is_i, is_mid) ↦
                post_grant-funded v n c by ref db h db' j acc q (cc (g, is_i, is_mid))
            | inr (q, is_i, is_mid) ↦
                post_grant-opened v n c by ref db h db' j q (cc (g, is_i, is_mid))
          ]
    ]
