-- ===== src/Budget/Ledger/Overdraft.antt =====
-- No sequence of operations of budget.py overdraws an account.
use aidan_venture_os.Base.{
  ℕ, ◌+◌, String, ◌≡◌, Bool, Option, none, ◌∷◌, inl, inr, arith, update, Option-cases,
}
use aidan_venture_os.Base.Int.{ℤ, pos_part}
use aidan_venture_os.Db.Rows.{BudgetAccount, EntryType}
use aidan_venture_os.Db.Tx.{Db, ok, record_event}
use aidan_venture_os.Db.Queries.{find_action, find_account, has_account_id}
use aidan_venture_os.Budget.{
  capital_state, commit_budget, entry_of, grant_budget, insert_entry, post_grant,
  reconcile_completion, release_budget, reserve_budget, upsert_account,
}
use aidan_venture_os.Budget.Ledger.Limits.{
  AreCovered, grant-AreCovered, reserve_on-AreCovered, release_on-AreCovered, commit_on-AreCovered,
  reconcile_on-AreCovered,
}

-- one operation of budget.py that goes through, with any parameters; a reconciliation, of an action
-- that has no RELEASE entry
pub data Post (db db' : Db) : Type 0 where
  granted :
      (v : ℕ) (n : ℤ) (c by : String) (ref : Option String) (i : ℕ)
      → grant_budget v n c by ref db ≡ ok (i, db')
      → Post db db'
  reserved :
      (a : ℕ) (actor : String) (b : Bool) → reserve_budget a actor db ≡ ok (b, db') → Post db db'
  released :
      (a : ℕ) (actor : String) (b : Bool) → release_budget a actor db ≡ ok (b, db') → Post db db'
  committed :
      (a : ℕ) (actor : String) (b : Bool) → commit_budget a actor db ≡ ok (b, db') → Post db db'
  reconciled :
      (a : ℕ) (n : ℤ) (actor : String) (u : Unit {0})
      → entry_of a EntryType.release db.entries ≡ none
      → reconcile_completion a n actor db ≡ ok (u, db')
      → Post db db'

pub data Posts : Db → Db → Type 0 where
  stop : {db : Db} → Posts db db
  next : {db mid db' : Db} → Post db mid → Posts mid db' → Posts db db'

module _ (db db' : Db) (c : AreCovered db.accounts) where
  grant_budget-AreCovered :
      (v : ℕ) (n : ℤ) (k by : String) (ref : Option String) (i : ℕ)
      → grant_budget v n k by ref db ≡ ok (i, db')
      → AreCovered db'.accounts
  unfolding grant_budget upsert_account post_grant insert_entry record_event
  grant_budget-AreCovered v n k by ref i e = elim (Option-cases (find_account v k db.accounts)) [
    | inl p ↦
        let added : db'.accounts ≡ (
            (record {
              id = db.next_id;
              venture_id = v;
              currency = k;
              granted = pos_part n;
              reserved = 0;
              committed = 0;
            })
            ∷ db.accounts) =
          ground arith in
        rw added (omega arith, c)
    | inr (acc, p) ↦
        let grown : db'.accounts
            ≡ update (has_account_id acc.id)
                (λ (r : BudgetAccount). record r { granted = r.granted + pos_part n }) db.accounts =
          ground arith in
        rw grown (grant-AreCovered acc.id (pos_part n) db.accounts c)
  ]

  reserve_budget-AreCovered :
      (a : ℕ) (actor : String) (b : Bool)
      → reserve_budget a actor db ≡ ok (b, db')
      → AreCovered db'.accounts
  unfolding reserve_budget
  reserve_budget-AreCovered a actor b e = elim (Option-cases (find_action a db.actions)) [
    | inl p ↦ absurd (ground arith)
    | inr (act, p) ↦
        elim (Option-cases (find_account act.venture_id act.requested_currency db.accounts)) [
          | inl q ↦ absurd (ground arith)
          | inr (acc, q) ↦
              reserve_on-AreCovered act acc actor (capital_state act.id db) db db' c b
                (ground arith)
        ]
  ]

  release_budget-AreCovered :
      (a : ℕ) (actor : String) (b : Bool)
      → release_budget a actor db ≡ ok (b, db')
      → AreCovered db'.accounts
  unfolding release_budget
  release_budget-AreCovered a actor b e = elim (Option-cases (find_action a db.actions)) [
    | inl p ↦ absurd (ground arith)
    | inr (act, p) ↦
        elim (Option-cases (find_account act.venture_id act.requested_currency db.accounts)) [
          | inl q ↦ let same : db'.accounts ≡ db.accounts = ground arith in rw same c
          | inr (acc, q) ↦
              release_on-AreCovered act acc actor (capital_state act.id db) db db' c b
                (ground arith)
        ]
  ]

  commit_budget-AreCovered :
      (a : ℕ) (actor : String) (b : Bool)
      → commit_budget a actor db ≡ ok (b, db')
      → AreCovered db'.accounts
  unfolding commit_budget
  commit_budget-AreCovered a actor b e = elim (Option-cases (find_action a db.actions)) [
    | inl p ↦ absurd (ground arith)
    | inr (act, p) ↦
        elim (Option-cases (find_account act.venture_id act.requested_currency db.accounts)) [
          | inl q ↦ absurd (ground arith)
          | inr (acc, q) ↦
              commit_on-AreCovered act acc actor (capital_state act.id db) db db' c b (ground arith)
        ]
  ]

  reconcile_completion-AreCovered :
      (a : ℕ) (n : ℤ) (actor : String) (u : Unit {0})
      → reconcile_completion a n actor db ≡ ok (u, db')
      → AreCovered db'.accounts
  unfolding reconcile_completion
  reconcile_completion-AreCovered a n actor u e = elim (Option-cases (find_action a db.actions)) [
    | inl p ↦ absurd (ground arith)
    | inr (act, p) ↦
        elim (Option-cases (find_account act.venture_id act.requested_currency db.accounts)) [
          | inl q ↦ absurd (ground arith)
          | inr (acc, q) ↦
              reconcile_on-AreCovered act acc actor (capital_state act.id db) db db' c (pos_part n)
                u (ground arith)
        ]
  ]

  Post-AreCovered : Post db db' → AreCovered db'.accounts
  Post-AreCovered (Post.granted v n k by ref i e) = grant_budget-AreCovered v n k by ref i e
  Post-AreCovered (Post.reserved a actor b e) = reserve_budget-AreCovered a actor b e
  Post-AreCovered (Post.released a actor b e) = release_budget-AreCovered a actor b e
  Post-AreCovered (Post.committed a actor b e) = commit_budget-AreCovered a actor b e
  Post-AreCovered (Post.reconciled a n actor u k e) = reconcile_completion-AreCovered a n actor u e

-- the CHECK of the table, over a sequence of operations
pub Posts-AreCovered :
    {db db' : Db} → Posts db db' → AreCovered db.accounts → AreCovered db'.accounts
Posts-AreCovered Posts.stop c = c
Posts-AreCovered (Posts.next {db} {mid} p ps) c = Posts-AreCovered ps (Post-AreCovered db mid c p)
