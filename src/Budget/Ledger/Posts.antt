-- ===== src/Budget/Ledger/Posts.antt =====
-- One posting, an update of an account together with a ledger entry, keeps the invariant.
use aidan_venture_os.Base.{
  ℕ, ◌+◌, ◌≤◌, ◌<◌, ◌≡◌, refl, true, false, Option, none, some, List, ◌∷◌, ◌⊎◌, update, find, arith,
  String,
}
use aidan_venture_os.Db.Rows.{ActionRequest, BudgetAccount, CapitalEntry, EntryType, AuditEvent}
use aidan_venture_os.Db.Tx.{Db}
use aidan_venture_os.Db.Queries.{find_action, find_account, has_account_id}
use aidan_venture_os.Budget.{entry_of, entry_for, shift, clashes}
use aidan_venture_os.Budget.Ledger.Sums.{
  posted, is_closed, held-other, held-close, held-close_again, is_closed-other, is_closed-ends,
}
use aidan_venture_os.Budget.Ledger.Accounts.{
  row, row-update, update-IsKeyed, id_of-update, id_of-cons, row-find_account,
}
use aidan_venture_os.Budget.Ledger.Spec.{IsConsistent}

-- the database after an update of account `i` and an insertion of `e`
abbrev pub post : Db → ℕ → ℕ → ℕ → ℕ → CapitalEntry → List AuditEvent → ℕ → Db
post db i plus minus spent e log n = record db {
  accounts = update (has_account_id i) (shift plus minus spent) db.accounts;
  entries = e ∷ db.entries;
  audit_log = log;
  next_id = n;
}

module _ (db : Db) (h : IsConsistent db) (act : ActionRequest) (acc : BudgetAccount) where
  module _ (is_act : find_action act.id db.actions ≡ some act)
      (is_acc : find_account act.venture_id act.requested_currency db.accounts ≡ some acc)
      (log : List AuditEvent) (n : ℕ) (grows : db.next_id ≤ n) where
    pub reserve-IsConsistent :
        (amount : ℕ) (ref : Option String)
        → entry_of act.id EntryType.reserve db.entries ≡ none
        → IsConsistent
            (post db acc.id amount 0 0 (entry_for act acc EntryType.reserve amount ref) log n)
    unfolding posted clashes entry_of find
    reserve-IsConsistent amount ref new =
        let e = entry_for act acc EntryType.reserve amount ref in
        let f = shift amount 0 0 in
        record {
          granted = λ i. ground (arith, h.granted i, row-update acc.id f (λ r. refl) i db.accounts);
          committed =
              λ i. ground (arith, h.committed i, row-update acc.id f (λ r. refl) i db.accounts);
          reserved = λ i. ground (
            arith,
            h.reserved i,
            row-update acc.id f (λ r. refl) i db.accounts,
            held-other i e db.entries refl refl,
            h.opened act.id new,
            row-find_account act.venture_id act.requested_currency acc db.accounts h.keyed is_acc,
          );
          keyed = update-IsKeyed acc.id f (λ r. refl) db.accounts h.keyed;
          unused = λ i k. ground (arith, h.unused i, row-update acc.id f (λ r. refl) i db.accounts);
          distinct = ground (arith, h.distinct);
          opened =
              λ a k. ground (arith, h.opened a, is_closed-other e db.entries (some a) refl refl);
          homed = λ a act' r p q.
              rw
                (id_of-update acc.id f (λ s. refl) act'.venture_id act'.requested_currency
                  db.accounts (λ s. refl))
                (ground (arith, h.homed a act' r p));
        }

    -- the first closing entry of an action, which takes its reservation out of the account
    pub close-IsConsistent :
        (e r : CapitalEntry) (spent : ℕ)
        → e.action_id ≡ some act.id
        → e.account_id ≡ acc.id
        → ((e.kind ≡ EntryType.release) × (spent ≡ 0))
          ⊎ ((e.kind ≡ EntryType.commit) × (spent ≡ e.amount))
        → entry_of act.id EntryType.reserve db.entries ≡ some r
        → is_closed db.entries (some act.id) ≡ false
        → clashes e db.entries ≡ false
        → r.amount ≤ acc.reserved
        → IsConsistent (post db acc.id 0 r.amount spent e log n)
    unfolding posted entry_of find
    close-IsConsistent e r spent of_act at_acc kinds open_r open_a new fit =
        let f = shift 0 r.amount spent in
        record {
          granted = λ i. ground (arith, h.granted i, row-update acc.id f (λ s. refl) i db.accounts);
          committed = λ i. ground (
            arith,
            h.committed i,
            row-update acc.id f (λ s. refl) i db.accounts,
            row-find_account act.venture_id act.requested_currency acc db.accounts h.keyed is_acc,
          );
          reserved = λ i. ground (
            arith,
            h.reserved i,
            row-update acc.id f (λ s. refl) i db.accounts,
            held-close act.id i e r db.entries of_act,
            h.homed act.id act r is_act open_r,
            row-find_account act.venture_id act.requested_currency acc db.accounts h.keyed is_acc,
          );
          keyed = update-IsKeyed acc.id f (λ s. refl) db.accounts h.keyed;
          unused = λ i k. ground (arith, h.unused i, row-update acc.id f (λ s. refl) i db.accounts);
          distinct = (new, h.distinct);
          opened = λ a k. ground (arith, h.opened a, is_closed-ends act.id e db.entries (some a));
          homed = λ a act' s p q.
              rw
                (id_of-update acc.id f (λ t. refl) act'.venture_id act'.requested_currency
                  db.accounts (λ t. refl))
                (ground (arith, h.homed a act' s p));
        }

-- A second closing entry; a GRANT entry, with the account that it funds.
module _ (db : Db) (h : IsConsistent db) (log : List AuditEvent) (n : ℕ) where
  -- a further closing entry, as `reconcile_completion` writes for the unused part
  pub close_again-IsConsistent :
      (a : ℕ) (e : CapitalEntry)
      → e.action_id ≡ some a
      → e.kind ≡ EntryType.release
      → is_closed db.entries (some a) ≡ true
      → clashes e db.entries ≡ false
      → db.next_id ≤ n
      → IsConsistent (record db { entries = e ∷ db.entries; audit_log = log; next_id = n })
  unfolding posted entry_of find
  close_again-IsConsistent a e of_act kind shut new grows = record {
    granted = λ i. ground (arith, h.granted i);
    committed = λ i. ground (arith, h.committed i);
    reserved = λ i. ground (arith, h.reserved i, held-close_again a i e db.entries of_act);
    keyed = h.keyed;
    unused = λ i k. ground (arith, h.unused i);
    distinct = (new, h.distinct);
    opened = λ b k. ground (arith, h.opened b, is_closed-ends a e db.entries (some b));
    homed = λ b act s p q. ground (arith, h.homed b act s p);
  }

  pub grant-IsConsistent :
      (e : CapitalEntry) (acc : BudgetAccount)
      → e.action_id ≡ none
      → e.kind ≡ EntryType.grant
      → row e.account_id db.accounts ≡ some acc
      → db.next_id ≤ n
      → IsConsistent (record db {
        accounts =
            update
              (has_account_id e.account_id)
              (λ (r : BudgetAccount). record r { granted = r.granted + e.amount })
              db.accounts;
        entries = e ∷ db.entries;
        audit_log = log;
        next_id = n;
      })
  unfolding posted entry_of find clashes
  grant-IsConsistent e acc no_act kind is_acc grows =
      let f = λ (r : BudgetAccount). record r { granted = r.granted + e.amount } in
      record {
        granted =
            λ i. ground (arith, h.granted i, row-update e.account_id f (λ s. refl) i db.accounts);
        committed =
            λ i. ground (arith, h.committed i, row-update e.account_id f (λ s. refl) i db.accounts);
        reserved = λ i. ground (
          arith,
          h.reserved i,
          row-update e.account_id f (λ s. refl) i db.accounts,
          held-other i e db.entries,
        );
        keyed = update-IsKeyed e.account_id f (λ s. refl) db.accounts h.keyed;
        unused =
            λ i k. ground (arith, h.unused i, row-update e.account_id f (λ s. refl) i db.accounts);
        distinct = ground (arith, h.distinct);
        opened = λ a k. ground (arith, h.opened a, is_closed-other e db.entries (some a));
        homed = λ a act s p q.
            rw
              (id_of-update e.account_id f (λ t. refl) act.venture_id act.requested_currency
                db.accounts (λ t. refl))
              (ground (arith, h.homed a act s p));
      }

  pub open-IsConsistent :
      (e : CapitalEntry) (acc : BudgetAccount)
      → e.action_id ≡ none
      → e.kind ≡ EntryType.grant
      → e.account_id ≡ acc.id
      → acc.id ≡ db.next_id
      → acc.granted ≡ e.amount
      → acc.reserved ≡ 0
      → acc.committed ≡ 0
      → find_account acc.venture_id acc.currency db.accounts ≡ none
      → db.next_id < n
      → IsConsistent (record db {
        accounts = acc ∷ db.accounts;
        entries = e ∷ db.entries;
        audit_log = log;
        next_id = n;
      })
  unfolding posted entry_of find clashes
  open-IsConsistent e acc no_act kind at_acc is_new g r c none_yet grows = record {
    granted = λ i. ground (arith, h.granted i, h.unused i);
    committed = λ i. ground (arith, h.committed i, h.unused i);
    reserved = λ i. ground (arith, h.reserved i, h.unused i, held-other i e db.entries);
    keyed = ground (arith, h.keyed, h.unused acc.id);
    unused = λ i k. ground (arith, h.unused i);
    distinct = ground (arith, h.distinct);
    opened = λ a k. ground (arith, h.opened a, is_closed-other e db.entries (some a));
    homed = λ a act s p q.
        id_of-cons act.venture_id act.requested_currency acc db.accounts s.account_id none_yet
          (ground (arith, h.homed a act s p));
  }

-- Steps that leave accounts and entries alone, and change no action's venture or currency.
pub carry-IsConsistent :
    (db db' : Db)
    → IsConsistent db
    → db'.accounts ≡ db.accounts
    → db'.entries ≡ db.entries
    → db.next_id ≤ db'.next_id
    → ((a : ℕ) (act' : ActionRequest)
        → find_action a db'.actions ≡ some act'
        → (act : ActionRequest) × (find_action a db.actions ≡ some act)
          × (act'.venture_id ≡ act.venture_id)
          × (act'.requested_currency ≡ act.requested_currency))
    → IsConsistent db'
carry-IsConsistent db db' h accounts entries grows same = record {
  granted = λ i. rw (accounts, entries) (h.granted i);
  committed = λ i. rw (accounts, entries) (h.committed i);
  reserved = λ i. rw (accounts, entries) (h.reserved i);
  keyed = rw accounts h.keyed;
  unused = λ i k. rw accounts (h.unused i (omega arith));
  distinct = rw entries h.distinct;
  opened = λ a k. rw entries (h.opened a (rw entries at k));
  homed = λ a act' e p q.
      let (act, r, v, c) = same a act' p in
      rw (accounts, v, c) (h.homed a act e r (rw entries at q));
}
