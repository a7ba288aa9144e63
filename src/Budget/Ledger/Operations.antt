-- ===== src/Budget/Ledger/Operations.antt =====
-- Every operation of budget.py keeps the balances equal to what the ledger adds up to.
use aidan_venture_os.Base.{
  ℕ, ◌-◌, String, ◌≡◌, refl, sym, subst, Bool, true, none, some, inl, inr, arith, is_some,
  Option-cases, find, find_sound, ==-sound,
}
use aidan_venture_os.Base.Int.{ℤ, pos_part}
use aidan_venture_os.Db.Rows.{ActionRequest, BudgetAccount, EntryType}
use aidan_venture_os.Db.Tx.{Db, ok, record_event}
use aidan_venture_os.Db.Queries.{has_action_id, find_action, find_account}
use aidan_venture_os.Budget.{
  entry_of, capital_state, reserve_on, release_on, commit_on, reconcile_on, move_funds,
  insert_entry, reserve_budget, release_budget, commit_budget, reconcile_completion, entry_for,
  clashes,
}
use aidan_venture_os.Budget.Ledger.Sums.{is_closed-none, is_closed-ends}
use aidan_venture_os.Budget.Ledger.Accounts.{row, row-find_account}
use aidan_venture_os.Budget.Ledger.Spec.{IsConsistent}
use aidan_venture_os.Budget.Ledger.Posts.{
  post, reserve-IsConsistent, close-IsConsistent, close_again-IsConsistent,
}
use aidan_venture_os.Budget.Ledger.Effects.{
  reserve_on_effect, release_on_effect, commit_on_effect, reconcile_on_effect, unused_entry,
  actual_entry,
}

pub find_action-id :
    (a : ℕ) (db : Db) (act : ActionRequest) → find_action a db.actions ≡ some act → act.id ≡ a
unfolding find_action
find_action-id a db act h = ==-sound act.id a (find_sound (has_action_id a) db.actions act h)

module _ (db : Db) (h : IsConsistent db) (act : ActionRequest) (acc : BudgetAccount) where
  module _ (actor : String) (is_act : find_action act.id db.actions ≡ some act)
      (is_acc : find_account act.venture_id act.requested_currency db.accounts ≡ some acc) where
    is_row : row acc.id db.accounts ≡ some acc
    is_row = row-find_account act.venture_id act.requested_currency acc db.accounts h.keyed is_acc

    reserve_on-IsConsistent :
        (b : Bool) (db' : Db)
        → reserve_on act acc actor (capital_state act.id db) db ≡ ok (b, db')
        → IsConsistent db'
    reserve_on-IsConsistent b db' e = elim (reserve_on_effect act acc actor db db' b is_row e) [
      | inl same ↦ rw same h
      | inr (new, grows, room, is_post) ↦ subst IsConsistent (sym is_post) (
          reserve-IsConsistent db h act acc is_act is_acc db'.audit_log db'.next_id grows
            act.requested_amount none new)
    ]

    release_on-IsConsistent :
        (b : Bool) (db' : Db)
        → release_on act acc actor (capital_state act.id db) db ≡ ok (b, db')
        → IsConsistent db'
    unfolding clashes
    release_on-IsConsistent b db' e = elim (release_on_effect act acc actor db db' b is_row e) [
      | inl same ↦ rw same h
      | inr (r, is_r, p, q, fit, grows, is_post) ↦
          let entry = entry_for act acc EntryType.release r.amount none in
          subst IsConsistent (sym is_post) (
            close-IsConsistent db h act acc is_act is_acc db'.audit_log db'.next_id grows entry r 0
              refl refl (inl (refl, refl)) is_r (is_closed-none act.id db.entries p q)
              (ground arith) fit)
    ]

    commit_on-IsConsistent :
        (b : Bool) (db' : Db)
        → commit_on act acc actor (capital_state act.id db) db ≡ ok (b, db')
        → IsConsistent db'
    unfolding clashes
    commit_on-IsConsistent b db' e = elim (commit_on_effect act acc actor db db' b is_row e) [
      | inl same ↦ rw same h
      | inr (r, is_r, p, q, fit, grows, is_post) ↦
          let entry = entry_for act acc EntryType.commit r.amount none in
          subst IsConsistent (sym is_post) (
            close-IsConsistent db h act acc is_act is_acc db'.audit_log db'.next_id grows entry r
              r.amount refl refl (inr (refl, refl)) is_r (is_closed-none act.id db.entries p q)
              (ground arith) fit)
    ]

    reconcile_on-IsConsistent :
        (actual : ℕ) (u : Unit {0}) (db' : Db)
        → entry_of act.id EntryType.release db.entries ≡ none
        → reconcile_on act acc actual actor (capital_state act.id db) db ≡ ok (u, db')
        → IsConsistent db'
    unfolding clashes
    reconcile_on-IsConsistent actual u db' p e =
        elim (reconcile_on_effect act acc actual actor db db' u is_row e) [
          | inl (_, same) ↦ rw same h
          | inr (r, is_r, q, fit, grows, ending) ↦
              let entry = actual_entry act acc actual in
              let done = post db acc.id 0 r.amount actual entry db'.audit_log db'.next_id in
              let keeps : IsConsistent done =
                close-IsConsistent db h act acc is_act is_acc db'.audit_log db'.next_id grows entry
                  r actual refl refl (inr (refl, refl)) is_r (is_closed-none act.id db.entries p q)
                  (ground arith) fit in
              elim ending [
                | inl (_, is_post) ↦ subst IsConsistent (sym is_post) keeps
                | inr (_, new, is_post) ↦ subst IsConsistent (sym is_post) (
                    close_again-IsConsistent done keeps db'.audit_log db'.next_id act.id
                      (unused_entry act acc (r.amount - actual)) refl refl
                      (ground (arith, is_closed-ends act.id entry db.entries (some act.id))) new
                      (omega arith))
              ]
        ]

-- Where a chain of lookups has succeeded.
module _ (a : ℕ) (db : Db) (act : ActionRequest) (p : find_action a db.actions ≡ some act) where
  pub same_act : find_action act.id db.actions ≡ some act
  same_act = subst (λ i. find_action i db.actions ≡ some act) (sym (find_action-id a db act p)) p

-- `reserve_budget`, where it does not raise, keeps the database consistent: the balances of every
-- account stay what its ledger entries add up to.
pub reserve_budget-IsConsistent :
    (a : ℕ) (actor : String) (db db' : Db) (b : Bool)
    → IsConsistent db
    → reserve_budget a actor db ≡ ok (b, db')
    → IsConsistent db'
unfolding reserve_budget
reserve_budget-IsConsistent a actor db db' b h e = elim (Option-cases (find_action a db.actions)) [
  | inl p ↦ absurd (ground arith)
  | inr (act, p) ↦
      elim (Option-cases (find_account act.venture_id act.requested_currency db.accounts)) [
        | inl q ↦ absurd (ground arith)
        | inr (acc, q) ↦
            reserve_on-IsConsistent db h act acc actor (same_act a db act p) q b db' (ground arith)
      ]
]

-- `release_budget`, where it does not raise, keeps the database consistent in the same sense.
pub release_budget-IsConsistent :
    (a : ℕ) (actor : String) (db db' : Db) (b : Bool)
    → IsConsistent db
    → release_budget a actor db ≡ ok (b, db')
    → IsConsistent db'
unfolding release_budget
release_budget-IsConsistent a actor db db' b h e = elim (Option-cases (find_action a db.actions)) [
  | inl p ↦ absurd (ground arith)
  | inr (act, p) ↦
      elim (Option-cases (find_account act.venture_id act.requested_currency db.accounts)) [
        | inl q ↦ let same : db' ≡ db = ground arith in rw same h
        | inr (acc, q) ↦
            release_on-IsConsistent db h act acc actor (same_act a db act p) q b db' (ground arith)
      ]
]

-- `commit_budget`, where it does not raise, keeps the database consistent in the same sense.
pub commit_budget-IsConsistent :
    (a : ℕ) (actor : String) (db db' : Db) (b : Bool)
    → IsConsistent db
    → commit_budget a actor db ≡ ok (b, db')
    → IsConsistent db'
unfolding commit_budget
commit_budget-IsConsistent a actor db db' b h e = elim (Option-cases (find_action a db.actions)) [
  | inl p ↦ absurd (ground arith)
  | inr (act, p) ↦
      elim (Option-cases (find_account act.venture_id act.requested_currency db.accounts)) [
        | inl q ↦ absurd (ground arith)
        | inr (acc, q) ↦
            commit_on-IsConsistent db h act acc actor (same_act a db act p) q b db' (ground arith)
      ]
]

-- `reconcile_completion`, where it does not raise, keeps the database consistent in the same sense,
-- for an action that has no RELEASE entry.
pub reconcile_completion-IsConsistent :
    (a : ℕ) (actual : ℤ) (actor : String) (db db' : Db) (u : Unit {0})
    → IsConsistent db
    → entry_of a EntryType.release db.entries ≡ none
    → reconcile_completion a actual actor db ≡ ok (u, db')
    → IsConsistent db'
unfolding reconcile_completion
reconcile_completion-IsConsistent a actual actor db db' u h n e =
    elim (Option-cases (find_action a db.actions)) [
      | inl p ↦ absurd (ground arith)
      | inr (act, p) ↦
          elim (Option-cases (find_account act.venture_id act.requested_currency db.accounts)) [
            | inl q ↦ absurd (ground arith)
            | inr (acc, q) ↦
                reconcile_on-IsConsistent db h act acc actor (same_act a db act p) q
                  (pos_part actual) u db' (rw (find_action-id a db act p) n) (ground arith)
          ]
    ]

-- After `_reserve` the action has its RESERVE entry.
pub reserve_budget_reserved :
    (a : ℕ) (actor : String) (db db' : Db) (b : Bool)
    → reserve_budget a actor db ≡ ok (b, db')
    → is_some (entry_of a EntryType.reserve db'.entries) ≡ true
unfolding reserve_budget reserve_on move_funds insert_entry record_event entry_of find
reserve_budget_reserved a actor db db' b e = elim (Option-cases (find_action a db.actions)) [
  | inl p ↦ absurd (ground arith)
  | inr (act, p) ↦ ground (arith, find_action-id a db act p)
]
