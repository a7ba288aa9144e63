-- ===== src/Budget/Ledger/Undo.antt =====
-- A release undoes a reservation.
use aidan_venture_os.Base.{
  ℕ, String, ◌≡◌, refl, ap, true, false, none, some, List, [], ◌∷◌, ◌==◌, inl, inr, arith, find,
  update, Option-cases, Bool-cases, str_eq, find_sound, ◌∙◌,
}
use aidan_venture_os.Db.Rows.{ActionRequest, BudgetAccount, EntryType}
use aidan_venture_os.Db.Tx.{Db, ok, Result-cases, record_event}
use aidan_venture_os.Db.Queries.{find_action, find_account, has_account_id, is_account_of}
use aidan_venture_os.Budget.{
  capital_state, entry_of, clashes, entry_for, fits, insert_entry, move_funds, release_budget,
  release_on, reserve_budget, reserve_on, shift,
}
use aidan_venture_os.Budget.Ledger.Accounts.{IsKeyed, row-find_account, row-update}

shift-undo : (n : ℕ) (r : BudgetAccount) → shift 0 n 0 (shift n 0 0 r) ≡ r
shift-undo n r = ground arith

update-undo :
    (i n : ℕ) (rows : List BudgetAccount)
    → update (has_account_id i) (shift 0 n 0) (update (has_account_id i) (shift n 0 0) rows) ≡ rows
unfolding update
update-undo i n [] = refl
update-undo i n (x ∷ xs) = ground (arith, update-undo i n xs, shift-undo n x)

reserve_on_effect :
    (act : ActionRequest) (acc : BudgetAccount) (actor : String) (db db1 : Db)
    → reserve_on act acc actor (capital_state act.id db) db ≡ ok (true, db1)
    → find (has_account_id acc.id) db.accounts ≡ some acc
    → (db1.actions ≡ db.actions)
      × (db1.accounts ≡ update (has_account_id acc.id) (shift act.requested_amount 0 0) db.accounts)
unfolding reserve_on move_funds insert_entry record_event
reserve_on_effect act acc actor db db1 e f = (ground arith, ground arith)

module _ (act : ActionRequest) (acc : BudgetAccount) (actor actor' : String) (db db1 : Db) where
  -- a release, just after a reservation of the action, on the account as the reservation left it
  release_after_reserve_on :
      reserve_on act acc actor (capital_state act.id db) db ≡ ok (true, db1)
      → find (has_account_id acc.id) db.accounts ≡ some acc
      → entry_of act.id EntryType.release db.entries ≡ none
      → entry_of act.id EntryType.commit db.entries ≡ none
      → str_eq actor' "" ≡ false
      → (db2 : Db) × (release_on act
            (shift act.requested_amount 0 0 acc)
            actor'
            (capital_state act.id db1)
            db1
          ≡ ok (true, db2))
        × (db2.accounts ≡ db.accounts)
  unfolding reserve_on release_on move_funds insert_entry clashes record_event entry_of find
  release_after_reserve_on e f r k n =
      let n0 = act.requested_amount in
      let moved : db1.accounts ≡ update (has_account_id acc.id) (shift n0 0 0) db.accounts =
        ground arith in
      let there : find (has_account_id acc.id) db1.accounts ≡ some (shift n0 0 0 acc) =
        ground (arith, moved, row-update acc.id (shift n0 0 0) (λ _. refl) acc.id db.accounts) in
      let undone = update-undo acc.id n0 db.accounts in
      let added : db1.entries ≡ (entry_for act acc EntryType.reserve n0 none ∷ db.entries) =
        ground arith in
      let fitted : fits n0 0 0 acc ≡ true = ground arith in
      let fits_back : fits 0 n0 0 (shift n0 0 0 acc) ≡ true = ground arith in
      elim (Result-cases
        (release_on act (shift n0 0 0 acc) actor' (capital_state act.id db1) db1)) [
          | inr (x, p) ↦ absurd (ground arith)
          | inl (b, db2, p) ↦ (db2, ground arith, ground arith)
        ]

-- the account of a venture and a currency, after an update by its identifier
find_account-update :
    (v : ℕ) (c : String) (n : ℕ) (acc : BudgetAccount) (rows : List BudgetAccount)
    → find_account v c rows ≡ some acc
    → find (has_account_id acc.id) rows ≡ some acc
    → find_account v c (update (has_account_id acc.id) (shift n 0 0) rows) ≡ some (shift n 0 0 acc)
unfolding find_account find update
find_account-update v c n acc [] f g = absurd (ground arith)
find_account-update v c n acc (x ∷ xs) f g = elim (Bool-cases (is_account_of v c x)) [
  | inl p ↦ ground arith
  | inr p ↦ elim (Bool-cases (x.id == acc.id)) [
    | inl q ↦ absurd (ground (arith, find_sound (is_account_of v c) xs acc))
    | inr q ↦ ground (arith, find_account-update v c n acc xs)
  ]
]

-- Right after an action's first reservation, a release goes through and gives every account back the
-- balances that it had before, where the action had no RELEASE and no COMMIT entry, the identifiers of
-- accounts are unique and the actor is named.
pub release_after_reserve :
    (a : ℕ) (act : ActionRequest) (actor actor' : String) (db db1 : Db)
    → reserve_budget a actor db ≡ ok (true, db1)
    → find_action a db.actions ≡ some act
    → IsKeyed db.accounts
    → entry_of act.id EntryType.release db.entries ≡ none
    → entry_of act.id EntryType.commit db.entries ≡ none
    → str_eq actor' "" ≡ false
    → (db2 : Db) × (release_budget a actor' db1 ≡ ok (true, db2)) × (db2.accounts ≡ db.accounts)
unfolding reserve_budget
release_after_reserve a act actor actor' db db1 e f keyed r k n =
    elim (Option-cases (find_account act.venture_id act.requested_currency db.accounts)) [
      | inl p ↦ absurd (ground arith)
      | inr (acc, p) ↦
          let home : find (has_account_id acc.id) db.accounts ≡ some acc =
            row-find_account act.venture_id act.requested_currency acc db.accounts keyed p in
          let done : reserve_on act acc actor (capital_state act.id db) db ≡ ok (true, db1) =
            ground arith in
          let (db2, back, same) =
            release_after_reserve_on act acc actor actor' db db1 done home r k n in
          let effect = reserve_on_effect act acc actor db db1 done home in
          let account =
            find_account-update act.venture_id act.requested_currency act.requested_amount acc
              db.accounts p home in
          let here : find_account act.venture_id act.requested_currency db1.accounts
              ≡ some (shift act.requested_amount 0 0 acc) =
            ap (find_account act.venture_id act.requested_currency) effect.1 ∙ account in
          let same_action : find_action a db1.actions ≡ some act =
            ap (find_action a) effect.0 ∙ f in
          (db2, unfold release_budget in ground arith, same)
    ]
