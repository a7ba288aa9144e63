-- ===== src/Budget/Ledger/Limits.antt =====
-- No account is overdrawn, whatever budget.py is asked to do.
use aidan_venture_os.Base.{
  ℕ, ◌+◌, ◌≤◌, String, ◌≡◌, Bool, true, some, List, [], ◌∷◌, ◌==◌, inl, inr, arith, find, update,
  Option-cases, Bool-cases,
}
use aidan_venture_os.Db.Rows.{ActionRequest, BudgetAccount}
use aidan_venture_os.Db.Tx.{Db, ok, Result-cases, record_event}
use aidan_venture_os.Db.Queries.{has_account_id}
use aidan_venture_os.Budget.{
  CapitalState, commit_on, fits, insert_entry, move_funds, reconcile_on, release_on, reserve_on,
  shift,
}

-- what is reserved and what is committed are covered by what was granted
abbrev pub IsCovered : BudgetAccount → Type 0
IsCovered r = r.reserved + r.committed ≤ r.granted

abbrev pub AreCovered : List BudgetAccount → Type 0
AreCovered [] = Unit
AreCovered (r ∷ rs) = IsCovered r × AreCovered rs

shift-AreCovered :
    (i plus minus spent : ℕ) (acc : BudgetAccount) (rows : List BudgetAccount)
    → find (has_account_id i) rows ≡ some acc
    → fits plus minus spent acc ≡ true
    → AreCovered rows
    → AreCovered (update (has_account_id i) (shift plus minus spent) rows)
unfolding find update
shift-AreCovered i plus minus spent acc [] f h c = tt
shift-AreCovered i plus minus spent acc (x ∷ xs) f h c = elim (Bool-cases (x.id == i)) [
  | inl q ↦ rw q (ground arith, c.1)
  | inr q ↦ rw q (c.0, shift-AreCovered i plus minus spent acc xs (ground arith) h c.1)
]

move_funds-AreCovered :
    (i plus minus spent : ℕ) (db db' : Db) (u : Unit {0})
    → move_funds i plus minus spent db ≡ ok (u, db')
    → AreCovered db.accounts
    → AreCovered db'.accounts
unfolding move_funds
move_funds-AreCovered i plus minus spent db db' u e c =
    elim (Option-cases (find (has_account_id i) db.accounts)) [
      | inl p ↦ let same : db'.accounts ≡ db.accounts = ground arith in rw same c
      | inr (acc, p) ↦ elim (Bool-cases (fits plus minus spent acc)) [
        | inr q ↦ absurd (ground arith)
        | inl q ↦
            let moved : db'.accounts
                ≡ update (has_account_id i) (shift plus minus spent) db.accounts =
              ground arith in
            rw moved (shift-AreCovered i plus minus spent acc db.accounts p q c)
      ]
    ]

pub grant-AreCovered :
    (i n : ℕ) (rows : List BudgetAccount)
    → AreCovered rows
    → AreCovered (
        update
          (has_account_id i)
          (λ (r : BudgetAccount). record r { granted = r.granted + n })
          rows)
unfolding update
grant-AreCovered i n [] c = tt
grant-AreCovered i n (x ∷ xs) c = elim (Bool-cases (x.id == i)) [
  | inl q ↦ rw q (omega arith, c.1)
  | inr q ↦ rw q (c.0, grant-AreCovered i n xs c.1)
]

module _ (act : ActionRequest) (acc : BudgetAccount) (actor : String) (st : CapitalState)
    (db db' : Db) (c : AreCovered db.accounts) where
  pub reserve_on-AreCovered :
      (b : Bool) → reserve_on act acc actor st db ≡ ok (b, db') → AreCovered db'.accounts
  unfolding reserve_on insert_entry record_event
  reserve_on-AreCovered b e = elim (Result-cases (move_funds acc.id act.requested_amount 0 0 db)) [
    | inr (x, p) ↦ let same : db'.accounts ≡ db.accounts = ground arith in rw same c
    | inl (u, db1, p) ↦
        let moved = move_funds-AreCovered acc.id act.requested_amount 0 0 db db1 u p c in
        elim (Option-cases st.reserve) [
          | inr (n, q) ↦ let same : db'.accounts ≡ db.accounts = ground arith in rw same c
          | inl q ↦ let same : db'.accounts ≡ db1.accounts = ground arith in rw same moved
        ]
  ]

  pub release_on-AreCovered :
      (b : Bool) → release_on act acc actor st db ≡ ok (b, db') → AreCovered db'.accounts
  unfolding release_on insert_entry record_event
  release_on-AreCovered b e = elim (Option-cases st.reserve) [
    | inl q ↦ let same : db'.accounts ≡ db.accounts = ground arith in rw same c
    | inr (n, q) ↦ elim (Option-cases st.release) [
      | inr (m, k) ↦ let same : db'.accounts ≡ db.accounts = ground arith in rw same c
      | inl k ↦ elim (Result-cases (move_funds acc.id 0 n 0 db)) [
        | inr (x, p) ↦ absurd (ground arith)
        | inl (u, db1, p) ↦
            let moved = move_funds-AreCovered acc.id 0 n 0 db db1 u p c in
            let same : db'.accounts ≡ db1.accounts = ground arith in rw same moved
      ]
    ]
  ]

  pub commit_on-AreCovered :
      (b : Bool) → commit_on act acc actor st db ≡ ok (b, db') → AreCovered db'.accounts
  unfolding commit_on insert_entry record_event
  commit_on-AreCovered b e = elim (Option-cases st.commit) [
    | inr (m, k) ↦ let same : db'.accounts ≡ db.accounts = ground arith in rw same c
    | inl k ↦ elim (Option-cases st.reserve) [
      | inl q ↦ absurd (ground arith)
      | inr (n, q) ↦ elim (Result-cases (move_funds acc.id 0 n n db)) [
        | inr (x, p) ↦ absurd (ground arith)
        | inl (u, db1, p) ↦
            let moved = move_funds-AreCovered acc.id 0 n n db db1 u p c in
            let same : db'.accounts ≡ db1.accounts = ground arith in rw same moved
      ]
    ]
  ]

  pub reconcile_on-AreCovered :
      (actual : ℕ) (u : Unit {0})
      → reconcile_on act acc actual actor st db ≡ ok (u, db')
      → AreCovered db'.accounts
  unfolding reconcile_on insert_entry record_event
  reconcile_on-AreCovered actual u e = elim (Option-cases st.commit) [
    | inr (m, k) ↦ let same : db'.accounts ≡ db.accounts = ground arith in rw same c
    | inl k ↦ elim (Option-cases st.reserve) [
      | inl q ↦ absurd (ground arith)
      | inr (n, q) ↦ elim (Result-cases (move_funds acc.id 0 n actual db)) [
        | inr (x, p) ↦ absurd (ground arith)
        | inl (w, db1, p) ↦
            let moved = move_funds-AreCovered acc.id 0 n actual db db1 w p c in
            let same : db'.accounts ≡ db1.accounts = ground arith in rw same moved
      ]
    ]
  ]
