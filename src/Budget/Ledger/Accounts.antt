-- ===== src/Budget/Ledger/Accounts.antt =====
-- Lookups in the table of accounts, across the updates that budget.py makes.
use aidan_venture_os.Base.{
  ℕ, String, ◌≡◌, refl, true, Option, none, some, List, [], ◌∷◌, ◌==◌, find, update, arith,
  if◌then◌else◌, eq_iff, Bool-cases, inl, inr,
}
use aidan_venture_os.Db.Rows.{BudgetAccount}
use aidan_venture_os.Db.Queries.{has_account_id, is_account_of, find_account}

-- no two accounts share an identifier (the primary key)
abbrev pub IsKeyed : List BudgetAccount → Type 0
IsKeyed [] = Unit
IsKeyed (r ∷ rs) = (find (has_account_id r.id) rs ≡ none) × IsKeyed rs

-- the row with identifier `i`
abbrev pub row : ℕ → List BudgetAccount → Option BudgetAccount
row i rs = find (has_account_id i) rs

-- a column of an optional row, 0 if there is none
abbrev pub column : (BudgetAccount → ℕ) → Option BudgetAccount → ℕ
column f none = 0
column f (some r) = f r

abbrev pub id_of : Option BudgetAccount → Option ℕ
id_of none = none
id_of (some r) = some r.id

abbrev pub map_row : (BudgetAccount → BudgetAccount) → Option BudgetAccount → Option BudgetAccount
map_row f none = none
map_row f (some r) = some (f r)

-- an account found by venture and currency is found by its identifier
pub row-find_account :
    (v : ℕ) (c : String) (r : BudgetAccount) (rs : List BudgetAccount)
    → IsKeyed rs
    → find_account v c rs ≡ some r
    → row r.id rs ≡ some r
unfolding find_account find
row-find_account v c r [] k h = h
row-find_account v c r (x ∷ xs) k h = ground (arith, row-find_account v c r xs k.1)

module _ (i : ℕ) (f : BudgetAccount → BudgetAccount) where
  module _ (same : (r : BudgetAccount) → (f r).id ≡ r.id) where
    -- an update by identifier rewrites that row and no other
    pub row-update :
        (j : ℕ) (rs : List BudgetAccount)
        → row j (update (has_account_id i) f rs)
          ≡ (if i == j then map_row f (row j rs) else row j rs)
    unfolding find update
    row-update j [] = ground arith
    row-update j (x ∷ xs) = ground (arith, row-update j xs, same x)

    pub update-IsKeyed :
        (rs : List BudgetAccount) → IsKeyed rs → IsKeyed (update (has_account_id i) f rs)
    unfolding update
    update-IsKeyed [] k = tt
    update-IsKeyed (x ∷ xs) k = ground (arith, update-IsKeyed xs k.1, row-update x.id xs, same x)

    pub id_of-update :
        (v : ℕ) (c : String) (rs : List BudgetAccount)
        → ((r : BudgetAccount) → is_account_of v c (f r) ≡ is_account_of v c r)
        → id_of (find_account v c (update (has_account_id i) f rs)) ≡ id_of (find_account v c rs)
    unfolding find_account find update
    id_of-update v c [] k = refl
    id_of-update v c (x ∷ xs) k = ground (arith, id_of-update v c xs k, same x, k x)

find_account-same :
    (v : ℕ) (c : String) (acc : BudgetAccount) (rs : List BudgetAccount)
    → is_account_of v c acc ≡ true
    → find_account v c rs ≡ find_account acc.venture_id acc.currency rs
find_account-same v c acc rs h = ground (arith, eq_iff acc.currency c)

-- a new account hides none that was there
pub id_of-cons :
    (v : ℕ) (c : String) (acc : BudgetAccount) (rs : List BudgetAccount) (i : ℕ)
    → find_account acc.venture_id acc.currency rs ≡ none
    → id_of (find_account v c rs) ≡ some i
    → id_of (find_account v c (acc ∷ rs)) ≡ some i
id_of-cons v c acc rs i new h = elim (Bool-cases (is_account_of v c acc)) [
  | inl same ↦ ground (arith, find_account-same v c acc rs same)
  | inr other ↦ unfold find_account find in rw other h
]
