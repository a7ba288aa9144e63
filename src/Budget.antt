-- ===== src/Budget.antt =====
-- packages/core/aidan_core/budget.py: budget accounts and the append-only capital ledger.
-- The row lock (`FOR UPDATE`) makes transactions on one account take turns; a transaction is
-- therefore a function of the whole database.
pub mod Ledger
use aidan_venture_os.Base.{
  ℕ, ◌+◌, ◌-◌, ◌^◌, String, Bool, true, false, Option, none, some, List, ◌∷◌, ◌&&◌, not, ltb, leb,
  is_some, is_id, find, any, update, if◌then◌else◌,
}
use aidan_venture_os.Base.Int.{ℤ, pos, negsuc, is_pos, pos_part}
use aidan_venture_os.Db.Rows.{ActionRequest, BudgetAccount, CapitalEntry, EntryType}
use aidan_venture_os.Db.Tx.{
  Db, Tx, Error, ok, err, pure, raise, gets, or_raise, modify, require, fresh, record_event, ◌>>=◌,
  ◌>>◌,
}
use aidan_venture_os.Db.Queries.{
  has_venture_id, has_account_id, find_account, action_or_raise, text, ◌⇒◌&◌,
}
use aidan_venture_os.Json.Dumps.{Value, Fields, obj, str}
use aidan_venture_os.Json.Text.{Text, show_amount}

abbrev pub is_kind : EntryType → EntryType → Bool
is_kind EntryType.grant EntryType.grant = true
is_kind EntryType.reserve EntryType.reserve = true
is_kind EntryType.release EntryType.release = true
is_kind EntryType.commit EntryType.commit = true
is_kind _ _ = false

abbrev pub is_entry_of : ℕ → EntryType → CapitalEntry → Bool
is_entry_of a k e = is_id e.action_id a && is_kind k e.kind

-- numeric(20,4) holds less than 10^16, in ten-thousandths
unfoldable pub numeric_limit : ℕ
numeric_limit = 10 ^ 20

-- `_lock_account`
abbrev pub lock_account : ℕ → String → Tx (Option BudgetAccount)
lock_account v c = gets (λ db. find_account v c db.accounts)

-- `_capital_state`: the amounts of an action's RESERVE, RELEASE and COMMIT entries
pub record CapitalState : Type 0 where
  pub reserve : Option ℕ
  pub release : Option ℕ
  pub commit : Option ℕ

abbrev pub amount_of : Option CapitalEntry → Option ℕ
amount_of none = none
amount_of (some e) = some e.amount

unfoldable pub entry_of : ℕ → EntryType → List CapitalEntry → Option CapitalEntry
entry_of a k es = find (is_entry_of a k) es

abbrev pub capital_state : ℕ → Db → CapitalState
capital_state a db = record {
  reserve = amount_of (entry_of a EntryType.reserve db.entries);
  release = amount_of (entry_of a EntryType.release db.entries);
  commit = amount_of (entry_of a EntryType.commit db.entries);
}

abbrev pub shift : ℕ → ℕ → ℕ → BudgetAccount → BudgetAccount
shift plus minus spent acc = record acc {
  reserved = acc.reserved + plus - minus;
  committed = acc.committed + spent;
}

-- the CHECKs of the table on the new row; `reserved_amount` must not fall below 0
abbrev pub fits : ℕ → ℕ → ℕ → BudgetAccount → Bool
fits plus minus spent acc =
    leb minus (acc.reserved + plus)
    && leb (acc.reserved + plus - minus + (acc.committed + spent)) acc.granted

-- UPDATE budget_account SET reserved_amount = reserved_amount + plus - minus, committed_amount =
-- committed_amount + spent WHERE id = i
unfoldable pub move_funds : ℕ → ℕ → ℕ → ℕ → Tx (Unit {0})
move_funds i plus minus spent db = elim (find (has_account_id i) db.accounts) [
  | none ↦ ok (tt, db)
  | some acc ↦ elim (fits plus minus spent acc) [
    | true ↦ ok (
      tt,
      record db { accounts = update (has_account_id i) (shift plus minus spent) db.accounts },
    )
    | false ↦ err Error.integrity_error
  ]
]

-- the partial unique indexes: one RESERVE, one RELEASE and one COMMIT for an action
unfoldable pub clashes : CapitalEntry → List CapitalEntry → Bool
clashes e es = elim e.action_id [
  | none ↦ false
  | some a ↦ not (is_kind EntryType.grant e.kind) && is_some (entry_of a e.kind es)
]

-- INSERT INTO capital_entry
unfoldable pub insert_entry : CapitalEntry → Tx (Unit {0})
insert_entry e db = elim (clashes e db.entries) [
  | true ↦ err Error.integrity_error
  | false ↦ ok (tt, record db { entries = e ∷ db.entries })
]

abbrev pub entry_for : ActionRequest → BudgetAccount → EntryType → ℕ → Option String → CapitalEntry
entry_for act acc kind amount reference = record {
  venture_id = act.venture_id;
  account_id = acc.id;
  action_id = some act.id;
  kind = kind;
  amount = amount;
  currency = act.requested_currency;
  reference = reference;
}

abbrev pub amount_payload : ℕ → String → Value
amount_payload amount currency =
    obj ("amount" ⇒ str (show_amount amount) & "currency" ⇒ text currency & Fields.end)

-- `grant_budget`
unfoldable pub upsert_account : ℕ → String → ℕ → Tx ℕ
unfolding numeric_limit
upsert_account venture_id currency amount db = elim (find_account venture_id currency db.accounts) [
  | none ↦
      if not (any (has_venture_id venture_id) db.ventures)
      then err Error.integrity_error
      else if leb numeric_limit amount
      then err Error.data_error
      else ok (
        db.next_id,
        record db {
          accounts =
              (record {
                id = db.next_id;
                venture_id = venture_id;
                currency = currency;
                granted = amount;
                reserved = 0;
                committed = 0;
              })
              ∷ db.accounts;
          next_id = db.next_id + 1;
        },
      )
  | some acc ↦
      if leb numeric_limit (acc.granted + amount)
      then err Error.data_error
      else ok (
        acc.id,
        record db {
          accounts =
              update (has_account_id acc.id)
                (λ (r : BudgetAccount). record r { granted = r.granted + amount }) db.accounts;
        },
      )
]

-- the GRANT entry and its audit event
unfoldable pub post_grant : ℕ → ℕ → String → String → Option String → ℕ → Tx ℕ
post_grant venture_id amount currency granted_by reference account_id = do
  insert_entry (record {
    venture_id = venture_id;
    account_id = account_id;
    action_id = none;
    kind = EntryType.grant;
    amount = amount;
    currency = currency;
    reference = reference;
  })
  record_event "budget.granted" granted_by (some venture_id) none (amount_payload amount currency)
  pure account_id

unfoldable pub grant_budget : ℕ → ℤ → String → String → Option String → Tx ℕ
grant_budget venture_id amount currency granted_by reference = do
  require (is_pos amount) Error.value_error
  account_id ← upsert_account venture_id currency (pos_part amount)
  post_grant venture_id (pos_part amount) currency granted_by reference account_id

-- `_reserve`, from the test of the capital state on
unfoldable pub reserve_on : ActionRequest → BudgetAccount → String → CapitalState → Tx Bool
reserve_on act acc actor st =
    if is_some st.reserve
    then pure false
    else if ltb acc.granted (acc.reserved + acc.committed + act.requested_amount)
    then raise Error.insufficient_budget
    else do
      move_funds acc.id act.requested_amount 0 0
      insert_entry (entry_for act acc EntryType.reserve act.requested_amount none)
      record_event "budget.reserved" actor (some act.venture_id) (some act.id)
          (amount_payload act.requested_amount act.requested_currency)
      pure true

-- `reserve_budget` (and `_reserve`, inside a larger transaction)
unfoldable pub reserve_budget : ℕ → String → Tx Bool
reserve_budget action_id actor = do
  act ← action_or_raise action_id
  row ← lock_account act.venture_id act.requested_currency
  acc ← or_raise row Error.insufficient_budget
  st ← gets (capital_state act.id)
  reserve_on act acc actor st

-- `_release`, from the test of the capital state on
unfoldable pub release_on : ActionRequest → BudgetAccount → String → CapitalState → Tx Bool
release_on act acc actor st =
    if is_some st.commit
    then raise Error.illegal_capital_transition
    else if is_some st.release
    then pure false
    else elim st.reserve [
      | none ↦ pure false
      | some amount ↦ do
        move_funds acc.id 0 amount 0
        insert_entry (entry_for act acc EntryType.release amount none)
        record_event "budget.released" actor (some act.venture_id) (some act.id)
            (amount_payload amount act.requested_currency)
        pure true
    ]

-- `release_budget` (and `_release`)
unfoldable pub release_budget : ℕ → String → Tx Bool
release_budget action_id actor = do
  act ← action_or_raise action_id
  row ← lock_account act.venture_id act.requested_currency
  elim row [
    | none ↦ pure false
    | some acc ↦ do st ← gets (capital_state act.id); release_on act acc actor st
  ]

-- `commit_budget`
unfoldable pub commit_on : ActionRequest → BudgetAccount → String → CapitalState → Tx Bool
commit_on act acc actor st =
    if is_some st.commit
    then pure false
    else if is_some st.release
    then raise Error.illegal_capital_transition
    else elim st.reserve [
      | none ↦ raise Error.illegal_capital_transition
      | some amount ↦ do
        move_funds acc.id 0 amount amount
        insert_entry (entry_for act acc EntryType.commit amount none)
        record_event "budget.committed" actor (some act.venture_id) (some act.id)
            (amount_payload amount act.requested_currency)
        pure true
    ]

unfoldable pub commit_budget : ℕ → String → Tx Bool
commit_budget action_id actor = do
  act ← action_or_raise action_id
  row ← lock_account act.venture_id act.requested_currency
  acc ← or_raise row Error.illegal_capital_transition
  st ← gets (capital_state act.id)
  commit_on act acc actor st

abbrev release_unused : ActionRequest → BudgetAccount → ℕ → ℕ → Tx (Unit {0})
release_unused act acc held actual =
    if ltb actual held
    then insert_entry (entry_for act acc EntryType.release (held - actual) (some "unused"))
    else pure tt

-- `reconcile_completion`, from the test of the capital state on. Unlike `commit_budget` it does
-- not look at a RELEASE entry.
unfoldable pub reconcile_on :
    ActionRequest → BudgetAccount → ℕ → String → CapitalState → Tx (Unit {0})
reconcile_on act acc actual actor st = if is_some st.commit then pure tt else elim st.reserve [
  | none ↦ raise Error.illegal_capital_transition
  | some held ↦
      if ltb (acc.granted + held) (actual + acc.reserved + acc.committed)
      then raise Error.insufficient_budget
      else do
        move_funds acc.id 0 held actual
        insert_entry (entry_for act acc EntryType.commit actual (some "actual"))
        release_unused act acc held actual
        record_event "budget.reconciled" actor (some act.venture_id) (some act.id) (
            obj (
              "actual"
              ⇒ str (show_amount actual) & "reserved"
              ⇒ str (show_amount held) & "currency"
              ⇒ text act.requested_currency & Fields.end))
]

abbrev pub is_negative : ℤ → Bool
is_negative (pos n) = false
is_negative (negsuc n) = true

unfoldable pub reconcile_completion : ℕ → ℤ → String → Tx (Unit {0})
reconcile_completion action_id actual actor = do
  require (not (is_negative actual)) Error.value_error
  act ← action_or_raise action_id
  row ← lock_account act.venture_id act.requested_currency
  acc ← or_raise row Error.illegal_capital_transition
  st ← gets (capital_state act.id)
  reconcile_on act acc (pos_part actual) actor st

-- `get_account`
unfoldable pub get_account : ℕ → String → Db → Option BudgetAccount
get_account v c db = find_account v c db.accounts
