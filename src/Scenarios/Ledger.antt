-- ===== src/Scenarios/Ledger.antt =====
-- Runs of budget.py: a grant, a reservation, and the three ways on from there.
use aidan_venture_os.Base.{◌≡◌, ◌<◌, refl, true, none, some, find, any, update, arith}
use aidan_venture_os.Base.Int.{pos}
use aidan_venture_os.Db.Rows.{BudgetAccount, CapitalEntry, EntryType}
use aidan_venture_os.Db.Tx.{Db, ok, record_event}
use aidan_venture_os.Db.Queries.{find_action, find_account}
use aidan_venture_os.Budget.{
  grant_budget, entry_of, upsert_account, post_grant, insert_entry, clashes, reserve_budget,
  reserve_on, move_funds, release_budget, release_on, commit_budget, commit_on,
  reconcile_completion, reconcile_on, capital_state,
}
use aidan_venture_os.Budget.Ledger.Spec.{IsConsistent}
use aidan_venture_os.Budget.Ledger.Grants.{grant_budget-IsConsistent}
use aidan_venture_os.Budget.Ledger.Operations.{
  reserve_budget-IsConsistent, release_budget-IsConsistent, commit_budget-IsConsistent,
  reconcile_completion-IsConsistent,
}
use aidan_venture_os.Budget.Ledger.Misuse.{reconcile_after_release}
use aidan_venture_os.Scenarios.{
  start, start-IsConsistent, after, granted, grant_runs, granted-IsConsistent, reserved,
  reserve_runs, reserved-IsConsistent, purchase,
}

grant_budget-IsConsistent_example : IsConsistent granted
grant_budget-IsConsistent_example =
    grant_budget-IsConsistent 1 (pos 1000000) "USD" "owner" none start granted 20 start-IsConsistent
      grant_runs

reserve_budget-IsConsistent_example : IsConsistent reserved
reserve_budget-IsConsistent_example =
    reserve_budget-IsConsistent 7 "budget" granted reserved true granted-IsConsistent reserve_runs

-- the reservation is released
abbrev released : Db
released = after (release_budget 7 "budget" reserved)

release_runs : release_budget 7 "budget" reserved ≡ ok (true, released)
unfolding reserve_budget reserve_on move_funds insert_entry clashes record_event find find_account
    find_action entry_of update grant_budget upsert_account post_grant any release_budget release_on
release_runs = refl

release_budget-IsConsistent_example : IsConsistent released
release_budget-IsConsistent_example =
    release_budget-IsConsistent 7 "budget" reserved released true reserved-IsConsistent release_runs

-- or committed
abbrev committed : Db
committed = after (commit_budget 7 "budget" reserved)

commit_runs : commit_budget 7 "budget" reserved ≡ ok (true, committed)
unfolding reserve_budget reserve_on move_funds insert_entry clashes record_event find find_account
    find_action entry_of update grant_budget upsert_account post_grant any commit_budget commit_on
commit_runs = refl

commit_budget-IsConsistent_example : IsConsistent committed
commit_budget-IsConsistent_example =
    commit_budget-IsConsistent 7 "budget" reserved committed true reserved-IsConsistent commit_runs

-- or settled at an actual cost of 30.0000 USD
abbrev settled : Db
settled = after (reconcile_completion 7 (pos 300000) "budget" reserved)

reconcile_runs : reconcile_completion 7 (pos 300000) "budget" reserved ≡ ok (tt, settled)
unfolding reserve_budget reserve_on move_funds insert_entry clashes record_event find find_account
    find_action entry_of update grant_budget upsert_account post_grant any reconcile_completion
    reconcile_on
reconcile_runs = refl

no_release : entry_of 7 EntryType.release reserved.entries ≡ none
unfolding reserve_budget reserve_on move_funds insert_entry clashes record_event find find_account
    find_action entry_of update grant_budget upsert_account post_grant any
no_release = refl

reconcile_completion-IsConsistent_example : IsConsistent settled
reconcile_completion-IsConsistent_example =
    reconcile_completion-IsConsistent 7 (pos 300000) "budget" reserved settled tt
      reserved-IsConsistent no_release reconcile_runs

released-IsConsistent : IsConsistent released
released-IsConsistent =
    release_budget-IsConsistent 7 "budget" reserved released true reserved-IsConsistent release_runs

-- settled after a release, where the reservation of the other action covers the balance
abbrev shared : Db
shared = after (reserve_budget 8 "budget" released)

share_runs : reserve_budget 8 "budget" released ≡ ok (true, shared)
unfolding reserve_budget reserve_on move_funds insert_entry clashes record_event find find_account
    find_action entry_of update grant_budget upsert_account post_grant any release_budget release_on
share_runs = refl

shared-IsConsistent : IsConsistent shared
shared-IsConsistent =
    reserve_budget-IsConsistent 8 "budget" released shared true released-IsConsistent share_runs

abbrev account : BudgetAccount
account = record {
  id = 20;
  venture_id = 1;
  currency = "USD";
  granted = 1000000;
  reserved = 400000;
  committed = 0;
}

abbrev entry : EntryType → CapitalEntry
entry kind = record {
  venture_id = 1;
  account_id = 20;
  action_id = some 7;
  kind = kind;
  amount = 400000;
  currency = "USD";
  reference = none;
}

abbrev unsettled : Db
unsettled = after (reconcile_on purchase account 400000 "budget" (capital_state 7 shared) shared)

unsettle_runs :
    reconcile_on purchase account 400000 "budget" (capital_state 7 shared) shared
    ≡ ok (tt, unsettled)
unfolding reserve_budget reserve_on move_funds insert_entry clashes record_event find find_account
    find_action entry_of update grant_budget upsert_account post_grant any release_budget release_on
    reconcile_on
unsettle_runs = refl

is_account : find_account 1 "USD" shared.accounts ≡ some account
unfolding reserve_budget reserve_on move_funds insert_entry clashes record_event find find_account
    find_action entry_of update grant_budget upsert_account post_grant any release_budget release_on
is_account = refl

has_entry :
    (entry_of 7 EntryType.reserve shared.entries ≡ some (entry EntryType.reserve))
    × (entry_of 7 EntryType.release shared.entries ≡ some (entry EntryType.release))
    × (entry_of 7 EntryType.commit shared.entries ≡ none)
unfolding reserve_budget reserve_on move_funds insert_entry clashes record_event find find_account
    find_action entry_of update grant_budget upsert_account post_grant any release_budget release_on
has_entry = (refl, refl, refl)

positive : 0 < 400000
positive = omega arith

reconcile_after_release_example : ¬ IsConsistent unsettled
reconcile_after_release_example =
    reconcile_after_release purchase account 400000 "budget" shared unsettled
      (entry EntryType.reserve) (entry EntryType.release) shared-IsConsistent is_account has_entry.0
      has_entry.1 has_entry.2 positive unsettle_runs
