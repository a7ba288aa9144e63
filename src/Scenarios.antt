-- ===== src/Scenarios.antt =====
-- Concrete runs: one venture with two actions of 40.0000 USD each, and what the kernel does with it.
pub mod Ledger
pub mod Runs
pub mod Rules
pub mod Balances
pub mod Migrations
pub mod Oversight
pub mod Study
pub mod Studies
pub mod Investments
use aidan_venture_os.Base.{
  ℕ, ◌≡◌, refl, true, Option, none, some, List, [], ◌∷◌, arith, find, any, length, update,
}
use aidan_venture_os.Base.Int.{pos}
use aidan_venture_os.Db.Rows.{
  ActionRequest, EntryType, LifecycleState, RunStatus, SafetyMode, Venture,
}
use aidan_venture_os.Db.Research.{ResearchTables}
use aidan_venture_os.Db.Validation.{ValidationTables}
use aidan_venture_os.Db.Tx.{Db, Result, ok, err, record_event}
use aidan_venture_os.Db.Queries.{find_action, find_account, find_venture}
use aidan_venture_os.Json.Text.{Text}
use aidan_venture_os.Json.Dumps.{Fields, obj}
use aidan_venture_os.Policy.{Decimal, quantised}
use aidan_venture_os.Budget.{
  grant_budget, entry_of, upsert_account, post_grant, insert_entry, clashes, reserve_budget,
  reserve_on, move_funds,
}
use aidan_venture_os.Budget.Ledger.Grants.{grant_budget-IsConsistent}
use aidan_venture_os.Budget.Ledger.Operations.{reserve_budget-IsConsistent}
use aidan_venture_os.Budget.Ledger.Sums.{posted, held, held_by, is_closed}
use aidan_venture_os.Budget.Ledger.Spec.{IsConsistent}

-- stands in for SHA-256
abbrev pub digest : Text → ℕ
digest t = length t

abbrev pub shop : Venture
shop = record {
  id = 1;
  slug = "shop";
  lifecycle_state = LifecycleState.validating;
  mandate_version = none;
  autonomy_level = 2;
}

abbrev pub purchase : ActionRequest
purchase = record {
  id = 7;
  venture_id = 1;
  action_type = "purchase";
  actor = "planner";
  payload = obj Fields.end;
  payload_hash = 2;
  idempotency_key = "key-1";
  status = RunStatus.pending;
  required_autonomy = 1;
  requested_amount = 400000;
  requested_currency = "USD";
}

-- a second action of the same venture
abbrev pub advert : ActionRequest
advert = record purchase { id = 8; action_type = "advert"; idempotency_key = "key-2" }

abbrev pub no_research : ResearchTables
no_research = record {
  sources = [];
  observations = [];
  claims = [];
  claim_evidence = [];
  interpretations = [];
  interpretation_claims = [];
  assumptions = [];
  assumption_claims = [];
  assumption_interpretations = [];
  opportunities = [];
  opportunity_claims = [];
  opportunity_assumptions = [];
  opportunity_interpretations = [];
  kill_cases = [];
  dimensions = [];
  dimension_claims = [];
  research_results = [];
}

abbrev pub no_validation : ValidationTables
no_validation = record {
  hypotheses = [];
  tests = [];
  validation_results = [];
  recommendations = [];
  recommendation_assumptions = [];
  recommendation_tests = [];
  recommendation_results = [];
  recommendation_observations = [];
  recommendation_completions = [];
  market_specs = [];
  market_observations = [];
  completions = [];
}

abbrev pub start : Db
start = record {
  ventures = shop ∷ [];
  mandates = [];
  actions = purchase ∷ advert ∷ [];
  accounts = [];
  entries = [];
  kill_switches = [];
  policy_decisions = [];
  approvals = [];
  attempts = [];
  results = [];
  proofs = [];
  specs = [];
  decision_records = [];
  evidence = [];
  interventions = [];
  audit_log = [];
  research = no_research;
  validation = no_validation;
  next_id = 20;
  now = 1000;
}

-- the database that a run leaves; a run that raises leaves the first one
abbrev pub after : {A : Type 0} → Result (A × Db) → Db
after (ok r) = r.1
after (err e) = start

abbrev pub threshold : Decimal
threshold = quantised 10000000

pub start-IsConsistent : IsConsistent start
unfolding find posted held held_by is_closed any entry_of find_account
start-IsConsistent = record {
  granted = λ i. refl;
  committed = λ i. refl;
  reserved = λ i. refl;
  keyed = tt;
  unused = λ i k. refl;
  distinct = tt;
  opened = λ a k. refl;
  homed = λ a act e p q. ground arith;
}

-- after a grant of 100.0000 USD
abbrev pub granted : Db
granted = after (grant_budget 1 (pos 1000000) "USD" "owner" none start)

pub grant_runs : grant_budget 1 (pos 1000000) "USD" "owner" none start ≡ ok (20, granted)
unfolding grant_budget upsert_account post_grant insert_entry clashes record_event any find
    find_account
grant_runs = refl

pub granted-IsConsistent : IsConsistent granted
granted-IsConsistent =
    grant_budget-IsConsistent 1 (pos 1000000) "USD" "owner" none start granted 20 start-IsConsistent
      grant_runs

-- and a reservation for the action
abbrev pub reserved : Db
reserved = after (reserve_budget 7 "budget" granted)

pub reserve_runs : reserve_budget 7 "budget" granted ≡ ok (true, reserved)
unfolding reserve_budget reserve_on move_funds insert_entry clashes record_event find find_account
    find_action entry_of update grant_budget upsert_account post_grant any
reserve_runs = refl

pub reserved-IsConsistent : IsConsistent reserved
reserved-IsConsistent =
    reserve_budget-IsConsistent 7 "budget" granted reserved true granted-IsConsistent reserve_runs
