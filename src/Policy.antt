-- ===== src/Policy.antt =====
-- packages/core/aidan_core/policy.py: the deterministic policy engine.
pub mod Decisions
use aidan_venture_os.Base.{
  ℕ, ◌+◌, ◌-◌, ◌*◌, String, Bool, true, false, Option, none, some, List, ◌∷◌, ltb, ◌&&◌, not, any,
  is_id, str_eq, if◌then◌else◌,
}
use aidan_venture_os.Base.Int.{pos}
use aidan_venture_os.Db.Rows.{
  ActionRequest, Venture, BudgetAccount, CapitalEntry, EntryType, PolicyOutcome, PolicyReason,
}
use aidan_venture_os.Db.Tx.{
  Db, Tx, Error, pure, gets, or_raise, modify, fresh, record_event, ◌>>=◌, ◌>>◌,
}
use aidan_venture_os.Db.Queries.{find_venture, find_account, action_or_raise, text, ◌⇒◌&◌}
use aidan_venture_os.Json.Text.{Text, show_ℕ, show_amount}
use aidan_venture_os.Json.Dumps.{Value, Fields, obj, str, int, bool}
use aidan_venture_os.Json.Canonical.{canonical_payload_hash}
use aidan_venture_os.KillSwitch.{effective_state}
use aidan_venture_os.Budget.{is_kind}

-- a `Decimal`: a whole number, or a `numeric(20,4)` in ten-thousandths; `str` shows the difference
pub data Decimal : Type 0 where
  whole : ℕ → Decimal
  quantised : ℕ → Decimal

abbrev pub units : Decimal → ℕ
units (whole n) = n * 10000
units (quantised n) = n

abbrev pub show_decimal : Decimal → Text
show_decimal (whole n) = show_ℕ n
show_decimal (quantised n) = show_amount n

-- `DEFAULT_APPROVAL_THRESHOLD`, 1000.0000
abbrev pub default_approval_threshold : Decimal
default_approval_threshold = quantised 10000000

pub record PolicyInput : Type 0 where
  pub action_type : String
  pub venture_autonomy : ℕ
  pub required_autonomy : ℕ
  pub global_kill : Bool
  pub venture_kill : Bool
  pub available_budget : Decimal
  pub requested_amount : ℕ
  pub currency : String
  pub approval_threshold : Decimal

pub record PolicyResult : Type 0 where
  pub decision : PolicyOutcome
  pub reason : PolicyReason
  pub inputs_hash : ℕ

-- `_inputs_dict`
unfoldable pub inputs_dict : PolicyInput → Value
inputs_dict inp = obj (
    "rule_id"
    ⇒ text "gate1.policy" & "rule_version"
    ⇒ text "1" & "action_type"
    ⇒ text inp.action_type & "venture_autonomy"
    ⇒ int (pos inp.venture_autonomy) & "required_autonomy"
    ⇒ int (pos inp.required_autonomy) & "global_kill"
    ⇒ bool inp.global_kill & "venture_kill"
    ⇒ bool inp.venture_kill & "available_budget"
    ⇒ str (show_decimal inp.available_budget) & "requested_amount"
    ⇒ str (show_amount inp.requested_amount) & "currency"
    ⇒ text inp.currency & "approval_threshold"
    ⇒ str (show_decimal inp.approval_threshold) & Fields.end)

-- the decision and its reason, by the fixed precedence
unfoldable pub decide : PolicyInput → PolicyOutcome × PolicyReason
decide inp =
    if inp.global_kill
    then (PolicyOutcome.deny, PolicyReason.kill_switch_global)
    else if inp.venture_kill
    then (PolicyOutcome.deny, PolicyReason.kill_switch_venture)
    else if ltb (units inp.available_budget) inp.requested_amount
    then (PolicyOutcome.deny, PolicyReason.insufficient_budget)
    else if ltb inp.venture_autonomy inp.required_autonomy
    then (PolicyOutcome.require_approval, PolicyReason.autonomy_insufficient)
    else if ltb (units inp.approval_threshold) inp.requested_amount
    then (PolicyOutcome.require_approval, PolicyReason.above_approval_threshold)
    else (PolicyOutcome.allow, PolicyReason.allowed)

abbrev pub is_entry_in : ℕ → String → EntryType → CapitalEntry → Bool
is_entry_in a c k e = is_id e.action_id a && (str_eq e.currency c && is_kind k e.kind)

-- the action holds a reservation that is neither released nor committed
unfoldable pub holds_reservation : ℕ → String → List CapitalEntry → Bool
holds_reservation a c es =
    any (is_entry_in a c EntryType.reserve) es
    && (not (any (is_entry_in a c EntryType.release) es)
        && not (any (is_entry_in a c EntryType.commit) es))

-- granted - reserved - committed, which the table's CHECK keeps at 0 or more
abbrev pub free_amount : Option BudgetAccount → Decimal
free_amount none = whole 0
free_amount (some acc) = quantised (acc.granted - (acc.reserved + acc.committed))

-- an action's own reservation is available to itself
unfoldable pub available_to : ActionRequest → Db → Decimal
available_to act db =
    let free = free_amount (find_account act.venture_id act.requested_currency db.accounts) in
    if holds_reservation act.id act.requested_currency db.entries
    then quantised (units free + act.requested_amount)
    else free

unfoldable pub input_of : ActionRequest → Venture → Decimal → Db → PolicyInput
unfolding available_to effective_state
input_of act venture threshold db = record {
  action_type = act.action_type;
  venture_autonomy = venture.autonomy_level;
  required_autonomy = act.required_autonomy;
  global_kill = (effective_state act.venture_id db).global;
  venture_kill = (effective_state act.venture_id db).venture;
  available_budget = available_to act db;
  requested_amount = act.requested_amount;
  currency = act.requested_currency;
  approval_threshold = threshold;
}

-- `_load_policy_input`; the JOIN finds no row without the venture
unfoldable pub load_policy_input : ℕ → Decimal → Tx (PolicyInput × ℕ)
load_policy_input action_id threshold = do
  act ← action_or_raise action_id
  row ← gets (λ db. find_venture act.venture_id db.ventures)
  venture ← or_raise row Error.not_found
  inp ← gets (input_of act venture threshold)
  pure (inp, act.venture_id)

abbrev pub outcome_name : PolicyOutcome → String
outcome_name PolicyOutcome.allow = "ALLOW"
outcome_name PolicyOutcome.deny = "DENY"
outcome_name PolicyOutcome.require_approval = "REQUIRE_APPROVAL"

abbrev pub reason_name : PolicyReason → String
reason_name PolicyReason.kill_switch_global = "KILL_SWITCH_GLOBAL"
reason_name PolicyReason.kill_switch_venture = "KILL_SWITCH_VENTURE"
reason_name PolicyReason.insufficient_budget = "INSUFFICIENT_BUDGET"
reason_name PolicyReason.autonomy_insufficient = "AUTONOMY_INSUFFICIENT"
reason_name PolicyReason.above_approval_threshold = "ABOVE_APPROVAL_THRESHOLD"
reason_name PolicyReason.allowed = "ALLOWED"

module _ (sha256 : Text → ℕ) where
  unfoldable pub evaluate : PolicyInput → PolicyResult
  unfolding decide
  evaluate inp = record {
    decision = (decide inp).0;
    reason = (decide inp).1;
    inputs_hash = canonical_payload_hash sha256 (inputs_dict inp);
  }

  unfoldable pub current_evaluation : ℕ → Decimal → Tx (PolicyResult × ℕ × PolicyInput)
  current_evaluation action_id threshold = do
    loaded ← load_policy_input action_id threshold
    pure (evaluate loaded.0, loaded.1, loaded.0)

-- `persist_decision`
unfoldable pub persist_decision : ℕ → ℕ → PolicyResult → PolicyInput → Tx ℕ
persist_decision action_id venture_id result inp = do
  decision_id ← fresh
  modify (λ db. record db {
    policy_decisions =
        (record {
          id = decision_id;
          action_id = action_id;
          decision = result.decision;
          inputs_hash = result.inputs_hash;
          inputs = inputs_dict inp;
          reason = result.reason;
        })
        ∷ db.policy_decisions;
  })
  record_event "policy.evaluated" "policy_engine" (some venture_id) (some action_id) (
      obj (
        "decision"
        ⇒ text (outcome_name result.decision) & "reason"
        ⇒ text (reason_name result.reason) & Fields.end))
  pure decision_id

module _ (sha256 : Text → ℕ) where
  unfoldable pub evaluate_and_persist : ℕ → Decimal → Tx (PolicyResult × ℕ)
  evaluate_and_persist action_id threshold = do
    found ← current_evaluation sha256 action_id threshold
    decision_id ← persist_decision action_id found.1 found.0 found.2
    pure (found.0, decision_id)
