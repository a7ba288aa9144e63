-- ===== src/Commitment/Targets.antt =====
-- commitment.py: a request for a commitment and its result, and the decision that it aims at.
use aidan_venture_os.Base.{
  ℕ, String, Bool, true, false, Option, none, some, ltb, str_eq, if◌then◌else◌,
}
use aidan_venture_os.Db.Rows.{InvestmentDecision, PolicyOutcome}
use aidan_venture_os.Db.Validation.{NextAction}
use aidan_venture_os.Policy.{Decimal}
use aidan_venture_os.Ventures.{decision_name}

-- the parameters of `commit_recommendation`; an amount is a number of ten-thousandths
pub record Request : Type 0 where
  pub decision : Option InvestmentDecision
  pub requested_amount : Option ℕ
  pub requested_currency : String
  pub required_autonomy : ℕ
  pub action_type : Option String
  pub approval_threshold : Decimal
  pub actor : String

-- the dataclass CommitmentResult
pub record Committed : Type 0 where
  pub decision_id : ℕ
  pub decision : InvestmentDecision
  pub resulting_action_id : Option ℕ
  pub created : Bool
  pub policy_decision : Option PolicyOutcome
  pub policy_decision_id : Option ℕ
  pub approval_id : Option ℕ

-- `_RECOMMENDATION_TO_DECISION`
abbrev pub decision_for : NextAction → Option InvestmentDecision
decision_for NextAction.research_more = none
decision_for NextAction.validate = some InvestmentDecision.validate
decision_for NextAction.build = some InvestmentDecision.build
decision_for NextAction.hold = some InvestmentDecision.hold
decision_for NextAction.kill = some InvestmentDecision.kill
decision_for NextAction.market = some InvestmentDecision.market

-- `_DEFAULT_ACTION_TYPE`
abbrev pub default_action_type : InvestmentDecision → String
default_action_type InvestmentDecision.validate = "validation_spend"
default_action_type InvestmentDecision.build = "build"
default_action_type InvestmentDecision.market = "send_outreach"
default_action_type _ = ""

-- `action_type or …`
abbrev pub action_type_or : Option String → String → String
action_type_or none d = d
action_type_or (some t) d = if str_eq t "" then d else t

abbrev pub same_decision : InvestmentDecision → InvestmentDecision → Bool
same_decision d e = str_eq (decision_name d) (decision_name e)

-- the decision is left out, or it is the target
abbrev pub is_compatible : Option InvestmentDecision → InvestmentDecision → Bool
is_compatible none e = true
is_compatible (some d) e = same_decision d e

abbrev pub amount_of : Request → ℕ
amount_of q = elim q.requested_amount [ none ↦ 0 | some n ↦ n ]

abbrev pub is_consequential : Request → Bool
is_consequential q = ltb 0 (amount_of q)

abbrev pub is_passive : InvestmentDecision → Bool
is_passive InvestmentDecision.hold = true
is_passive InvestmentDecision.kill = true
is_passive _ = false

-- the decision results in an action
abbrev pub needs_action : InvestmentDecision → Bool → Bool
needs_action InvestmentDecision.validate consequential = consequential
needs_action InvestmentDecision.build consequential = consequential
needs_action InvestmentDecision.market consequential = true
needs_action _ consequential = false
