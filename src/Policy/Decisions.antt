-- ===== src/Policy/Decisions.antt =====
-- The decision of policy.py against what its precedence promises.
use aidan_venture_os.Base.{ℕ, ◌≤◌, ◌<◌, ◌≡◌, ◌↔◌, ◌⊎◌, true, false, arith}
use aidan_venture_os.Db.Rows.{PolicyOutcome}
use aidan_venture_os.Json.Text.{Text}
use aidan_venture_os.Policy.{PolicyInput, units, decide, evaluate}

-- nothing stands against the action
pub record IsClear (inp : PolicyInput) : Type 0 where
  pub global_off : inp.global_kill ≡ false
  pub venture_off : inp.venture_kill ≡ false
  pub funded : inp.requested_amount ≤ units inp.available_budget

-- An action is allowed just when no kill switch is on, the budget covers it, the venture's autonomy
-- suffices and the amount is within the approval threshold.
pub evaluate-allow_iff :
    (sha256 : Text → ℕ) (inp : PolicyInput)
    → ((evaluate sha256 inp).decision ≡ PolicyOutcome.allow) ↔ (
        IsClear inp
        × (inp.required_autonomy ≤ inp.venture_autonomy)
        × (inp.requested_amount ≤ units inp.approval_threshold))
unfolding evaluate decide
evaluate-allow_iff sha256 inp = (
  λ h. (
    record { global_off = ground arith; venture_off = ground arith; funded = ground arith },
    ground arith,
    ground arith,
  ),
  λ h. ground arith,
)

-- An action is denied just when a kill switch is on or the budget does not cover it.
pub evaluate-deny_iff :
    (sha256 : Text → ℕ) (inp : PolicyInput)
    → ((evaluate sha256 inp).decision ≡ PolicyOutcome.deny) ↔ (
        (inp.global_kill ≡ true)
        ⊎ ((inp.venture_kill ≡ true) ⊎ (units inp.available_budget < inp.requested_amount)))
unfolding evaluate decide
evaluate-deny_iff sha256 inp = (λ h. ground arith, λ h. ground arith)
