-- ===== src/ProviderCost.antt =====
-- packages/core/aidan_core/factory/provider_cost.py: what a provider's usage is taken to cost.
-- An amount is a number of hundred-millionths of a dollar, so that the price of one token is a whole
-- number. (`Decimal` keeps 28 digits, which a product of counts and prices does not reach.)
pub mod Bounds
use aidan_venture_os.Base.{
  ℕ, ◌+◌, ◌*◌, Bool, true, false, Option, none, some, String, leb, str_eq, if◌then◌else◌,
}
use aidan_venture_os.Base.Int.{ℤ, pos, negsuc}
use aidan_venture_os.Json.Text.{codes}
use aidan_venture_os.Json.Dumps.{Value}
use aidan_venture_os.Json.Canonical.{get}

-- the price of an input token and of an output token
pub record Price : Type 0 where
  pub input : ℕ
  pub output : ℕ

abbrev price_of : ℕ → ℕ → Option Price
price_of i o = some (record { input = i; output = o })

-- `FROZEN_PRICING`
unfoldable pub frozen_pricing : String → Option Price
frozen_pricing model =
    if str_eq model "gpt-5-nano"
    then price_of 5 40
    else if str_eq model "gpt-5-mini"
    then price_of 25 200
    else if str_eq model "gpt-5"
    then price_of 125 1000
    else if str_eq model "gpt-5.3-codex"
    then price_of 175 1400
    else none

pub data Basis : Type 0 where
  estimated estimated_capped conservative_ceiling : Basis

pub record Estimate : Type 0 where
  pub cost : ℕ
  pub basis : Basis

-- a count that is an int and not negative; a bool is an int
abbrev pub count_of : Option Value → Option ℕ
count_of (some (Value.int (pos n))) = some n
count_of (some (Value.bool true)) = some 1
count_of (some (Value.bool false)) = some 0
count_of _ = none

unfoldable pub bounded : ℕ → ℕ → Estimate
bounded ceiling cost =
    if leb ceiling cost
    then record { cost = ceiling; basis = Basis.estimated_capped }
    else record { cost = cost; basis = Basis.estimated }

-- from the price and the two counts on
unfoldable pub estimate : ℕ → Option Price → Option ℕ → Option ℕ → Estimate
estimate ceiling (some p) (some i) (some o) = bounded ceiling (i * p.input + o * p.output)
estimate ceiling _ _ _ = record { cost = ceiling; basis = Basis.conservative_ceiling }

-- `estimate_cost`; none for a ValueError
unfoldable pub estimate_cost : String → Value → ℤ → Option Estimate
estimate_cost model usage (negsuc n) = none
estimate_cost model usage (pos ceiling) = some (
    estimate ceiling (frozen_pricing model) (count_of (get (codes "input_tokens") usage))
      (count_of (get (codes "output_tokens") usage)))
