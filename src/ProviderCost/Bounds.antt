-- ===== src/ProviderCost/Bounds.antt =====
-- What a provider reports lowers the cost, and never raises it above the ceiling.
use aidan_venture_os.Base.{
  ℕ, ◌≤◌, ◌≡◌, ◌+◌, ◌*◌, ◌⊎◌, inl, inr, some, String, arith, Option-cases, Bool-cases, leb,
}
use aidan_venture_os.Base.Int.{pos}
use aidan_venture_os.Json.Text.{codes}
use aidan_venture_os.Json.Dumps.{Value}
use aidan_venture_os.Json.Canonical.{get}
use aidan_venture_os.ProviderCost.{
  Estimate, Price, bounded, count_of, estimate, estimate_cost, frozen_pricing,
}

-- the estimate of a cost below the ceiling
pub record IsPriced (model : String) (usage : Value) (e : Estimate) : Type 0 where
  pub price : Price
  pub known : frozen_pricing model ≡ some price
  pub input : ℕ
  pub counted : count_of (get (codes "input_tokens") usage) ≡ some input
  pub output : ℕ
  pub produced : count_of (get (codes "output_tokens") usage) ≡ some output
  pub sum : e.cost ≡ input * price.input + output * price.output

-- The cost of a provider's usage is at most the ceiling. Where it is less, the model's price is known,
-- both counts are there and not negative, and it is the sum of the counts by their prices.
pub estimate_cost_bounded :
    (model : String) (usage : Value) (ceiling : ℕ) (e : Estimate)
    → estimate_cost model usage (pos ceiling) ≡ some e
    → (e.cost ≤ ceiling) × ((e.cost ≡ ceiling) ⊎ IsPriced model usage e)
unfolding estimate_cost estimate bounded
estimate_cost_bounded model usage ceiling e h = elim (Option-cases (frozen_pricing model)) [
  | inl p ↦ (ground arith, inl (ground arith))
  | inr (price, p) ↦ elim (Option-cases (count_of (get (codes "input_tokens") usage))) [
    | inl i ↦ (ground arith, inl (ground arith))
    | inr (n, i) ↦ elim (Option-cases (count_of (get (codes "output_tokens") usage))) [
      | inl o ↦ (ground arith, inl (ground arith))
      | inr (m, o) ↦ elim (Bool-cases (leb ceiling (n * price.input + m * price.output))) [
        | inl b ↦ (ground arith, inl (ground arith))
        | inr b ↦ (
          ground arith,
          inr (record {
            price = price;
            known = p;
            input = n;
            counted = i;
            output = m;
            produced = o;
            sum = ground arith;
          }),
        )
      ]
    ]
  ]
]
