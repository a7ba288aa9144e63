-- ===== src/Scenarios/Oversight.antt =====
-- Runs of autonomy.py and provider_cost.py.
use aidan_venture_os.Json.Canonical.{get}
use aidan_venture_os.Base.{◌≡◌, ◌≤◌, ◌⊎◌, refl, none, some, any}
use aidan_venture_os.Base.Int.{pos}
use aidan_venture_os.Db.Rows.{InterventionKind}
use aidan_venture_os.Db.Tx.{Db, ok, record_event}
use aidan_venture_os.Json.Text.{codes, is_blank}
use aidan_venture_os.Json.Dumps.{Value, Fields, obj}
use aidan_venture_os.Autonomy.{Assistance, assistance_class, record_intervention}
use aidan_venture_os.Autonomy.Interventions.{record_intervention_effect}
use aidan_venture_os.ProviderCost.{
  Basis, Estimate, estimate_cost, bounded, estimate, frozen_pricing,
}
use aidan_venture_os.ProviderCost.Bounds.{IsPriced, estimate_cost_bounded}
use aidan_venture_os.Scenarios.{after, start}

abbrev repaired : Db
repaired =
    after
      (record_intervention 1 InterventionKind.code_repair "build" 900 none none "operator" start)

repair_runs :
    record_intervention 1 InterventionKind.code_repair "build" 900 none none "operator" start
    ≡ ok (20, repaired)
unfolding record_intervention is_blank any record_event
repair_runs = refl

record_intervention_effect_example : assistance_class 1 repaired ≡ Assistance.human_assisted
record_intervention_effect_example =
    record_intervention_effect 1 1 InterventionKind.code_repair "build" 900 none none "operator"
      start repaired 20 repair_runs

-- 1000 tokens in and 200 tokens out of a model at 5 and 40, under a ceiling of a dollar
abbrev usage : Value
usage = obj (
    Fields.field (codes "input_tokens") (Value.int (pos 1000))
      (Fields.field (codes "output_tokens") (Value.int (pos 200)) Fields.end))

abbrev cheap : Estimate
cheap = record { cost = 13000; basis = Basis.estimated }

estimate_runs : estimate_cost "gpt-5-nano" usage (pos 100000000) ≡ some cheap
unfolding estimate_cost estimate frozen_pricing get bounded
estimate_runs = refl

estimate_cost_bounded_example :
    (13000 ≤ 100000000) × ((cheap.cost ≡ 100000000) ⊎ IsPriced "gpt-5-nano" usage cheap)
estimate_cost_bounded_example =
    estimate_cost_bounded "gpt-5-nano" usage 100000000 cheap estimate_runs
