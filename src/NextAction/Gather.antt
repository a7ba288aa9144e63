-- ===== src/NextAction/Gather.antt =====
-- nextaction.py: what `_decide` reads (`_gather`, `_cheapest_discriminating_test`, `_market_basis`).
use aidan_venture_os.Base.{
  ℕ, Bool, true, false, Option, none, some, List, [], ◌∷◌, ◌++◌, ◌==◌, ◌&&◌, ◌||◌, not, ltb, is_id,
  is_some, find, any, select, map, sort_by, if◌then◌else◌,
}
use aidan_venture_os.Db.Rows.{LifecycleState, Venture}
use aidan_venture_os.Db.Research.{Assumption, Importance, Link}
use aidan_venture_os.Db.Validation.{
  Hypothesis, ValidationTest, ValidationResult, ValidationOutcome, MarketActionSpec,
  MarketObservation, WindowCompletion,
}
use aidan_venture_os.Db.Tx.{Db}
use aidan_venture_os.Db.Queries.{find_venture}
use aidan_venture_os.Validation.{find_test}

-- an assumption of the opportunity, and the results of its tests
pub record State : Type 0 where
  pub assumption : Assumption
  pub results : List ValidationResult

abbrev has_assumption_id : ℕ → Assumption → Bool
has_assumption_id i r = r.id == i

abbrev pub has_hypothesis_id : ℕ → Hypothesis → Bool
has_hypothesis_id i r = r.id == i

abbrev pub find_hypothesis : ℕ → List Hypothesis → Option Hypothesis
find_hypothesis i rows = find (has_hypothesis_id i) rows

-- opportunity_assumption JOIN assumption
unfoldable pub linked : ℕ → List Link → List Assumption → List Assumption
linked o [] rows = []
linked o (k ∷ ks) rows =
    let rest = linked o ks rows in
    if k.left_id == o
    then elim (find (has_assumption_id k.right_id) rows) [ none ↦ rest | some a ↦ a ∷ rest ]
    else rest

abbrev hypothesis_is_about : ℕ → ℕ → Option Hypothesis → Bool
hypothesis_is_about v a none = false
hypothesis_is_about v a (some h) = is_id h.assumption_id a && h.venture_id == v

-- a test whose hypothesis is about the assumption, in the venture
abbrev pub is_test_about : ℕ → ℕ → Db → Option ValidationTest → Bool
is_test_about v a db none = false
is_test_about v a db (some t) =
    hypothesis_is_about v a (find_hypothesis t.definition.hypothesis_id db.validation.hypotheses)

abbrev is_result_about : ℕ → ℕ → Db → ValidationResult → Bool
is_result_about v a db r = is_test_about v a db (find_test r.test_id db.validation.tests)

unfoldable pub results_about : ℕ → ℕ → Db → List ValidationResult
results_about v a db =
    sort_by (λ r. r.id) (select (is_result_about v a db) db.validation.validation_results)

abbrev pub same_outcome : ValidationOutcome → ValidationOutcome → Bool
same_outcome ValidationOutcome.pass ValidationOutcome.pass = true
same_outcome ValidationOutcome.fail ValidationOutcome.fail = true
same_outcome ValidationOutcome.inconclusive ValidationOutcome.inconclusive = true
same_outcome _ _ = false

abbrev pub has_outcome : ValidationOutcome → ValidationResult → Bool
has_outcome o r = same_outcome o r.outcome

abbrev pub has_pass : State → Bool
has_pass s = any (has_outcome ValidationOutcome.pass) s.results

abbrev pub has_fail : State → Bool
has_fail s = any (has_outcome ValidationOutcome.fail) s.results

abbrev pub has_inconclusive : State → Bool
has_inconclusive s = any (has_outcome ValidationOutcome.inconclusive) s.results

-- `_gather`
unfoldable pub gather : ℕ → ℕ → Db → List State
gather v o db =
    map (λ a. record { assumption = a; results = results_about v a.id db })
      (sort_by (λ a. a.id) (linked o db.research.opportunity_assumptions db.research.assumptions))

abbrev pub assumption_ids : List State → List ℕ
assumption_ids states = map (λ s. s.assumption.id) states

-- `all_result_ids`
unfoldable pub result_ids : List State → List ℕ
result_ids [] = []
result_ids (s ∷ ss) = map (λ r. r.id) s.results ++ result_ids ss

abbrev pub is_key : Importance → Bool
is_key Importance.critical = true
is_key Importance.high = true
is_key _ = false

-- CRITICAL or HIGH, and not resolved
abbrev pub is_unresolved : State → Bool
is_unresolved s = is_key s.assumption.importance && not (has_pass s && not (has_inconclusive s))

abbrev pub is_contradictory : State → Bool
is_contradictory s = has_pass s && has_inconclusive s

-- an assumption that is key is resolved
abbrev pub is_settled_key : State → Bool
is_settled_key s =
    not (is_key s.assumption.importance)
    || (has_pass s && (not (has_inconclusive s) && not (has_fail s)))

unfoldable pub all_states : (State → Bool) → List State → Bool
all_states p [] = true
all_states p (s ∷ ss) = p s && all_states p ss

-- `_IMPORTANCE_RANK`
abbrev pub rank : Importance → ℕ
rank Importance.critical = 3
rank Importance.high = 2
rank Importance.medium = 1
rank Importance.low = 0

-- the head of the stable sort by rank, the highest first: the first state of the highest rank
unfoldable pub top_ranked : List State → Option State
top_ranked [] = none
top_ranked (s ∷ ss) = elim (top_ranked ss) [
  | none ↦ some s
  | some t ↦
      if ltb (rank s.assumption.importance) (rank t.assumption.importance) then some t else some s
]

-- coalesce(max_spend, 'infinity') of the left is less than that of the right
abbrev spends_less : Option ℕ → Option ℕ → Bool
spends_less none n = false
spends_less (some m) none = true
spends_less (some m) (some n) = ltb m n

abbrev same_spend : Option ℕ → Option ℕ → Bool
same_spend none none = true
same_spend (some m) (some n) = m == n
same_spend _ _ = false

-- coalesce(max_duration_days, 2147483647)
abbrev duration : Option ℕ → ℕ
duration none = 2147483647
duration (some n) = n

-- ORDER BY spend, duration, id
abbrev pub is_cheaper : ValidationTest → ValidationTest → Bool
is_cheaper s t =
    spends_less s.definition.max_spend t.definition.max_spend
    || (same_spend s.definition.max_spend t.definition.max_spend
        && (ltb (duration s.definition.max_duration_days) (duration t.definition.max_duration_days)
            || (duration s.definition.max_duration_days == duration t.definition.max_duration_days
                && ltb s.id t.id)))

unfoldable pub cheapest : List ValidationTest → Option ValidationTest
cheapest [] = none
cheapest (t ∷ ts) = elim (cheapest ts) [
  | none ↦ some t
  | some s ↦ if is_cheaper s t then some s else some t
]

abbrev is_candidate_test : ℕ → ℕ → Db → ValidationTest → Bool
is_candidate_test v a db t = is_test_about v a db (some t) && is_some t.definition.success.metric

abbrev test_id : Option ValidationTest → Option ℕ
test_id none = none
test_id (some t) = some t.id

-- `_cheapest_discriminating_test`
unfoldable pub cheapest_test : ℕ → ℕ → Db → Option ℕ
cheapest_test v a db = test_id (cheapest (select (is_candidate_test v a db) db.validation.tests))

pub record MarketBasis : Type 0 where
  pub observation_ids : List ℕ
  pub completion_ids : List ℕ

abbrev is_spec_of : ℕ → ℕ → MarketActionSpec → Bool
is_spec_of v o s = s.opportunity_id == o && s.venture_id == v

abbrev is_spec_id : ℕ → MarketActionSpec → Bool
is_spec_id i s = s.id == i

abbrev is_observed : List MarketActionSpec → MarketObservation → Bool
is_observed specs m = any (is_spec_id m.spec_id) specs

abbrev is_completed : List MarketActionSpec → WindowCompletion → Bool
is_completed specs m = any (is_spec_id m.spec_id) specs

abbrev is_tested : ℕ → MarketActionSpec → Bool
is_tested t s = s.test_id == t

-- a result of one of the specifications' tests
abbrev resolves : List MarketActionSpec → ValidationResult → Bool
resolves specs r = any (is_tested r.test_id) specs

abbrev venture_operates : Option Venture → Bool
venture_operates none = false
venture_operates (some v) = elim v.lifecycle_state [ LifecycleState.operating ↦ true | _ ↦ false ]

abbrev is_none : List ℕ → Bool
is_none [] = true
is_none (x ∷ xs) = false

abbrev observation_ids_of : List MarketActionSpec → Db → List ℕ
observation_ids_of specs db =
    sort_by (λ i. i)
      (map (λ m. m.id) (select (is_observed specs) db.validation.market_observations))

abbrev completion_ids_of : List MarketActionSpec → Db → List ℕ
completion_ids_of specs db =
    sort_by (λ i. i) (map (λ m. m.id) (select (is_completed specs) db.validation.completions))

-- `_market_basis`. Without a specification there is no observation of one.
unfoldable pub market_basis : ℕ → ℕ → Db → Option MarketBasis
market_basis v o db =
    let specs = select (is_spec_of v o) db.validation.market_specs in
    let observations = observation_ids_of specs db in
    let completions = completion_ids_of specs db in
    if not (venture_operates (find_venture v db.ventures))
    then none
    else if is_none observations && is_none completions
    then none
    else if any (resolves specs) db.validation.validation_results
    then none
    else some (record { observation_ids = observations; completion_ids = completions })
