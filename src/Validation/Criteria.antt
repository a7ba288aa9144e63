-- ===== src/Validation/Criteria.antt =====
-- validation.py: the precommitted criteria (`_compare`, `evaluate_outcome`) and the definition of a
-- test (`_test_hash`). An observed number is an integer; the source compares it with the threshold as
-- a double, which agrees for numbers that a double holds exactly.
use aidan_venture_os.Base.{ℕ, String, Bool, true, false, Option, none, some, ◌∷◌, not, ◌&&◌}
use aidan_venture_os.Base.Int.{ℤ, pos, le_int, scale, negate}
use aidan_venture_os.Db.Validation.{TestType, Comparator, ValidationOutcome, Criterion, Definition}
use aidan_venture_os.Db.Queries.{text, ◌⇒◌&◌}
use aidan_venture_os.Json.Text.{Text, codes, show_ℕ}
use aidan_venture_os.Json.Dumps.{Value, Fields, obj, str}
use aidan_venture_os.Json.Canonical.{get}
use aidan_venture_os.Policy.{Decimal, units, show_decimal}

-- a threshold as the caller gives it
pub data Signed : Type 0 where
  plus minus : Decimal → Signed

abbrev pub signed_units : Signed → ℤ
signed_units (Signed.plus d) = pos (units d)
signed_units (Signed.minus d) = negate (units d)

abbrev show_signed : Signed → Text
show_signed (Signed.plus d) = show_decimal d
show_signed (Signed.minus d) = 45 ∷ show_decimal d

pub record CriterionInput : Type 0 where
  pub metric : Option String
  pub comparator : Option Comparator
  pub threshold : Option Signed

-- the parameters of `create_test`, without the key
pub record TestInput : Type 0 where
  pub hypothesis_id : ℕ
  pub test_type : TestType
  pub method : String
  pub target_segment : Option String
  pub success_criterion : String
  pub kill_criterion : Option String
  pub evidence_required : String
  pub max_spend : Option Decimal
  pub max_duration_days : Option ℕ
  pub success : CriterionInput
  pub kill : CriterionInput

abbrev type_name : TestType → String
type_name TestType.interview = "INTERVIEW"
type_name TestType.loi = "LOI"
type_name TestType.pilot = "PILOT"
type_name TestType.preorder = "PREORDER"
type_name TestType.landing_page = "LANDING_PAGE"
type_name TestType.outreach = "OUTREACH"
type_name TestType.pricing = "PRICING"
type_name TestType.usage = "USAGE"
type_name TestType.benchmark = "BENCHMARK"
type_name TestType.other = "OTHER"

abbrev comparator_name : Comparator → String
comparator_name Comparator.gte = "GTE"
comparator_name Comparator.lte = "LTE"
comparator_name Comparator.gt = "GT"
comparator_name Comparator.lt = "LT"
comparator_name Comparator.eq = "EQ"
comparator_name Comparator.is_true = "IS_TRUE"

abbrev pub outcome_name : ValidationOutcome → String
outcome_name ValidationOutcome.pass = "PASS"
outcome_name ValidationOutcome.fail = "FAIL"
outcome_name ValidationOutcome.inconclusive = "INCONCLUSIVE"

-- `str(v) if v is not None else ""`
abbrev or_blank {ℓ} : {A : Type ℓ} → (A → Value) → Option A → Value
or_blank f none = text ""
or_blank f (some a) = f a

-- what `_test_hash` digests
unfoldable pub definition_value : TestInput → Value
definition_value t = obj (
    "validation_hypothesis_id"
    ⇒ str (show_ℕ t.hypothesis_id) & "test_type"
    ⇒ text (type_name t.test_type) & "method"
    ⇒ text t.method & "target_segment"
    ⇒ or_blank text t.target_segment & "success_criterion"
    ⇒ text t.success_criterion & "kill_criterion"
    ⇒ or_blank text t.kill_criterion & "evidence_required"
    ⇒ text t.evidence_required & "max_spend"
    ⇒ or_blank (λ d. str (show_decimal d)) t.max_spend & "max_duration_days"
    ⇒ or_blank (λ n. str (show_ℕ n)) t.max_duration_days & "success_metric"
    ⇒ or_blank text t.success.metric & "success_comparator"
    ⇒ or_blank (λ c. text (comparator_name c)) t.success.comparator & "success_threshold"
    ⇒ or_blank (λ s. str (show_signed s)) t.success.threshold & "kill_metric"
    ⇒ or_blank text t.kill.metric & "kill_comparator"
    ⇒ or_blank (λ c. text (comparator_name c)) t.kill.comparator & "kill_threshold"
    ⇒ or_blank (λ s. str (show_signed s)) t.kill.threshold & Fields.end)

abbrev map_option {ℓ κ} : {A : Type ℓ} {B : Type κ} → (A → B) → Option A → Option B
map_option f none = none
map_option f (some a) = some (f a)

abbrev criterion_of : CriterionInput → Criterion
criterion_of c = record {
  metric = c.metric;
  comparator = c.comparator;
  threshold = map_option signed_units c.threshold;
}

-- the columns of the row
abbrev pub definition_of : TestInput → Definition
definition_of t = record {
  hypothesis_id = t.hypothesis_id;
  test_type = t.test_type;
  method = t.method;
  target_segment = t.target_segment;
  success_criterion = t.success_criterion;
  kill_criterion = t.kill_criterion;
  evidence_required = t.evidence_required;
  max_spend = map_option units t.max_spend;
  max_duration_days = t.max_duration_days;
  success = criterion_of t.success;
  kill = criterion_of t.kill;
}

-- `v >= t` and its variants
abbrev pub test_number : Comparator → ℤ → ℤ → Bool
test_number Comparator.gte v t = le_int t v
test_number Comparator.lte v t = le_int v t
test_number Comparator.gt v t = not (le_int v t)
test_number Comparator.lt v t = not (le_int t v)
test_number Comparator.eq v t = le_int v t && le_int t v
test_number Comparator.is_true v t = false

abbrev is_number : Option Value → Option ℤ
is_number (some (Value.int n)) = some n
is_number _ = none

abbrev is_python_true : Option Value → Bool
is_python_true (some (Value.bool b)) = b
is_python_true _ = false

-- a number against a threshold; `float(None)` is a TypeError
abbrev test_threshold : Comparator → Option ℤ → Option ℤ → Option Bool
test_threshold c none t = some false
test_threshold c (some n) none = none
test_threshold c (some n) (some t) = some (test_number c (scale n) t)

-- `_compare`; none for a TypeError
unfoldable pub compare_value : Option Value → Option Comparator → Option ℤ → Option Bool
compare_value v none t = some false
compare_value v (some Comparator.is_true) t = some (is_python_true v)
compare_value v (some c) t = test_threshold c (is_number v) t

-- the criterion names a metric, and the observed value of that metric meets it
unfoldable pub is_met : Criterion → Value → Option Bool
unfolding compare_value
is_met c observed = elim c.metric [
  | none ↦ some false
  | some m ↦ compare_value (get (codes m) observed) c.comparator c.threshold
]

-- `evaluate_outcome`: the kill criterion first
unfoldable pub evaluate_outcome : Definition → Value → Option ValidationOutcome
evaluate_outcome d observed = elim (is_met d.kill observed) [
  | none ↦ none
  | some true ↦ some ValidationOutcome.fail
  | some false ↦ elim (is_met d.success observed) [
    | none ↦ none
    | some true ↦ some ValidationOutcome.pass
    | some false ↦ some ValidationOutcome.inconclusive
  ]
]
