-- ===== src/NextAction/Basis.antt =====
-- nextaction.py: the outcome of `_decide`, and `_basis_payload`, which the input hash digests.
use aidan_venture_os.Base.{ℕ, String, Option, List, [], ◌∷◌, map, if◌then◌else◌}
use aidan_venture_os.Db.Validation.{NextAction, ReasonCode}
use aidan_venture_os.Db.Queries.{text, ◌⇒◌&◌}
use aidan_venture_os.Json.Text.{Text, show_ℕ, text_le}
use aidan_venture_os.Json.Dumps.{Value, Items, Fields, obj, arr, str, nil, cons}
use aidan_venture_os.Validation.{id_text}

pub record Choice : Type 0 where
  pub action : NextAction
  pub reason : ReasonCode
  pub selected_test : Option ℕ
  pub considered_assumptions : List ℕ
  pub considered_tests : List ℕ
  pub considered_results : List ℕ
  pub considered_observations : List ℕ
  pub considered_completions : List ℕ

abbrev pub action_name : NextAction → String
action_name NextAction.research_more = "RESEARCH_MORE"
action_name NextAction.validate = "VALIDATE"
action_name NextAction.build = "BUILD"
action_name NextAction.hold = "HOLD"
action_name NextAction.kill = "KILL"
action_name NextAction.market = "MARKET"

abbrev pub reason_name : ReasonCode → String
reason_name ReasonCode.kill_criterion_triggered = "KILL_CRITERION_TRIGGERED"
reason_name ReasonCode.insufficient_evidence = "INSUFFICIENT_EVIDENCE"
reason_name ReasonCode.critical_assumption_unresolved = "CRITICAL_ASSUMPTION_UNRESOLVED"
reason_name ReasonCode.validation_contradictory = "VALIDATION_CONTRADICTORY"
reason_name ReasonCode.acquisition_unresolved = "ACQUISITION_UNRESOLVED"
reason_name ReasonCode.build_consideration_ready = "BUILD_CONSIDERATION_READY"
reason_name ReasonCode.no_high_value_action_now = "NO_HIGH_VALUE_ACTION_NOW"

insert_text : Text → List Text → List Text
insert_text x [] = x ∷ []
insert_text x (y ∷ ys) = if text_le x y then x ∷ y ∷ ys else y ∷ insert_text x ys

sort_texts : List Text → List Text
unfolding insert_text
sort_texts [] = []
sort_texts (x ∷ xs) = insert_text x (sort_texts xs)

abbrev text_items : List Text → Items
text_items [] = nil
text_items (t ∷ ts) = cons (str t) (text_items ts)

-- `sorted(str(i) for i in ids)`
unfoldable pub sorted_ids : List ℕ → Value
unfolding sort_texts
sorted_ids ids = arr (text_items (sort_texts (map show_ℕ ids)))

unfoldable pub basis_payload : ℕ → Choice → Value
basis_payload opportunity_id c = obj (
    "opportunity"
    ⇒ id_text opportunity_id & "assumptions"
    ⇒ sorted_ids c.considered_assumptions & "results"
    ⇒ sorted_ids c.considered_results & "completions"
    ⇒ sorted_ids c.considered_completions & "observations"
    ⇒ sorted_ids c.considered_observations & "action"
    ⇒ text (action_name c.action) & "reason"
    ⇒ text (reason_name c.reason) & Fields.end)
