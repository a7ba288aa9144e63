-- ===== src/Scenarios/Rules.antt =====
-- Runs of policy.py, killswitch.py, approvals.py, lifecycle.py and actions.py.
use aidan_venture_os.Base.{
  ◌≡◌, ◌≢◌, ◌≤◌, ◌<◌, ◌↔◌, refl, true, false, none, some, [], ◌∷◌, find, any, update, select, arith,
}
use aidan_venture_os.Db.Rows.{Approval, ApprovalState, LifecycleState, PolicyOutcome, Venture}
use aidan_venture_os.Db.Tx.{Db, ok, record_event}
use aidan_venture_os.Db.Queries.{find_venture}
use aidan_venture_os.Json.Text.{codes}
use aidan_venture_os.Json.Dumps.{Value, Fields, obj, bool, null, dumps}
use aidan_venture_os.Json.Dumps.Order.{same_obj, fields_swap}
use aidan_venture_os.Json.Canonical.{canonical_payload_hash}
use aidan_venture_os.KillSwitch.{engage, release, find_switch}
use aidan_venture_os.Policy.{PolicyInput, quantised, units, evaluate}
use aidan_venture_os.Policy.Decisions.{IsClear, evaluate-allow_iff}
use aidan_venture_os.Approvals.{
  decide, expire_if_due, find_approval, valid_approval, is_valid_for, latest,
}
use aidan_venture_os.Approvals.Terminal.{decide_terminal, valid_approval_sound}
use aidan_venture_os.Lifecycle.{transition, is_permitted}
use aidan_venture_os.Lifecycle.Progress.{stage, transition_effect}
use aidan_venture_os.Actions.{
  Submission, IntakeResult, row_fits, submit_action_request, create_action, find_key,
}
use aidan_venture_os.Actions.Intake.{canonical_payload_hash-Same, submit_again}
use aidan_venture_os.Scenarios.{digest, threshold, after, start}

abbrev inputs : PolicyInput
inputs = record {
  action_type = "purchase";
  venture_autonomy = 2;
  required_autonomy = 1;
  global_kill = false;
  venture_kill = false;
  available_budget = quantised 1000000;
  requested_amount = 400000;
  currency = "USD";
  approval_threshold = threshold;
}

evaluate-allow_iff_example :
    ((evaluate digest inputs).decision ≡ PolicyOutcome.allow)
    ↔ (IsClear inputs × (1 ≤ 2) × (400000 ≤ units threshold))
evaluate-allow_iff_example = evaluate-allow_iff digest inputs

-- the GLOBAL switch is engaged and released again
abbrev engaged : Db
engaged = after (engage none "owner" none start)

engage_runs : engage none "owner" none start ≡ ok (true, engaged)
unfolding engage record_event find_switch find
engage_runs = refl

abbrev disengaged : Db
disengaged = after (release none "owner" engaged)

release_runs : release none "owner" engaged ≡ ok (true, disengaged)
unfolding engage release record_event find_switch find update
release_runs = refl

-- an approval that has been given, and one that is pending
abbrev given : Approval
given = record {
  id = 3;
  action_id = 7;
  decision_id = 2;
  state = ApprovalState.approved;
  bound_inputs_hash = 5;
  expires_at = 1500;
  decided_by = some "owner";
  decided_at = some 900;
  reason = none;
}

abbrev waiting : Approval
waiting = record given {
  id = 4;
  state = ApprovalState.pending;
  expires_at = 950;
  decided_by = none;
  decided_at = none;
}

abbrev asked : Db
asked = record start { approvals = given ∷ waiting ∷ [] }

is_given : find_approval 3 asked.approvals ≡ some given
unfolding find_approval find
is_given = refl

abbrev rejected : Db
rejected = after (decide 4 ApprovalState.rejected "owner" none asked)

decide_runs :
    decide 4 ApprovalState.rejected "owner" none asked ≡ ok (ApprovalState.rejected, rejected)
unfolding decide record_event find_approval find update
decide_runs = refl

decide_terminal_example : find_approval 3 rejected.approvals ≡ some given
decide_terminal_example =
    decide_terminal 4 3 asked rejected given is_given refl ApprovalState.rejected
      ApprovalState.rejected "owner" none decide_runs

abbrev lapsed : Db
lapsed = after (expire_if_due 4 asked)

expire_runs : expire_if_due 4 asked ≡ ok (ApprovalState.expired, lapsed)
unfolding expire_if_due record_event find_approval find update
expire_runs = refl

is_valid : valid_approval 7 5 asked ≡ some given
unfolding valid_approval is_valid_for latest select
is_valid = refl

valid_approval_sound_example :
    (given.action_id ≡ 7)
    × (given.state ≡ ApprovalState.approved)
    × (given.bound_inputs_hash ≡ 5)
    × (asked.now < given.expires_at)
valid_approval_sound_example = valid_approval_sound 7 5 asked given is_valid

-- the venture moves on to BUILDING
abbrev building : Db
building = after (transition 1 LifecycleState.building "planner" none start)

transition_runs :
    transition 1 LifecycleState.building "planner" none start
    ≡ ok (LifecycleState.building, building)
unfolding transition is_permitted record_event find_venture find update
transition_runs = refl

transition_effect_example :
    (r : Venture) × (find_venture 1 start.ventures ≡ some r)
    × (LifecycleState.building ≡ LifecycleState.building)
    × (stage r.lifecycle_state < 2)
    × (find_venture 1 building.ventures
        ≡ some (record r { lifecycle_state = LifecycleState.building }))
transition_effect_example =
    transition_effect 1 1 LifecycleState.building LifecycleState.building "planner" none start
      building transition_runs

-- the same dict in two orders
abbrev payload_ab : Value
payload_ab = obj (Fields.field (codes "a") null (Fields.field (codes "b") (bool true) Fields.end))

abbrev payload_ba : Value
payload_ba = obj (Fields.field (codes "b") (bool true) (Fields.field (codes "a") null Fields.end))

keys_differ : codes "a" ≢ codes "b"
keys_differ h = ground arith

canonical_payload_hash-Same_example :
    canonical_payload_hash digest payload_ab ≡ canonical_payload_hash digest payload_ba
canonical_payload_hash-Same_example =
    canonical_payload_hash-Same digest (same_obj (fields_swap keys_differ))

-- an intake, and the same intake again
abbrev submission : Submission
submission = record {
  venture_id = 1;
  action_type = "refund";
  actor = "planner";
  idempotency_key = "key-3";
  payload = some payload_ab;
  required_autonomy = 1;
  requested_amount = 50000;
  requested_currency = "USD";
}

abbrev taken : Db
taken = after (submit_action_request digest submission start)

abbrev intake : IntakeResult
intake = record { action_id = 20; created = true }

submit_runs : submit_action_request digest submission start ≡ ok (intake, taken)
unfolding submit_action_request create_action record_event find_key find any row_fits
submit_runs = refl

-- with the keys of the payload in the other order
abbrev again : Submission
again = record submission { payload = some payload_ba }

submit_again_example :
    submit_action_request digest again taken
    ≡ ok (record { action_id = 20; created = false }, taken)
unfolding canonical_payload_hash dumps row_fits
submit_again_example =
    submit_again digest submission again start taken intake submit_runs refl refl refl
