-- ===== src/Lifecycle.antt =====
-- packages/core/aidan_core/lifecycle.py: the guarded lifecycle of a venture.
pub mod Progress
use aidan_venture_os.Base.{ℕ, String, Bool, true, false, Option, none, some, update, if◌then◌else◌}
use aidan_venture_os.Db.Rows.{LifecycleState, Venture}
use aidan_venture_os.Db.Tx.{
  Db, Tx, Error, pure, gets, or_raise, modify, require, record_event, ◌>>=◌, ◌>>◌,
}
use aidan_venture_os.Db.Queries.{has_venture_id, find_venture, text, ◌⇒◌&◌}
use aidan_venture_os.Json.Dumps.{Fields, obj}
use aidan_venture_os.KillSwitch.{opt_text}

-- `PERMITTED_TRANSITIONS`
unfoldable pub is_permitted : LifecycleState → LifecycleState → Bool
is_permitted LifecycleState.discovered LifecycleState.validating = true
is_permitted LifecycleState.validating LifecycleState.building = true
is_permitted LifecycleState.building LifecycleState.operating = true
is_permitted LifecycleState.operating LifecycleState.archived = true
is_permitted LifecycleState.discovered LifecycleState.archived = true
is_permitted LifecycleState.validating LifecycleState.archived = true
is_permitted LifecycleState.building LifecycleState.archived = true
is_permitted _ _ = false

-- `_as_value`
abbrev pub lifecycle_name : LifecycleState → String
lifecycle_name LifecycleState.discovered = "DISCOVERED"
lifecycle_name LifecycleState.validating = "VALIDATING"
lifecycle_name LifecycleState.building = "BUILDING"
lifecycle_name LifecycleState.operating = "OPERATING"
lifecycle_name LifecycleState.archived = "ARCHIVED"

-- `transition_cur`; `transition` is the same in a transaction of its own
unfoldable pub transition : ℕ → LifecycleState → String → Option String → Tx LifecycleState
transition venture_id target actor reason = do
  row ← gets (λ db. find_venture venture_id db.ventures)
  venture ← or_raise row Error.not_found
  require (is_permitted venture.lifecycle_state target) Error.illegal_transition
  modify (λ db. record db {
    ventures =
        update (has_venture_id venture_id) (λ (r : Venture). record r { lifecycle_state = target })
          db.ventures;
  })
  record_event "venture.lifecycle_transition" actor (some venture_id) none (
      obj (
        "from"
        ⇒ text (lifecycle_name venture.lifecycle_state) & "to"
        ⇒ text (lifecycle_name target) & "reason"
        ⇒ opt_text reason & Fields.end))
  pure target
