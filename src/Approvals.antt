-- ===== src/Approvals.antt =====
-- packages/core/aidan_core/approvals.py: approvals bound to the hash of a policy decision's inputs.
pub mod Terminal
use aidan_venture_os.Base.{
  ℕ, ◌+◌, String, Bool, true, false, Option, none, some, List, [], ◌∷◌, ◌==◌, ◌&&◌, ltb, leb, not,
  find, select, update, if◌then◌else◌,
}
use aidan_venture_os.Base.Int.{pos}
use aidan_venture_os.Db.Rows.{Approval, ApprovalState}
use aidan_venture_os.Db.Tx.{
  Db, Tx, Error, pure, raise, gets, or_raise, modify, require, fresh, record_event, ◌>>=◌, ◌>>◌,
}
use aidan_venture_os.Db.Queries.{◌⇒◌&◌}
use aidan_venture_os.Json.Text.{show_ℕ}
use aidan_venture_os.Json.Dumps.{Value, Fields, obj, str}

abbrev pub is_state : ApprovalState → ApprovalState → Bool
is_state ApprovalState.pending ApprovalState.pending = true
is_state ApprovalState.approved ApprovalState.approved = true
is_state ApprovalState.rejected ApprovalState.rejected = true
is_state ApprovalState.expired ApprovalState.expired = true
is_state _ _ = false

abbrev pub has_approval_id : ℕ → Approval → Bool
has_approval_id i r = r.id == i

unfoldable pub find_approval : ℕ → List Approval → Option Approval
find_approval i rows = find (has_approval_id i) rows

abbrev pub approval_payload : ℕ → Value
approval_payload i = obj ("approval_id" ⇒ str (show_ℕ i) & Fields.end)

-- `create_pending`; `ttl` in microseconds
unfoldable pub create_pending : ℕ → ℕ → ℕ → ℕ → Tx ℕ
create_pending action_id decision_id bound_inputs_hash ttl = do
  approval_id ← fresh
  modify (λ db. record db {
    approvals =
        (record {
          id = approval_id;
          action_id = action_id;
          decision_id = decision_id;
          state = ApprovalState.pending;
          bound_inputs_hash = bound_inputs_hash;
          expires_at = db.now + ttl;
          decided_by = none;
          decided_at = none;
          reason = none;
        })
        ∷ db.approvals;
  })
  record_event "approval.requested" "policy_engine" none (some action_id)
      (approval_payload approval_id)
  pure approval_id

-- APPROVED, bound to exactly these inputs, and not expired
unfoldable pub is_valid_for : ℕ → ℕ → ℕ → Approval → Bool
is_valid_for action_id inputs_hash now r =
    r.action_id == action_id
    && (is_state r.state ApprovalState.approved
        && (r.bound_inputs_hash == inputs_hash && ltb now r.expires_at))

abbrev decided_at_or_0 : Approval → ℕ
decided_at_or_0 r = elim r.decided_at [ none ↦ 0 | some t ↦ t ]

-- ORDER BY decided_at DESC LIMIT 1
unfoldable pub latest : List Approval → Option Approval
latest [] = none
latest (r ∷ rs) = elim (latest rs) [
  | none ↦ some r
  | some s ↦ if ltb (decided_at_or_0 r) (decided_at_or_0 s) then some s else some r
]

unfoldable pub valid_approval : ℕ → ℕ → Db → Option Approval
unfolding is_valid_for
valid_approval action_id inputs_hash db =
    latest (select (is_valid_for action_id inputs_hash db.now) db.approvals)

abbrev decided_event : ApprovalState → String
decided_event ApprovalState.pending = "approval.pending"
decided_event ApprovalState.approved = "approval.approved"
decided_event ApprovalState.rejected = "approval.rejected"
decided_event ApprovalState.expired = "approval.expired"

-- `_decide`
unfoldable pub decide : ℕ → ApprovalState → String → Option String → Tx ApprovalState
decide approval_id target decided_by reason = do
  row ← gets (λ db. find_approval approval_id db.approvals)
  approval ← or_raise row Error.approval_state
  if is_state approval.state target
      then pure approval.state
      else if not (is_state approval.state ApprovalState.pending)
      then raise Error.approval_state
      else do
        modify (λ db. record db {
          approvals =
              update (has_approval_id approval_id)
                (λ (r : Approval). record r {
                  state = target;
                  decided_by = some decided_by;
                  decided_at = some db.now;
                  reason = reason;
                })
                db.approvals;
        })
        record_event (decided_event target) decided_by none (some approval.action_id)
            (approval_payload approval_id)
        pure target

abbrev pub approve : ℕ → String → Option String → Tx ApprovalState
approve approval_id decided_by reason = decide approval_id ApprovalState.approved decided_by reason

abbrev pub reject : ℕ → String → Option String → Tx ApprovalState
reject approval_id decided_by reason = decide approval_id ApprovalState.rejected decided_by reason

unfoldable pub expire_if_due : ℕ → Tx ApprovalState
expire_if_due approval_id = do
  row ← gets (λ db. find_approval approval_id db.approvals)
  approval ← or_raise row Error.approval_state
  now ← gets (λ db. db.now)
  if not (is_state approval.state ApprovalState.pending && leb approval.expires_at now)
      then pure approval.state
      else do
        modify (λ db. record db {
          approvals =
              update (has_approval_id approval_id)
                (λ (r : Approval). record r {
                  state = ApprovalState.expired;
                  decided_at = some db.now;
                })
                db.approvals;
        })
        record_event "approval.expired" "system" none (some approval.action_id)
            (approval_payload approval_id)
        pure ApprovalState.expired

abbrev get_approval : ℕ → Db → Option Approval
get_approval approval_id db = find_approval approval_id db.approvals
