-- ===== src/Approvals/Terminal.antt =====
-- A decided approval stays decided, and authorises only the inputs that it is bound to.
use aidan_venture_os.Base.{
  ℕ, ◌<◌, String, ◌≡◌, Bool, true, false, Option, none, some, List, [], ◌∷◌, ◌==◌, find, update,
  select, arith, if◌then◌else◌,
}
use aidan_venture_os.Db.Rows.{Approval, ApprovalState}
use aidan_venture_os.Db.Tx.{Db, ok, record_event}
use aidan_venture_os.Approvals.{
  is_state, has_approval_id, find_approval, valid_approval, is_valid_for, latest, decide,
  expire_if_due,
}

map_approval : (Approval → Approval) → Option Approval → Option Approval
map_approval f none = none
map_approval f (some r) = some (f r)

find_approval-update :
    (i j : ℕ) (f : Approval → Approval) (rows : List Approval)
    → ((r : Approval) → (f r).id ≡ r.id)
    → find_approval j (update (has_approval_id i) f rows)
      ≡ (if i == j then map_approval f (find_approval j rows) else find_approval j rows)
unfolding find_approval find update map_approval
find_approval-update i j f [] k = ground arith
find_approval-update i j f (x ∷ xs) k = ground (arith, k x, find_approval-update i j f xs k)

module _ (i j : ℕ) (db db' : Db) (r : Approval)
    (found : find_approval j db.approvals ≡ some r) where
  module _ (final : is_state r.state ApprovalState.pending ≡ false) where
    -- No decision changes an approval that is not PENDING.
    pub decide_terminal :
        (target t : ApprovalState) (by : String) (reason : Option String)
        → decide i target by reason db ≡ ok (t, db')
        → find_approval j db'.approvals ≡ some r
    unfolding decide record_event
    decide_terminal target t by reason e = ground (
      arith,
      find_approval-update i j
          (λ (a : Approval). record a {
            state = target;
            decided_by = some by;
            decided_at = some db.now;
            reason = reason;
          })
          db.approvals,
    )

    -- No expiry changes an approval that is not PENDING.
    pub expire_if_due_terminal :
        (t : ApprovalState)
        → expire_if_due i db ≡ ok (t, db')
        → find_approval j db'.approvals ≡ some r
    unfolding expire_if_due record_event
    expire_if_due_terminal t e = ground (
      arith,
      find_approval-update i j
          (λ (a : Approval). record a { state = ApprovalState.expired; decided_at = some db.now })
          db.approvals,
    )

latest-valid :
    (p : Approval → Bool) (rows : List Approval) (r : Approval)
    → latest (select p rows) ≡ some r
    → p r ≡ true
unfolding latest select
latest-valid p [] r h = cc
latest-valid p (x ∷ xs) r h = ground (arith, latest-valid p xs r)

-- An approval that `valid_approval` returns is APPROVED, is of this action, is bound to exactly the
-- current inputs and has not expired.
pub valid_approval_sound :
    (a h : ℕ) (db : Db) (r : Approval)
    → valid_approval a h db ≡ some r
    → (r.action_id ≡ a)
      × (r.state ≡ ApprovalState.approved)
      × (r.bound_inputs_hash ≡ h)
      × (db.now < r.expires_at)
unfolding is_valid_for valid_approval
valid_approval_sound a h db r e =
    let v : is_valid_for a h db.now r ≡ true =
      latest-valid (is_valid_for a h db.now) db.approvals r e in
    ground arith
