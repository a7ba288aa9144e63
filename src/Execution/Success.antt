-- ===== src/Execution/Success.antt =====
-- Canonical success and a VERIFIED proof go together.
use aidan_venture_os.Base.{
  ℕ, String, ◌≡◌, refl, Bool, true, false, Option, none, some, List, [], ◌∷◌, ◌==◌, ◌⊎◌, find,
  update, is_some, inl, inr, arith, Option-cases, Bool-cases, if◌then◌else◌,
}
use aidan_venture_os.Db.Rows.{ActionRequest, RunStatus, Verdict, ProofReceipt}
use aidan_venture_os.Db.Tx.{Db, ok, record_event}
use aidan_venture_os.Db.Queries.{find_action, has_action_id}
use aidan_venture_os.Proof.{find_proof}
use aidan_venture_os.Execution.Status.{set_status, same_status, is_allowed, with_status}
use aidan_venture_os.Execution.Frames.{Frame}

-- `SELECT status` is SUCCEEDED
abbrev pub is_done : Option ActionRequest → Bool
is_done none = false
is_done (some act) = same_status act.status RunStatus.succeeded

-- an action is SUCCEEDED just when it has a VERIFIED proof
abbrev pub IsProven : Db → Type 0
IsProven db = (a : ℕ) → is_done (find_action a db.actions) ≡ is_some (find_proof a db.proofs)

abbrev pub with_status? : RunStatus → Option ActionRequest → Option ActionRequest
with_status? s none = none
with_status? s (some r) = some (with_status s r)

pub find_action-update :
    (i j : ℕ) (s : RunStatus) (rows : List ActionRequest)
    → find_action j (update (has_action_id i) (with_status s) rows)
      ≡ (if i == j then with_status? s (find_action j rows) else find_action j rows)
unfolding find_action find update
find_action-update i j s [] = ground arith
find_action-update i j s (x ∷ xs) = ground (arith, find_action-update i j s xs)

pub Frame-IsProven : (db db' : Db) → Frame db db' → IsProven db → IsProven db'
Frame-IsProven db db' f h a = rw (f.actions, f.proofs) (h a)

-- a SUCCEEDED action has no way out through the guarded transitions
pub is_allowed-not_done :
    (s t : RunStatus) → is_allowed s t ≡ true → same_status s RunStatus.succeeded ≡ false
unfolding is_allowed
is_allowed-not_done RunStatus.succeeded t h = ground arith
is_allowed-not_done _ t h = refl

-- What `_set_status` has done: nothing, or the one update of an allowed transition.
pub set_status_effect :
    (i : ℕ) (s : RunStatus) (actor : String) (reason : Option String) (db db' : Db) (u : Unit {0})
    → set_status i s actor reason db ≡ ok (u, db')
    → (act : ActionRequest) × (find_action i db.actions ≡ some act)
      × (((same_status act.status s ≡ true) × (db' ≡ db))
          ⊎ ((is_allowed act.status s ≡ true)
              × (db'.actions ≡ update (has_action_id i) (with_status s) db.actions)
              × (db'.proofs ≡ db.proofs)))
unfolding set_status record_event
set_status_effect i s actor reason db db' u e = elim (Option-cases (find_action i db.actions)) [
  | inl p ↦ absurd (ground arith)
  | inr (act, p) ↦ elim (Bool-cases (same_status act.status s)) [
    | inl same ↦ (act, p, inl (same, ground arith))
    | inr other ↦ (act, p, inr (ground arith, ground arith, ground arith))
  ]
]

-- `_set_status` to anything but SUCCEEDED
pub set_status-IsProven :
    (i : ℕ) (s : RunStatus) (actor : String) (reason : Option String) (db db' : Db) (u : Unit {0})
    → same_status s RunStatus.succeeded ≡ false
    → set_status i s actor reason db ≡ ok (u, db')
    → IsProven db
    → IsProven db'
set_status-IsProven i s actor reason db db' u other e h a =
    let (act, p, how) = set_status_effect i s actor reason db db' u e in
    elim how [
      | inl (_, same) ↦ rw same (h a)
      | inr (allowed, changed, proofs) ↦
          rw (changed, proofs)
            (ground (
              arith,
              h a,
              find_action-update i a s db.actions,
              is_allowed-not_done act.status s allowed,
            ))
    ]

-- a VERIFIED receipt for action `i`, and the action SUCCEEDED
pub success-IsProven :
    (i : ℕ) (db db' : Db) (r : ProofReceipt)
    → IsProven db
    → is_some (find_action i db.actions) ≡ true
    → r.action_id ≡ i
    → r.result ≡ Verdict.verified
    → db'.actions ≡ update (has_action_id i) (with_status RunStatus.succeeded) db.actions
    → db'.proofs ≡ r ∷ db.proofs
    → IsProven db'
success-IsProven i db db' r h there of_i ver changed proofs a =
    rw (changed, proofs)
      (unfold find_proof find in
        ground (arith, h a, find_action-update i a RunStatus.succeeded db.actions))
