-- ===== src/Lifecycle/Progress.antt =====
-- The lifecycle moves forward only.
use aidan_venture_os.Base.{
  ℕ, ◌<◌, String, ◌≡◌, Option, none, some, List, [], ◌∷◌, ◌==◌, find, update, arith, if◌then◌else◌,
  inl, inr, Option-cases,
}
use aidan_venture_os.Db.Rows.{LifecycleState, Venture}
use aidan_venture_os.Db.Tx.{Db, ok, record_event}
use aidan_venture_os.Db.Queries.{has_venture_id, find_venture}
use aidan_venture_os.Lifecycle.{is_permitted, transition}

-- the place of a state in DISCOVERED, VALIDATING, BUILDING, OPERATING, ARCHIVED
abbrev pub stage : LifecycleState → ℕ
stage LifecycleState.discovered = 0
stage LifecycleState.validating = 1
stage LifecycleState.building = 2
stage LifecycleState.operating = 3
stage LifecycleState.archived = 4

set_state : LifecycleState → Option Venture → Option Venture
set_state s none = none
set_state s (some r) = some (record r { lifecycle_state = s })

find_venture-update :
    (i j : ℕ) (s : LifecycleState) (rows : List Venture)
    → find_venture j
        (update (has_venture_id i) (λ (r : Venture). record r { lifecycle_state = s }) rows)
      ≡ (if i == j then set_state s (find_venture j rows) else find_venture j rows)
unfolding find_venture find update set_state
find_venture-update i j s [] = ground arith
find_venture-update i j s (x ∷ xs) = ground (arith, find_venture-update i j s xs)

-- A transition that goes through moves its venture to the target, which is at a later stage, and
-- leaves every other venture as it was.
pub transition_effect :
    (i j : ℕ) (target t : LifecycleState) (actor : String) (reason : Option String) (db db' : Db)
    → transition i target actor reason db ≡ ok (t, db')
    → (r : Venture) × (find_venture i db.ventures ≡ some r)
      × (t ≡ target)
      × (stage r.lifecycle_state < stage target)
      × (find_venture j db'.ventures ≡ (
          if i == j
          then some (record r { lifecycle_state = target })
          else find_venture j db.ventures))
unfolding transition is_permitted record_event set_state
transition_effect i j target t actor reason db db' e =
    elim (Option-cases (find_venture i db.ventures)) [
      | inl p ↦ absurd (ground arith)
      | inr (r, p) ↦ (
        r,
        p,
        ground arith,
        ground arith,
        ground (arith, find_venture-update i j target db.ventures),
      )
    ]
