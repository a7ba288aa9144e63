-- ===== src/Autonomy/Interventions.antt =====
-- An intervention marks its venture and no other.
use aidan_venture_os.Base.{ℕ, String, ◌≡◌, Option, ◌==◌, arith, any, if◌then◌else◌}
use aidan_venture_os.Db.Rows.{InterventionKind}
use aidan_venture_os.Db.Tx.{Db, ok, record_event}
use aidan_venture_os.Autonomy.{Assistance, assistance_class, record_intervention}

-- Once an intervention in a venture is recorded, the venture is HUMAN_ASSISTED, and the class of every
-- other venture is as it was.
pub record_intervention_effect :
    (v w : ℕ) (kind : InterventionKind) (stage : String) (at : ℕ) (reason : Option String)
    (related : Option ℕ) (actor : String) (db db' : Db) (i : ℕ)
    → record_intervention v kind stage at reason related actor db ≡ ok (i, db')
    → assistance_class w db' ≡ (if v == w then Assistance.human_assisted else assistance_class w db)
unfolding record_intervention assistance_class record_event any
record_intervention_effect v w kind stage at reason related actor db db' i e = ground arith
