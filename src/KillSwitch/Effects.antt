-- ===== src/KillSwitch/Effects.antt =====
-- What engaging and releasing a switch does to the states of the ventures.
use aidan_venture_os.Base.{
  String, ◌≡◌, refl, Bool, true, false, Option, none, some, List, [], ◌∷◌, ◌==◌, find, update,
  arith, if◌then◌else◌, inl, inr, Bool-cases,
}
use aidan_venture_os.Db.Rows.{KillSwitch}
use aidan_venture_os.Db.Tx.{Db, ok, record_event}
use aidan_venture_os.KillSwitch.{Scope, is_scope, find_switch, is_active, engage, release}

-- the two scopes are the same
abbrev pub same_scope : Scope → Scope → Bool
same_scope none none = true
same_scope (some u) (some v) = u == v
same_scope _ _ = false

map_switch : (KillSwitch → KillSwitch) → Option KillSwitch → Option KillSwitch
map_switch f none = none
map_switch f (some r) = some (f r)

-- an update of one scope's row is seen at that scope and at no other
find_switch-update :
    (s t : Scope) (f : KillSwitch → KillSwitch) (rows : List KillSwitch)
    → ((r : KillSwitch) → (f r).venture_id ≡ r.venture_id)
    → find_switch t (update (is_scope s) f rows)
      ≡ (if same_scope s t then map_switch f (find_switch t rows) else find_switch t rows)
unfolding find_switch find update map_switch
find_switch-update none none f [] k = refl
find_switch-update none (some v) f [] k = refl
find_switch-update (some u) none f [] k = refl
find_switch-update (some u) (some v) f [] k = ground arith
find_switch-update none none f (x ∷ xs) k = ground (arith, k x, find_switch-update none none f xs k)
find_switch-update none (some v) f (x ∷ xs) k =
    ground (arith, k x, find_switch-update none (some v) f xs k)
find_switch-update (some u) none f (x ∷ xs) k =
    ground (arith, k x, find_switch-update (some u) none f xs k)
find_switch-update (some u) (some v) f (x ∷ xs) k =
    ground (arith, k x, find_switch-update (some u) (some v) f xs k)

-- the row that an engagement inserts is seen at its scope and at no other
find_switch-cons :
    (s t : Scope) (r : KillSwitch) (rows : List KillSwitch)
    → r.venture_id ≡ s
    → find_switch t (r ∷ rows) ≡ (if same_scope s t then some r else find_switch t rows)
unfolding find_switch find
find_switch-cons none none r rows h = ground arith
find_switch-cons none (some v) r rows h = ground arith
find_switch-cons (some u) none r rows h = ground arith
find_switch-cons (some u) (some v) r rows h = ground arith

same_scope_sound : (s t : Scope) → same_scope s t ≡ true → s ≡ t
same_scope_sound none none h = ground arith
same_scope_sound none (some v) h = ground arith
same_scope_sound (some u) none h = ground arith
same_scope_sound (some u) (some v) h = ground arith

-- the switch of scope `t`
abbrev pub state_of : Scope → Db → Bool
state_of t db = is_active (find_switch t db.kill_switches)

module _ (s t : Scope) (by : String) (db db' : Db) (b : Bool) where
  -- After engaging a switch it is active, and every other switch is as it was.
  pub engage-active :
      (reason : Option String)
      → engage s by reason db ≡ ok (b, db')
      → state_of t db' ≡ (if same_scope s t then true else state_of t db)
  unfolding engage record_event map_switch
  engage-active reason e =
      let new : KillSwitch = record {
        venture_id = s;
        active = true;
        engaged_by = by;
        reason = reason;
        released_by = none;
      } in
      elim (Bool-cases (same_scope s t)) [
        | inl same ↦ rw same (
            ground (
              arith,
              same_scope_sound s t same,
              find_switch-cons s t new db.kill_switches refl,
              find_switch-update s t
                  (λ (r : KillSwitch). record r {
                    active = true;
                    engaged_by = by;
                    reason = reason;
                    released_by = none;
                  })
                  db.kill_switches (λ r. refl),
            ))
        | inr other ↦ rw other (
            ground (
              arith,
              find_switch-cons s t new db.kill_switches refl,
              find_switch-update s t
                  (λ (r : KillSwitch). record r {
                    active = true;
                    engaged_by = by;
                    reason = reason;
                    released_by = none;
                  })
                  db.kill_switches (λ r. refl),
            ))
      ]

  -- After releasing a switch it is not active, and every other switch is as it was.
  pub release-active :
      release s by db ≡ ok (b, db')
      → state_of t db' ≡ (if same_scope s t then false else state_of t db)
  unfolding release record_event map_switch
  release-active e = elim (Bool-cases (same_scope s t)) [
    | inl same ↦ rw same (
        ground (
          arith,
          same_scope_sound s t same,
          find_switch-update s t
              (λ (r : KillSwitch). record r { active = false; released_by = some by })
              db.kill_switches (λ r. refl),
        ))
    | inr other ↦ rw other (
        ground (
          arith,
          find_switch-update s t
              (λ (r : KillSwitch). record r { active = false; released_by = some by })
              db.kill_switches (λ r. refl),
        ))
  ]
