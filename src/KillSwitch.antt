-- ===== src/KillSwitch.antt =====
-- packages/core/aidan_core/killswitch.py: the GLOBAL switch and one switch for each venture.
-- A scope is `none` for GLOBAL and `some v` for the VENTURE scope of `v`.
pub mod Effects
use aidan_venture_os.Base.{
  ℕ, String, ◌≡◌, Bool, true, false, Option, none, some, List, ◌∷◌, ◌==◌, ◌&&◌, ◌||◌, not, find,
  any, update, if◌then◌else◌,
}
use aidan_venture_os.Db.Rows.{KillSwitch}
use aidan_venture_os.Db.Tx.{
  Db, Tx, Error, ok, err, pure, raise, gets, modify, require, record_event, ◌>>=◌, ◌>>◌,
}
use aidan_venture_os.Db.Queries.{has_venture_id, text, ◌⇒◌&◌}
use aidan_venture_os.Json.Dumps.{Value, Fields, obj}
use aidan_venture_os.Json.Canonical.{or_empty}

abbrev pub Scope : Type 0
Scope = Option ℕ

abbrev pub is_scope : Scope → KillSwitch → Bool
is_scope none r = elim r.venture_id [ none ↦ true | some _ ↦ false ]
is_scope (some v) r = elim r.venture_id [ none ↦ false | some u ↦ u == v ]

unfoldable pub find_switch : Scope → List KillSwitch → Option KillSwitch
find_switch s rows = find (is_scope s) rows

-- `bool(row[0]) if row is not None else False`
abbrev pub is_active : Option KillSwitch → Bool
is_active none = false
is_active (some r) = r.active

pub record KillState : Type 0 where
  pub global : Bool
  pub venture : Bool

unfoldable pub effective_state : ℕ → Db → KillState
effective_state v db = record {
  global = is_active (find_switch none db.kill_switches);
  venture = is_active (find_switch (some v) db.kill_switches);
}

unfoldable pub is_killed : ℕ → Db → Bool
unfolding effective_state
is_killed v db = let s = effective_state v db in s.global || s.venture

abbrev pub scope_name : Scope → String
scope_name none = "GLOBAL"
scope_name (some _) = "VENTURE"

abbrev pub opt_text : Option String → Value
opt_text none = Value.null
opt_text (some s) = text s

-- a VENTURE switch refers to a venture
abbrev pub scope_exists : Scope → Db → Bool
scope_exists none db = true
scope_exists (some v) db = any (has_venture_id v) db.ventures

-- INSERT INTO kill_switch, or UPDATE … SET active = true
abbrev pub set_active : Scope → String → Option String → Tx (Unit {0})
set_active s engaged_by reason db = elim (find_switch s db.kill_switches) [
  | none ↦
      if scope_exists s db
      then ok (
        tt,
        record db {
          kill_switches =
              (record {
                venture_id = s;
                active = true;
                engaged_by = engaged_by;
                reason = reason;
                released_by = none;
              })
              ∷ db.kill_switches;
        },
      )
      else err Error.integrity_error
  | some _ ↦ ok (
    tt,
    record db {
      kill_switches =
          update (is_scope s)
            (λ (r : KillSwitch). record r {
              active = true;
              engaged_by = engaged_by;
              reason = reason;
              released_by = none;
            })
            db.kill_switches;
    },
  )
]

-- `_engage`: False if the switch is active already
unfoldable pub engage : Scope → String → Option String → Tx Bool
engage s engaged_by reason = do
  row ← gets (λ db. find_switch s db.kill_switches)
  if is_active row then pure false else do
    set_active s engaged_by reason
    record_event "killswitch.engaged" engaged_by s none
        (obj ("scope" ⇒ text (scope_name s) & "reason" ⇒ opt_text reason & Fields.end))
    pure true

-- `_release`
unfoldable pub release : Scope → String → Tx Bool
release s released_by = do
  row ← gets (λ db. find_switch s db.kill_switches)
  if not (is_active row) then pure false else do
    modify (λ db. record db {
      kill_switches =
          update (is_scope s)
            (λ (r : KillSwitch). record r { active = false; released_by = some released_by })
            db.kill_switches;
    })
    record_event "killswitch.released" released_by s none
        (obj ("scope" ⇒ text (scope_name s) & Fields.end))
    pure true

-- `engage_global`, `release_global`, `engage_venture`, `release_venture`
abbrev pub engage_global : String → Option String → Tx Bool
engage_global engaged_by reason = engage none engaged_by reason

abbrev pub release_global : String → Tx Bool
release_global released_by = release none released_by

abbrev pub engage_venture : ℕ → String → Option String → Tx Bool
engage_venture v engaged_by reason = engage (some v) engaged_by reason

abbrev pub release_venture : ℕ → String → Tx Bool
release_venture v released_by = release (some v) released_by
