-- ===== src/Db/Queries.antt =====
-- Statements on one row by its key, which several modules of the kernel execute.
use aidan_venture_os.Base.{ℕ, String, Bool, Option, List, ◌&&◌, ◌==◌, str_eq, find}
use aidan_venture_os.Db.Rows.{Venture, ActionRequest, AuditEvent, BudgetAccount}
use aidan_venture_os.Db.Tx.{Db, Tx, Error, gets, or_raise, ◌>>=◌}
use aidan_venture_os.Json.Dumps.{Value, Fields}
use aidan_venture_os.Json.Text.{codes}

abbrev pub has_venture_id : ℕ → Venture → Bool
has_venture_id i r = r.id == i

abbrev pub has_action_id : ℕ → ActionRequest → Bool
has_action_id i r = r.id == i

abbrev pub has_account_id : ℕ → BudgetAccount → Bool
has_account_id i r = r.id == i

abbrev pub is_account_of : ℕ → String → BudgetAccount → Bool
is_account_of v c r = r.venture_id == v && str_eq r.currency c

-- SELECT … FROM action_request WHERE id = %s
unfoldable pub find_action : ℕ → List ActionRequest → Option ActionRequest
find_action i rows = find (has_action_id i) rows

unfoldable pub find_venture : ℕ → List Venture → Option Venture
find_venture i rows = find (has_venture_id i) rows

-- SELECT … FROM budget_account WHERE venture_id = %s AND currency = %s
unfoldable pub find_account : ℕ → String → List BudgetAccount → Option BudgetAccount
find_account v c rows = find (is_account_of v c) rows

abbrev pub action_or_raise : ℕ → Tx ActionRequest
action_or_raise i = do row ← gets (λ db. find_action i db.actions); or_raise row Error.not_found

-- the payloads of audit events
abbrev pub text : String → Value
text s = Value.str (codes s)

infixr 60 ◌⇒◌&◌
abbrev pub ◌⇒◌&◌ : String → Value → Fields → Fields
k ⇒ v & rest = Fields.field (codes k) v rest

abbrev has_event_id : ℕ → AuditEvent → Bool
has_event_id i r = r.id == i

-- audit.py, `get_event`
abbrev get_event : ℕ → Db → Option AuditEvent
get_event i db = find (has_event_id i) db.audit_log
