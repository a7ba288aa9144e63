-- ===== src/Json/Canonical.antt =====
-- actions.py, `canonical_payload_hash`. SHA-256 is a parameter.
use aidan_venture_os.Base.{
  ℕ, Bool, true, false, Option, none, some, [], ◌∷◌, ◌==◌, ◌&&◌, if◌then◌else◌,
}
use aidan_venture_os.Json.Text.{Text}
use aidan_venture_os.Json.Dumps.{Value, Fields, obj, dumps}

-- `payload or {}`
abbrev pub or_empty : Option Value → Value
or_empty none = obj Fields.end
or_empty (some v) = v

unfoldable pub canonical_payload_hash : (Text → ℕ) → Value → ℕ
canonical_payload_hash sha256 v = sha256 (dumps v)

unfoldable pub text_eq : Text → Text → Bool
text_eq [] [] = true
text_eq (x ∷ xs) (y ∷ ys) = x == y && text_eq xs ys
text_eq _ _ = false

-- `payload.get(key)` of a dict; None for any other value
unfoldable pub get_field : Text → Fields → Option Value
unfolding text_eq
get_field k Fields.end = none
get_field k (Fields.field j v rest) = if text_eq j k then some v else get_field k rest

unfoldable pub get : Text → Value → Option Value
unfolding get_field
get k (Value.obj fs) = get_field k fs
get k _ = none
