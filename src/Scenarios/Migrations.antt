-- ===== src/Scenarios/Migrations.antt =====
-- Runs of migrate.py on two files, of which the directory lists the second one first.
use aidan_venture_os.Json.Canonical.{text_eq}
use aidan_venture_os.Base.{ℕ, ◌+◌, ◌≡◌, refl, Option, some, List, [], ◌∷◌, find, length, sort_by}
use aidan_venture_os.Json.Text.{Text, codes}
use aidan_venture_os.Migrate.{
  Applied, Ending, File, apply, apply_all, discover, find_applied, order_of, place_all,
}
use aidan_venture_os.Migrate.Rerun.{apply_again}
use aidan_venture_os.Scenarios.{digest}

abbrev files : List File
files =
    (record { name = codes "0002_b.sql"; content = codes "bb" })
    ∷ (record { name = codes "0001_a.sql"; content = codes "a" })
    ∷ []

-- the rest of the database counts what was executed
abbrev execute : Text → ℕ → Option ℕ
execute sql n = some (n + length sql)

abbrev rows : List Applied
rows =
    (record { version = codes "0002"; checksum = 2 })
    ∷ (record { version = codes "0001"; checksum = 1 })
    ∷ []

migrations_run :
    apply digest execute files [] 0 ≡ (Ending.finished (codes "0001" ∷ codes "0002" ∷ []), rows, 3)
unfolding apply discover place_all order_of apply_all sort_by find_applied find text_eq
migrations_run = refl

apply_again_example : apply digest execute files rows 3 ≡ (Ending.finished [], rows, 3)
apply_again_example =
    apply_again digest execute files [] rows 0 3 (codes "0001" ∷ codes "0002" ∷ []) migrations_run
