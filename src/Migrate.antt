-- ===== src/Migrate.antt =====
-- packages/core/aidan_core/migrate.py: forward-only migrations, locked by their checksums.
-- A file is its name and its content, which stands for its bytes. `int` is read for prefixes of digits
-- alone; any other prefix is refused, as `int` refuses it.
pub mod Rerun
use aidan_venture_os.Base.{
  ℕ, ◌+◌, ◌*◌, ◌-◌, Bool, true, false, Option, none, some, List, [], ◌∷◌, ◌==◌, ◌&&◌, leb, find,
  sort_by, if◌then◌else◌,
}
use aidan_venture_os.Json.Text.{Text}
use aidan_venture_os.Json.Canonical.{text_eq}

pub record File : Type 0 where
  pub name : Text
  pub content : Text

-- `path.name.split("_", 1)[0]`
unfoldable pub prefix : Text → Text
prefix [] = []
prefix (c ∷ cs) = let rest = prefix cs in if c == 95 then [] else c ∷ rest

-- the number that digits write, after those that were read
unfoldable pub number_from : ℕ → Text → Option ℕ
number_from n [] = some n
number_from n (c ∷ cs) =
    let rest = number_from (n * 10 + (c - 48)) cs in if leb 48 c && leb c 57 then rest else none

-- `int(path.name.split("_", 1)[0])`; none for a ValueError. Digits are those of ASCII: white space
-- after them and other digits of Unicode, which `int` takes too, are an error here.
unfoldable pub order_of : Text → Option ℕ
unfolding prefix number_from
order_of name = elim (prefix name) [ [] ↦ none | c ∷ cs ↦ number_from 0 (c ∷ cs) ]

-- a discovered migration: the place of its file in the order, its version, and the file
pub record Migration : Type 0 where
  pub place : ℕ
  pub version : Text
  pub file : File

unfoldable pub place_all : List File → Option (List Migration)
place_all [] = some []
place_all (f ∷ fs) = elim (place_all fs) [
  | none ↦ none
  | some ms ↦ elim (order_of f.name) [
    | none ↦ none
    | some n ↦ some ((record { place = n; version = prefix f.name; file = f }) ∷ ms)
  ]
]

abbrev option_sort : Option (List Migration) → Option (List Migration)
option_sort none = none
option_sort (some ms) = some (sort_by (λ m. m.place) ms)

-- `discover`, from the files that the directory lists: stable in their order
unfoldable pub discover : List File → Option (List Migration)
discover files = option_sort (place_all files)

-- a row of schema_migrations
pub record Applied : Type 0 where
  pub version : Text
  pub checksum : ℕ

abbrev pub is_version : Text → Applied → Bool
is_version v r = text_eq r.version v

unfoldable pub find_applied : Text → List Applied → Option Applied
find_applied v rows = find (is_version v) rows

-- how a run ends; what was committed before an error stays
pub data Ending : Type 0 where
  finished : List Text → Ending
  checksum_error migration_error value_error : Ending

-- a migration that this run has applied comes first in the answer
unfoldable pub also : Text → Ending → Ending
also v (Ending.finished vs) = Ending.finished (v ∷ vs)
also v e = e

-- SHA-256, and what the SQL of a file does to the rest of the database, none where it fails
module _ {ℓ} {S : Type ℓ} (sha256 : Text → ℕ) (execute : Text → S → Option S) where
  -- the loop of `apply`
  unfoldable pub apply_all : List Migration → List Applied → S → Ending × List Applied × S
  unfolding also
  apply_all [] rows s = (Ending.finished [], rows, s)
  apply_all (m ∷ ms) rows s = elim (find_applied m.version rows) [
    | some r ↦ elim (r.checksum == sha256 m.file.content) [
      | true ↦ apply_all ms rows s
      | false ↦ (Ending.checksum_error, rows, s)
    ]
    | none ↦ elim (execute m.file.content s) [
      | none ↦ (Ending.migration_error, rows, s)
      | some s' ↦
          let rest =
            apply_all ms ((record { version = m.version; checksum = sha256 m.file.content }) ∷ rows)
              s' in
          (also m.version rest.0, rest.1, rest.2)
    ]
  ]

  unfoldable pub apply : List File → List Applied → S → Ending × List Applied × S
  apply files rows s = elim (discover files) [
    | none ↦ (Ending.value_error, rows, s)
    | some ms ↦ apply_all ms rows s
  ]
