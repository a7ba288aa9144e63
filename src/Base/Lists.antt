-- ===== src/Base/Lists.antt =====
-- Tables as lists of rows: the queries and updates that the program's SQL statements make.
use Prim.Native.Nat.{ℕ, suc, ◌+◌}
use mathlib.Core.Path.{◌≡◌, refl}
use mathlib.Core.Bool.{Bool, true, false, ◌||◌}
use mathlib.Core.Option.{Option, none, some}
use mathlib.Core.List.{List, [], ◌∷◌}
use native.Mathlib.Omega.{arith}
use aidan_venture_os.Base.Tests.{if◌then◌else◌, leb}

module _ {ℓ} {A : Type ℓ} where
  -- SELECT … WHERE p, the first row
  unfoldable pub find : (A → Bool) → List A → Option A
  find p [] = none
  find p (x ∷ xs) = if p x then some x else find p xs

  -- EXISTS (SELECT 1 … WHERE p)
  unfoldable pub any : (A → Bool) → List A → Bool
  any p [] = false
  any p (x ∷ xs) = p x || any p xs

  -- SELECT … WHERE p, every row
  unfoldable pub select : (A → Bool) → List A → List A
  select p [] = []
  select p (x ∷ xs) = let rest = select p xs in if p x then x ∷ rest else rest

  -- UPDATE … WHERE p, for a condition on a unique key: the first such row is rewritten
  unfoldable pub update : (A → Bool) → (A → A) → List A → List A
  update p f [] = []
  update p f (x ∷ xs) = if p x then f x ∷ xs else x ∷ update p f xs

  abbrev pub length : List A → ℕ
  length [] = 0
  length (x ∷ xs) = suc (length xs)

  -- SELECT sum(f)
  unfoldable pub sum_by : (A → ℕ) → List A → ℕ
  sum_by f [] = 0
  sum_by f (x ∷ xs) = f x + sum_by f xs

  -- what `find` returns passes the test
  pub find_sound : (p : A → Bool) (xs : List A) (r : A) → find p xs ≡ some r → p r ≡ true
  unfolding find
  find_sound p [] r h = ground arith
  find_sound p (x ∷ xs) r h = ground (arith, find_sound p xs r)

  pub any-none : (p : A → Bool) (xs : List A) → find p xs ≡ none → any p xs ≡ false
  unfolding find any
  any-none p [] h = refl
  any-none p (x ∷ xs) h = ground (arith, any-none p xs)

  -- ORDER BY f
  unfoldable pub insert_by : (A → ℕ) → A → List A → List A
  insert_by f x [] = x ∷ []
  insert_by f x (y ∷ ys) = if leb (f x) (f y) then x ∷ y ∷ ys else y ∷ insert_by f x ys

  unfoldable pub sort_by : (A → ℕ) → List A → List A
  unfolding insert_by
  sort_by f [] = []
  sort_by f (x ∷ xs) = insert_by f x (sort_by f xs)
