-- ===== src/Base/Int.antt =====
-- Python's integers and the signed amounts that a caller may hand in.
use aidan_venture_os.Base.{ℕ, zero, suc, ◌+◌, ◌*◌, Bool, true, false, leb}

-- `negsuc n` is -(n + 1)
pub data ℤ : Type 0 where
  pos : ℕ → ℤ
  negsuc : ℕ → ℤ

-- `amount <= 0`
abbrev pub is_pos : ℤ → Bool
is_pos (pos (suc n)) = true
is_pos _ = false

abbrev pub pos_part : ℤ → ℕ
pos_part (pos n) = n
pos_part (negsuc n) = 0

-- `a <= b`
abbrev pub le_int : ℤ → ℤ → Bool
le_int (pos m) (pos n) = leb m n
le_int (pos m) (negsuc n) = false
le_int (negsuc m) (pos n) = true
le_int (negsuc m) (negsuc n) = leb n m

-- a whole number in ten-thousandths
abbrev pub scale : ℤ → ℤ
scale (pos n) = pos (n * 10000)
scale (negsuc n) = negsuc (n * 10000 + 9999)

abbrev pub negate : ℕ → ℤ
negate zero = pos 0
negate (suc n) = negsuc n
