-- ===== src/Json/Text.antt =====
-- Text as the list of its code points, with the order that Python's `sorted` uses on strings,
-- and decimal numerals.
use Prim.Native.Char.{code}
use aidan_venture_os.Base.{
  ℕ, zero, suc, ◌+◌, ◌/◌, ◌%◌, String, ◌≡◌, refl, Bool, true, false, List, [], ◌∷◌, ◌++◌, arith,
  ltb, leb, ◌==◌, ◌&&◌, ◌||◌, if◌then◌else◌,
}

abbrev pub Text : Type 0
Text = List ℕ

abbrev pub codes : String → Text
codes String.[] = []
codes (String.◌∷◌ c s) = code c ∷ codes s

-- `a <= b` on Python strings
unfoldable pub text_le : Text → Text → Bool
text_le [] ys = true
text_le (x ∷ xs) [] = false
text_le (x ∷ xs) (y ∷ ys) =
    let rest = text_le xs ys in if ltb x y then true else if ltb y x then false else rest

-- the characters that `str.strip` removes
abbrev pub is_space : ℕ → Bool
is_space c =
    (leb 9 c && leb c 13)
    || ((leb 28 c && leb c 32)
        || (c == 133
            || (c == 160
                || (c == 5760
                    || ((leb 8192 c && leb c 8202)
                        || (c == 8232
                            || (c == 8233 || (c == 8239 || (c == 8287 || c == 12288)))))))))

abbrev pub all_spaces : Text → Bool
all_spaces [] = true
all_spaces (c ∷ cs) = let rest = all_spaces cs in is_space c && rest

-- `s.strip() == ""`
unfoldable pub is_blank : String → Bool
is_blank s = all_spaces (codes s)

unfoldable pub digits : ℕ → ℕ → Text → Text
digits zero n acc = acc
digits (suc fuel) n acc =
    let acc' = (48 + n % 10) ∷ acc in
    let more = digits fuel (n / 10) acc' in if ltb n 10 then acc' else more

-- `str(n)`: a number below n + 1 has at most n + 1 digits
unfoldable pub show_ℕ : ℕ → Text
unfolding digits
show_ℕ n = digits (suc n) n []

pad4 : ℕ → Text
pad4 n = (48 + n / 1000 % 10) ∷ (48 + n / 100 % 10) ∷ (48 + n / 10 % 10) ∷ (48 + n % 10) ∷ []

-- `str` of a `numeric(20,4)`: four decimals
pub show_amount : ℕ → Text
unfolding show_ℕ pad4
show_amount n = show_ℕ (n / 10000) ++ (46 ∷ pad4 (n % 10000))

show_amount_1000 : show_amount 10000025 ≡ codes "1000.0025"
unfolding show_amount
show_amount_1000 = refl

show_ℕ_2050 : show_ℕ 2050 ≡ codes "2050"
unfolding show_ℕ
show_ℕ_2050 = refl

-- the text order is total, antisymmetric and transitive
pub text_le_total : (xs ys : Text) → text_le xs ys ≡ false → text_le ys xs ≡ true
unfolding text_le
text_le_total [] ys h = ground arith
text_le_total (x ∷ xs) [] h = refl
text_le_total (x ∷ xs) (y ∷ ys) h = ground (arith, text_le_total xs ys)

pub text_le_antisymm : (xs ys : Text) → text_le xs ys ≡ true → text_le ys xs ≡ true → xs ≡ ys
unfolding text_le
text_le_antisymm [] [] h k = refl
text_le_antisymm [] (y ∷ ys) h k = ground arith
text_le_antisymm (x ∷ xs) [] h k = ground arith
text_le_antisymm (x ∷ xs) (y ∷ ys) h k = ground (arith, text_le_antisymm xs ys)

pub text_le_trans :
    (xs ys zs : Text) → text_le xs ys ≡ true → text_le ys zs ≡ true → text_le xs zs ≡ true
unfolding text_le
text_le_trans [] ys zs h k = refl
text_le_trans (x ∷ xs) [] zs h k = ground arith
text_le_trans (x ∷ xs) (y ∷ ys) [] h k = ground arith
text_le_trans (x ∷ xs) (y ∷ ys) (z ∷ zs) h k = ground (arith, text_le_trans xs ys zs)
