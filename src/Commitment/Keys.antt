-- ===== src/Commitment/Keys.antt =====
-- commitment.py: the texts that name a recommendation (f"commit:{id}" and the rationale of a decision).
use Prim.Native.Char.{Char}
use aidan_venture_os.Base.{
  ℕ, zero, suc, ◌-◌, ◌/◌, ◌%◌, String, ◌≡◌, refl, List, [], ◌∷◌, ◌==◌, ltb, if◌then◌else◌,
}

abbrev digit_from : ℕ → List Char → Char
digit_from n [] = "9"
digit_from n (c ∷ cs) = if n == 0 then c else digit_from (n - 1) cs

abbrev digit : ℕ → Char
digit n = digit_from n ("0" ∷ "1" ∷ "2" ∷ "3" ∷ "4" ∷ "5" ∷ "6" ∷ "7" ∷ "8" ∷ "9" ∷ [])

-- the decimal digits of a number before a text
unfoldable pub numeral : ℕ → ℕ → String → String
numeral zero n acc = acc
numeral (suc fuel) n acc =
    let acc' = String.◌∷◌ (digit (n % 10)) acc in
    let more = numeral fuel (n / 10) acc' in if ltb n 10 then acc' else more

abbrev pub prefixed : String → String → String
prefixed String.[] t = t
prefixed (String.◌∷◌ c s) t = String.◌∷◌ c (prefixed s t)

unfoldable pub commit_key : ℕ → String
unfolding numeral
commit_key i = prefixed "commit:" (numeral (suc i) i "")

unfoldable pub rationale : ℕ → String
unfolding numeral
rationale i = prefixed "next_action_recommendation:" (numeral (suc i) i "")

commit_key_407 : commit_key 407 ≡ "commit:407"
unfolding commit_key numeral
commit_key_407 = refl
