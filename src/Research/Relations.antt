-- ===== src/Research/Relations.antt =====
-- Evidence for and against a claim, and what it makes of the claim.
use aidan_venture_os.Base.{
  ℕ, String, ◌≡◌, refl, Bool, true, false, Option, List, [], ◌∷◌, ◌==◌, ◌↔◌, inl, inr, arith, find,
  any, not, ◌&&◌, Option-cases, if◌then◌else◌,
}
use aidan_venture_os.Db.Research.{ClaimEvidence, Stance}
use aidan_venture_os.Db.Tx.{Db, Error, ok, err, record_event}
use aidan_venture_os.Validation.{Created}
use aidan_venture_os.Research.Claims.{
  ClaimState, claim_state, count_stance, find_relation, insert_relation, link_evidence,
  return_relation, same_stance,
}

abbrev pub has_stance : ℕ → Stance → ClaimEvidence → Bool
has_stance c s r = (r.claim_id == c) && same_stance s r.stance

count_stance-any :
    (s : Stance) (c : ℕ) (rows : List ClaimEvidence)
    → (count_stance s c rows == 0) ≡ not (any (has_stance c s) rows)
unfolding count_stance any
count_stance-any s c [] = refl
count_stance-any s c (r ∷ rs) = ground (arith, count_stance-any s c rs)

-- A claim is SUPPORTED just when an observation supports it and none contradicts it, and it is DISPUTED
-- just when there are both.
pub claim_state_iff :
    (c : ℕ) (db : Db)
    → ((claim_state c db ≡ ClaimState.supported) ↔ (
        (any (has_stance c Stance.supports) db.research.claim_evidence ≡ true)
        × (any (has_stance c Stance.contradicts) db.research.claim_evidence ≡ false)))
      × ((claim_state c db ≡ ClaimState.disputed) ↔ (
          (any (has_stance c Stance.supports) db.research.claim_evidence ≡ true)
          × (any (has_stance c Stance.contradicts) db.research.claim_evidence ≡ true)))
unfolding claim_state
claim_state_iff c db =
    let s = count_stance-any Stance.supports c db.research.claim_evidence in
    let k = count_stance-any Stance.contradicts c db.research.claim_evidence in
    (
      (λ h. (ground arith, ground arith), λ h. ground arith),
      (λ h. (ground arith, ground arith), λ h. ground arith),
    )

module _ (c o : ℕ) (s t : Stance) (why why' : Option String) (actor actor' : String) (db db' : Db)
    (out : Created) where
  -- Once an observation is linked to a claim, linking it again with the same stance returns the same
  -- relation and leaves the database as it is, and linking it with the other stance is a conflict.
  pub link_evidence_again :
      link_evidence c o s why actor db ≡ ok (out, db')
      → link_evidence c o t why' actor' db' ≡ (
          if same_stance s t
          then ok (record { id = out.id; created = false }, db')
          else err Error.evidence_relation_conflict)
  unfolding link_evidence insert_relation return_relation record_event find_relation find
  link_evidence_again e = elim (Option-cases (find_relation c o db.research.claim_evidence)) [
    | inl p ↦ ground arith
    | inr (r, p) ↦ ground arith
  ]
