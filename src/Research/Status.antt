-- ===== src/Research/Status.antt =====
-- The status of an opportunity: how it becomes a CANDIDATE, and how it moves.
use aidan_venture_os.Base.{
  ℕ, String, ◌≡◌, ◌≢◌, ◌&&◌, subst, ==-sound, refl, true, Option, none, some, List, [], ◌∷◌, ◌==◌,
  inl, inr, arith, find, any, update, Option-cases, Bool-cases, if◌then◌else◌,
}
use aidan_venture_os.Db.Research.{
  Dimension, KillCase, KillCaseDimension, Opportunity, OpportunityStatus,
}
use aidan_venture_os.Db.Tx.{Db, ok, record_event}
use aidan_venture_os.Research.KillCases.{
  dimension_code, find_kill_case, find_opportunity, has_opportunity_id, is_dimension,
  missing_dimensions, missing_of, required_dimensions,
}
use aidan_venture_os.Research.Opportunities.{
  finalize_candidate, is_complete, is_link_of, is_ready, same_state,
}

missing_of-none :
    (k : ℕ) (rows : List KillCaseDimension) (ds : List Dimension) (d : Dimension)
    → missing_of k rows ds ≡ []
    → any (λ e. dimension_code e == dimension_code d) ds ≡ true
    → any (is_dimension k d) rows ≡ true
unfolding missing_of any
missing_of-none k rows [] d h m = absurd (ground arith)
missing_of-none k rows (e ∷ ds) d h m = elim (Bool-cases (any (is_dimension k e) rows)) [
  | inr p ↦ absurd (ground arith)
  | inl p ↦ elim (Bool-cases (dimension_code e == dimension_code d)) [
    | inl q ↦
        subst (λ n. any (λ r. r.kill_case_id == k && dimension_code r.dimension == n) rows ≡ true)
          (==-sound (dimension_code e) (dimension_code d) q) p
    | inr q ↦ missing_of-none k rows ds d (ground arith) (ground arith)
  ]
]

-- every dimension is one of the eleven
is_required :
    (d : Dimension) → any (λ e. dimension_code e == dimension_code d) required_dimensions ≡ true
unfolding any
is_required Dimension.dominant_alternatives = refl
is_required Dimension.wtp_weakness = refl
is_required Dimension.distribution_difficulty = refl
is_required Dimension.commoditisation = refl
is_required Dimension.switching_barriers = refl
is_required Dimension.regulation = refl
is_required Dimension.data_constraints = refl
is_required Dimension.unit_economics = refl
is_required Dimension.support_burden = refl
is_required Dimension.market_size = refl
is_required Dimension.technology_risk = refl

-- the opportunity's kill case assesses every dimension
pub record IsAssessed (o : ℕ) (db : Db) : Type 0 where
  pub kill_case : KillCase
  pub found : find_kill_case o db.research.kill_cases ≡ some kill_case
  pub assessed : (d : Dimension) → any (is_dimension kill_case.id d) db.research.dimensions ≡ true

pub is_complete-IsAssessed :
    (o : ℕ) (db : Db)
    → is_complete (find_kill_case o db.research.kill_cases) db ≡ true
    → IsAssessed o db
unfolding missing_dimensions
is_complete-IsAssessed o db h = elim (Option-cases (find_kill_case o db.research.kill_cases)) [
  | inl p ↦ absurd (ground arith)
  | inr (k, p) ↦
      let empty : missing_of k.id db.research.dimensions required_dimensions ≡ [] = ground arith in
      record {
        kill_case = k;
        found = p;
        assessed = λ d.
            missing_of-none k.id db.research.dimensions required_dimensions d empty (is_required d);
      }
]

unfoldable pub map_opportunity :
    (Opportunity → Opportunity) → Option Opportunity → Option Opportunity
map_opportunity f none = none
map_opportunity f (some r) = some (f r)

pub find_opportunity-update :
    (i j : ℕ) (f : Opportunity → Opportunity) (rows : List Opportunity)
    → ((r : Opportunity) → (f r).id ≡ r.id)
    → find_opportunity j (update (has_opportunity_id i) f rows)
      ≡ (if i == j then map_opportunity f (find_opportunity j rows) else find_opportunity j rows)
unfolding find_opportunity find update map_opportunity
find_opportunity-update i j f [] k = ground arith
find_opportunity-update i j f (x ∷ xs) k = ground (arith, k x, find_opportunity-update i j f xs k)

-- An opportunity that becomes a CANDIDATE was a DRAFT, a claim and an assumption are linked to it, and
-- its kill case assesses every dimension.
pub finalize_candidate-IsAssessed :
    (i : ℕ) (actor : String) (db db' : Db) (s : OpportunityStatus) (o : Opportunity)
    → finalize_candidate i actor db ≡ ok (s, db')
    → find_opportunity i db.research.opportunities ≡ some o
    → o.status ≢ OpportunityStatus.candidate
    → (o.status ≡ OpportunityStatus.draft)
      × (any (is_link_of o.id) db.research.opportunity_claims ≡ true)
      × (any (is_link_of o.id) db.research.opportunity_assumptions ≡ true)
      × IsAssessed o.id db
      × (find_opportunity i db'.research.opportunities
          ≡ some (record o { status = OpportunityStatus.candidate }))
unfolding finalize_candidate
finalize_candidate-IsAssessed i actor db db' s o e f n =
    let draft : same_state o.status OpportunityStatus.draft ≡ true = ground arith in
    let ready : is_ready o db ≡ true = ground arith in
    (
      ground arith,
      unfold is_ready in ground arith,
      unfold is_ready in ground arith,
      is_complete-IsAssessed o.id db (unfold is_ready in ground arith),
      unfold record_event map_opportunity in
          ground (
            arith,
            find_opportunity-update i i
                (λ (r : Opportunity). record r { status = OpportunityStatus.candidate })
                db.research.opportunities,
          ),
    )
