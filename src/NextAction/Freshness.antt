-- ===== src/NextAction/Freshness.antt =====
-- A recommendation is fresh until what `_decide` reads changes.
use aidan_venture_os.Base.{
  ℕ, String, ◌≡◌, refl, sym, ◌∙◌, true, false, none, some, ◌∷◌, inl, inr, arith, find, select,
  str_eq, eq_iff, ◌⊎◌, Option-cases, Bool-cases,
}
use aidan_venture_os.Db.Validation.{Recommendation}
use aidan_venture_os.Db.Tx.{Db, ok, record_event, Result-cases}
use aidan_venture_os.Db.Queries.{find_venture}
use aidan_venture_os.Json.Text.{Text}
use aidan_venture_os.Research.KillCases.{find_opportunity}
use aidan_venture_os.NextAction.Gather.{
  has_fail, is_unresolved, is_contradictory, top_ranked, gather, results_about, cheapest_test,
  market_basis,
}
use aidan_venture_os.NextAction.Basis.{Choice}
use aidan_venture_os.NextAction.{
  Recommended, current_basis, basis_hash, can_build, decide, decide_build, find_recommendation_key,
  insert_recommendation, new_recommendation, recommend, return_recommendation,
}

-- the columns that `_decide` reads are the same
pub record Agree (db db' : Db) : Type 0 where
  pub ventures : db'.ventures ≡ db.ventures
  pub opportunities : db'.research.opportunities ≡ db.research.opportunities
  pub links : db'.research.opportunity_assumptions ≡ db.research.opportunity_assumptions
  pub assumptions : db'.research.assumptions ≡ db.research.assumptions
  pub hypotheses : db'.validation.hypotheses ≡ db.validation.hypotheses
  pub tests : db'.validation.tests ≡ db.validation.tests
  pub results : db'.validation.validation_results ≡ db.validation.validation_results
  pub market_specs : db'.validation.market_specs ≡ db.validation.market_specs
  pub market_observations : db'.validation.market_observations ≡ db.validation.market_observations
  pub completions : db'.validation.completions ≡ db.validation.completions

pub Agree-refl : (db : Db) → Agree db db
Agree-refl db = record {
  ventures = refl;
  opportunities = refl;
  links = refl;
  assumptions = refl;
  hypotheses = refl;
  tests = refl;
  results = refl;
  market_specs = refl;
  market_observations = refl;
  completions = refl;
}

module _ (db db' : Db) (h : Agree db db') where
  gather-Agree : (v o : ℕ) → gather v o db' ≡ gather v o db
  unfolding gather results_about
  gather-Agree v o =
      rw h.links (rw h.assumptions (rw h.hypotheses (rw h.tests (rw h.results refl))))

  cheapest_test-Agree : (v a : ℕ) → cheapest_test v a db' ≡ cheapest_test v a db
  unfolding cheapest_test
  cheapest_test-Agree v a = rw h.hypotheses (rw h.tests refl)

  market_basis-Agree : (v o : ℕ) → market_basis v o db' ≡ market_basis v o db
  unfolding market_basis
  market_basis-Agree v o =
      rw h.market_specs
        (rw h.market_observations (rw h.completions (rw h.ventures (rw h.results refl))))

  decide_build-Agree :
      (v o : ℕ) (db1 : Db) (c : Choice)
      → decide_build v o (gather v o db) db ≡ ok (c, db1)
      → decide_build v o (gather v o db) db' ≡ ok (c, db')
  unfolding decide_build
  decide_build-Agree v o db1 c e =
      elim (Option-cases (find_opportunity o db.research.opportunities)) [
        | inl x ↦ absurd (ground arith)
        | inr (op, x) ↦ elim (Option-cases (find_venture v db.ventures)) [
          | inl y ↦ absurd (ground arith)
          | inr (ven, y) ↦
              elim (Bool-cases (can_build ven.lifecycle_state op.status (gather v o db))) [
                | inl z ↦ ground (arith, h.opportunities, h.ventures)
                | inr z ↦ ground (arith, h.opportunities, h.ventures, market_basis-Agree v o)
              ]
        ]
      ]

  -- the choice is the same where the columns are
  pub decide-Agree :
      (v o : ℕ) (db1 : Db) (c : Choice) → decide v o db ≡ ok (c, db1) → decide v o db' ≡ ok (c, db')
  unfolding decide
  decide-Agree v o db1 c e = elim (Option-cases (find has_fail (gather v o db))) [
    | inr (s, p) ↦ ground (arith, gather-Agree v o)
    | inl p ↦ elim (Option-cases (top_ranked (select is_unresolved (gather v o db)))) [
      | inr (s, q) ↦ ground (arith, gather-Agree v o, cheapest_test-Agree v s.assumption.id)
      | inl q ↦ elim (Option-cases (find is_contradictory (gather v o db))) [
        | inr (s, r) ↦ ground (arith, gather-Agree v o, cheapest_test-Agree v s.assumption.id)
        | inl r ↦ ground (arith, gather-Agree v o, decide_build-Agree v o db1 c)
      ]
    ]
  ]

module _ (sha256 : Text → ℕ) where
  current_basis-Agree :
      (db db' : Db)
      → Agree db db'
      → (v o : ℕ) (db1 : Db) (c : Choice) → decide v o db ≡ ok (c, db1)
      → current_basis sha256 v o db' ≡ ok ((c, basis_hash sha256 o c), db')
  unfolding current_basis
  current_basis-Agree db db' h v o db1 c e = ground (arith, decide-Agree db db' h v o db1 c)

  pub insert_recommendation_effect :
      (v o : ℕ) (key : String) (c : Choice) (actor : String) (db db' : Db) (out : Recommended)
      → insert_recommendation sha256 v o key c actor db ≡ ok (out, db')
      → Agree db db'
        × (db'.validation.recommendations
            ≡ (new_recommendation sha256 db.next_id v o key c ∷ db.validation.recommendations))
        × (out ≡ record {
          recommendation_id = db.next_id;
          action_type = c.action;
          reason_code = c.reason;
          created = true;
        })
  unfolding insert_recommendation record_event
  insert_recommendation_effect v o key c actor db db' out e = (
    record {
      ventures = ground arith;
      opportunities = ground arith;
      links = ground arith;
      assumptions = ground arith;
      hypotheses = ground arith;
      tests = ground arith;
      results = ground arith;
      market_specs = ground arith;
      market_observations = ground arith;
      completions = ground arith;
    },
    ground arith,
    ground arith,
  )

  module _ (v o : ℕ) (key actor : String) (db db' : Db) (out : Recommended)
      (e : recommend sha256 v o key actor db ≡ ok (out, db')) where
    -- the choice of a call that goes through
    pub recommend_choice :
        (c : Choice) × (decide v o db ≡ ok (c, db))
        × (str_eq key "" ≡ false)
        × ((recommend sha256 v o key actor db ≡ insert_recommendation sha256 v o key c actor db)
              × (find_recommendation_key v key db.validation.recommendations ≡ none)
            ⊎ (r : Recommendation) × (find_recommendation_key v key db.validation.recommendations
                ≡ some r)
              × (return_recommendation sha256 r (basis_hash sha256 o c) db ≡ ok (out, db')))
    unfolding recommend
    recommend_choice = elim (Result-cases (decide v o db)) [
      | inr (x, p) ↦ absurd (ground arith)
      | inl (c, db1, p) ↦
          let here : decide v o db ≡ ok (c, db) = decide-Agree db db (Agree-refl db) v o db1 c p in
          elim (Option-cases (find_recommendation_key v key db.validation.recommendations)) [
            | inl q ↦ (c, here, ground arith, inl (ground arith, q))
            | inr (r, q) ↦ (c, here, ground arith, inr (r, q, ground arith))
          ]
    ]

    -- After a recommendation that went through, the same call, by any actor, returns the same
    -- recommendation, creates nothing and leaves the database as it is.
    pub recommend_again :
        (actor' : String)
        → recommend sha256 v o key actor' db'
          ≡ ok (
            record {
              recommendation_id = out.recommendation_id;
              action_type = out.action_type;
              reason_code = out.reason_code;
              created = false;
            },
            db',
          )
    unfolding recommend
    recommend_again actor' =
        let (c, here, named, ways) = recommend_choice in
        elim ways [
          | inr (r, q, e') ↦ unfold return_recommendation in ground arith
          | inl (e', q) ↦
              let i : insert_recommendation sha256 v o key c actor db ≡ ok (out, db') =
                sym e' ∙ e in
              let row = insert_recommendation_effect v o key c actor db db' out i in
              let there : decide v o db' ≡ ok (c, db') = decide-Agree db db' row.0 v o db c here in
              let added = row.1 in
              let given = row.2 in
              unfold return_recommendation find_recommendation_key find in
              ground (arith, eq_iff key key)
        ]
