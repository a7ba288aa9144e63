-- ===== src/Commitment/Parts.antt =====
-- The parts of a conversion that goes through, and what each check that it passed has found.
use aidan_venture_os.Base.{
  ℕ, ◌≤◌, ◌≡◌, true, false, Option, none, some, ◌&&◌, inl, inr, arith, find, Option-cases, ==-sound,
}
use aidan_venture_os.Db.Rows.{InvestmentDecision}
use aidan_venture_os.Db.Research.{Opportunity}
use aidan_venture_os.Db.Validation.{Recommendation, ValidationTest}
use aidan_venture_os.Db.Tx.{Db, ok, Result-cases}
use aidan_venture_os.Json.Text.{Text}
use aidan_venture_os.Validation.{is_opportunity_of}
use aidan_venture_os.Policy.{Decimal, current_evaluation, persist_decision}
use aidan_venture_os.Execution.Claim.{open_approval}
use aidan_venture_os.NextAction.Basis.{Choice}
use aidan_venture_os.NextAction.{basis_hash, current_basis, decide}
use aidan_venture_os.NextAction.Freshness.{Agree-refl, decide-Agree}
use aidan_venture_os.Commitment.Gate.{build_gate, is_test_of, validate_spend_bound}
use aidan_venture_os.Commitment.Conditions.{IsReadyToBuild}
use aidan_venture_os.Commitment.Gating.{passes_gate-IsReadyToBuild}
use aidan_venture_os.Commitment.{
  approval_ttl, assert_not_stale, check_target, convert, insert_decision, resulting_action,
  submit_to_policy,
}
use aidan_venture_os.Commitment.Targets.{
  Committed, Request, decision_for, is_consequential, is_passive,
}

-- the opportunity of a recommendation to BUILD is ready
pub record IsGated (r : Recommendation) (db : Db) : Type 0 where
  pub opportunity : Opportunity
  pub found :
      find (is_opportunity_of r.opportunity_id r.venture_id) db.research.opportunities
      ≡ some opportunity
  pub ready : IsReadyToBuild r.venture_id opportunity db

pub build_gate-IsGated :
    (r : Recommendation) (db db' : Db) (u : Unit {0})
    → build_gate r.venture_id r.opportunity_id db ≡ ok (u, db')
    → IsGated r db
unfolding build_gate
build_gate-IsGated r db db' u e =
    elim (Option-cases
      (find (is_opportunity_of r.opportunity_id r.venture_id) db.research.opportunities)) [
        | inl p ↦ absurd (ground arith)
        | inr (o, p) ↦ record {
          opportunity = o;
          found = p;
          ready = passes_gate-IsReadyToBuild r.venture_id o db (ground arith);
        }
      ]

-- the selected test allows the amount
pub record IsBounded (r : Recommendation) (amount : ℕ) (db : Db) : Type 0 where
  pub test_id : ℕ
  pub selected : r.selected_test_id ≡ some test_id
  pub test : ValidationTest
  pub found : find (is_test_of test_id r.venture_id) db.validation.tests ≡ some test
  pub most : ℕ
  pub limit : test.definition.max_spend ≡ some most
  pub within : amount ≤ most

pub validate_spend_bound-IsBounded :
    (r : Recommendation) (n : ℕ) (db db' : Db) (u : Unit {0})
    → validate_spend_bound r.venture_id r.selected_test_id n db ≡ ok (u, db')
    → IsBounded r n db
unfolding validate_spend_bound
validate_spend_bound-IsBounded r n db db' u e = elim (Option-cases r.selected_test_id) [
  | inl p ↦ absurd (ground arith)
  | inr (i, p) ↦ elim (Option-cases (find (is_test_of i r.venture_id) db.validation.tests)) [
    | inl x ↦ absurd (ground arith)
    | inr (t, x) ↦ elim (Option-cases t.definition.max_spend) [
      | inl y ↦ absurd (ground arith)
      | inr (m, y) ↦ record {
        test_id = i;
        selected = p;
        test = t;
        found = x;
        most = m;
        limit = y;
        within = ground arith;
      }
    ]
  ]
]

pub check_target_state :
    (d : InvestmentDecision) (r : Recommendation) (q : Request) (db db' : Db) (u : Unit {0})
    → check_target d r q db ≡ ok (u, db')
    → db' ≡ db
unfolding check_target build_gate validate_spend_bound
check_target_state InvestmentDecision.build r q db db' u e = ground arith
check_target_state InvestmentDecision.validate r q db db' u e =
    elim (Option-cases r.selected_test_id) [ inl p ↦ ground arith | inr (i, p) ↦ ground arith ]
check_target_state InvestmentDecision.improve r q db db' u e = ground arith
check_target_state InvestmentDecision.market r q db db' u e = ground arith
check_target_state InvestmentDecision.scale r q db db' u e = ground arith
check_target_state InvestmentDecision.hold r q db db' u e = ground arith
check_target_state InvestmentDecision.kill r q db db' u e = ground arith
check_target_state InvestmentDecision.do_nothing r q db db' u e = ground arith

module _ (sha256 : Text → ℕ) (r : Recommendation) where
  -- the basis of a recommendation that is not stale
  pub record IsFresh (db : Db) : Type 0 where
    pub choice : Choice
    pub current : decide r.venture_id r.opportunity_id db ≡ ok (choice, db)
    pub same_hash : basis_hash sha256 r.opportunity_id choice ≡ r.input_hash

  pub assert_not_stale-IsFresh :
      (db db' : Db) (u : Unit {0})
      → assert_not_stale sha256 r db ≡ ok (u, db')
      → (db' ≡ db) × IsFresh db
  unfolding assert_not_stale current_basis
  assert_not_stale-IsFresh db db' u e =
      elim (Result-cases (decide r.venture_id r.opportunity_id db)) [
        | inr (x, p) ↦ absurd (ground arith)
        | inl (c, db1, p) ↦
            let here : decide r.venture_id r.opportunity_id db ≡ ok (c, db) =
              decide-Agree db db (Agree-refl db) r.venture_id r.opportunity_id db1 c p in
            (
              ground arith,
              record {
                choice = c;
                current = here;
                same_hash =
                    ==-sound (basis_hash sha256 r.opportunity_id c) r.input_hash (ground arith);
              },
            )
      ]

  -- the parts of a conversion that goes through
  pub record Parts (q : Request) (db db' : Db) (out : Committed) : Type 0 where
    pub target : InvestmentDecision
    pub mapped : decision_for r.action_type ≡ some target
    pub active : is_consequential q && is_passive target ≡ false
    pub basis : IsFresh db
    pub checked : check_target target r q db ≡ ok (tt, db)
    pub action_id : Option ℕ
    pub db1 : Db
    pub acted : resulting_action sha256 r target q db ≡ ok (action_id, db1)
    pub decision_id : ℕ
    pub db2 : Db
    pub recorded : insert_decision r target action_id q.actor db1 ≡ ok (decision_id, db2)
    pub submitted :
        submit_to_policy sha256 r.venture_id decision_id target q.approval_threshold action_id db2
        ≡ ok (out, db')

  pub convert-Parts :
      (q : Request) (db db' : Db) (out : Committed)
      → convert sha256 r q db ≡ ok (out, db')
      → Parts q db db' out
  unfolding convert
  convert-Parts q db db' out e = elim (Option-cases (decision_for r.action_type)) [
    | inl p ↦ absurd (ground arith)
    | inr (d, p) ↦ elim (Result-cases (assert_not_stale sha256 r db)) [
      | inr (x, f) ↦ absurd (ground arith)
      | inl (u, db0, f) ↦
          let fresh = assert_not_stale-IsFresh db db0 u f in
          let same : db0 ≡ db = fresh.0 in
          elim (Result-cases (check_target d r q db)) [
            | inr (x, g) ↦ absurd (ground arith)
            | inl (w, dbc, g) ↦
                let same_c : dbc ≡ db = check_target_state d r q db dbc w g in
                elim (Result-cases (resulting_action sha256 r d q db)) [
                  | inr (x, k) ↦ absurd (ground arith)
                  | inl (a, db1, k) ↦ elim (Result-cases (insert_decision r d a q.actor db1)) [
                    | inr (x, l) ↦ absurd (ground arith)
                    | inl (i, db2, l) ↦ record {
                      target = d;
                      mapped = p;
                      active = ground arith;
                      basis = fresh.1;
                      checked = ground arith;
                      action_id = a;
                      db1 = db1;
                      acted = k;
                      decision_id = i;
                      db2 = db2;
                      recorded = l;
                      submitted = ground arith;
                    }
                  ]
                ]
          ]
    ]
  ]

  pub submit_to_policy_fields :
      (v i : ℕ) (d : InvestmentDecision) (th : Decimal) (a : Option ℕ) (db db' : Db)
      (out : Committed)
      → submit_to_policy sha256 v i d th a db ≡ ok (out, db')
      → (out.decision ≡ d) × (out.created ≡ true) × (out.resulting_action_id ≡ a)
  unfolding submit_to_policy
  submit_to_policy_fields v i d th none db db' out e = (ground arith, ground arith, ground arith)
  submit_to_policy_fields v i d th (some a) db db' out e =
      elim (Result-cases (current_evaluation sha256 a th db)) [
        | inr (x, p) ↦ absurd (ground arith)
        | inl (found, db1, p) ↦ elim (Result-cases (persist_decision a v found.0 found.2 db1)) [
          | inr (x, q) ↦ absurd (ground arith)
          | inl (j, db2, q) ↦
              elim (Result-cases (open_approval sha256 a j found.0 approval_ttl db2)) [
                | inr (x, k) ↦ absurd (ground arith)
                | inl (m, db3, k) ↦ (ground arith, ground arith, ground arith)
              ]
        ]
      ]
