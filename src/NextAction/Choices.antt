-- ===== src/NextAction/Choices.antt =====
-- What a choice of nextaction.py promises, and that a recommendation is fresh when it is made.
use aidan_venture_os.Base.{
  ℕ, ◌≡◌, Bool, true, false, Option, none, some, List, [], ◌∷◌, ◌≢◌, ◌↔◌, ◌⊎◌, inl, inr, arith,
  find, any, any-none, select, Option-cases, Bool-cases,
}
use aidan_venture_os.Db.Rows.{LifecycleState, Venture}
use aidan_venture_os.Db.Research.{Opportunity, OpportunityStatus}
use aidan_venture_os.Db.Validation.{NextAction}
use aidan_venture_os.Db.Tx.{Db, ok}
use aidan_venture_os.Db.Queries.{find_venture}
use aidan_venture_os.Research.KillCases.{find_opportunity}
use aidan_venture_os.NextAction.Gather.{
  State, gather, has_fail, is_unresolved, is_contradictory, is_settled_key, all_states, top_ranked,
  cheapest_test, MarketBasis, market_basis, has_pass,
}
use aidan_venture_os.NextAction.Basis.{Choice}
use aidan_venture_os.NextAction.{can_build, decide, decide_build, market_or_hold}

any-find : (p : State → Bool) (xs : List State) (s : State) → find p xs ≡ some s → any p xs ≡ true
unfolding find any
any-find p [] s h = absurd (ground arith)
any-find p (x ∷ xs) s h = ground (arith, any-find p xs s)

-- what stands behind a BUILD
pub record IsBuildable (v o : ℕ) (db : Db) : Type 0 where
  pub opportunity : Opportunity
  pub found : find_opportunity o db.research.opportunities ≡ some opportunity
  pub candidate : opportunity.status ≡ OpportunityStatus.candidate
  pub venture : Venture
  pub venture_found : find_venture v db.ventures ≡ some venture
  pub not_operating : venture.lifecycle_state ≢ LifecycleState.operating
  pub no_fail : any has_fail (gather v o db) ≡ false
  pub no_contradiction : any is_contradictory (gather v o db) ≡ false
  pub passed : any has_pass (gather v o db) ≡ true
  pub settled : all_states is_settled_key (gather v o db) ≡ true

module _ (v o : ℕ) (db db' : Db) (c : Choice) where
  -- the choice where an assumption is unresolved
  unresolved_choice :
      (s : State)
      → decide v o db ≡ ok (c, db')
      → find has_fail (gather v o db) ≡ none
      → top_ranked (select is_unresolved (gather v o db)) ≡ some s
      → (c.action ≡ NextAction.research_more) ⊎ (c.action ≡ NextAction.validate)
  unfolding decide
  unresolved_choice s e p q = elim (Option-cases (cheapest_test v s.assumption.id db)) [
    | inl t ↦ inl (ground arith)
    | inr (i, t) ↦ inr (ground arith)
  ]

  -- the choice where the results of an assumption contradict each other
  contradictory_choice :
      (s : State)
      → decide v o db ≡ ok (c, db')
      → find has_fail (gather v o db) ≡ none
      → top_ranked (select is_unresolved (gather v o db)) ≡ none
      → find is_contradictory (gather v o db) ≡ some s
      → (c.action ≡ NextAction.hold) ⊎ (c.action ≡ NextAction.validate)
  unfolding decide
  contradictory_choice s e p q r = elim (Option-cases (cheapest_test v s.assumption.id db)) [
    | inl t ↦ inl (ground arith)
    | inr (i, t) ↦ inr (ground arith)
  ]

  market_choice :
      (m : Option MarketBasis)
      → c ≡ market_or_hold (gather v o db) m
      → (c.action ≡ NextAction.hold) ⊎ (c.action ≡ NextAction.market)
  market_choice none e = inl (ground arith)
  market_choice (some m) e = inr (ground arith)

  -- the choice where all is resolved
  settled_choice :
      decide v o db ≡ ok (c, db')
      → find has_fail (gather v o db) ≡ none
      → top_ranked (select is_unresolved (gather v o db)) ≡ none
      → find is_contradictory (gather v o db) ≡ none
      → ((c.action ≡ NextAction.build) × IsBuildable v o db)
        ⊎ ((c.action ≡ NextAction.hold) ⊎ (c.action ≡ NextAction.market))
  unfolding decide decide_build
  settled_choice e p q r = elim (Option-cases (find_opportunity o db.research.opportunities)) [
    | inl x ↦ absurd (ground arith)
    | inr (op, x) ↦ elim (Option-cases (find_venture v db.ventures)) [
      | inl y ↦ absurd (ground arith)
      | inr (ven, y) ↦ elim (Bool-cases (can_build ven.lifecycle_state op.status (gather v o db))) [
        | inr z ↦ inr (market_choice (market_basis v o db) (ground arith))
        | inl z ↦ inl (
          ground arith,
          record {
            opportunity = op;
            found = x;
            candidate = unfold can_build in ground arith;
            venture = ven;
            venture_found = y;
            not_operating = λ w. unfold can_build in ground arith;
            no_fail = any-none has_fail (gather v o db) p;
            no_contradiction = any-none is_contradictory (gather v o db) r;
            passed = unfold can_build in ground arith;
            settled = unfold can_build in ground arith;
          },
        )
      ]
    ]
  ]

  no_fail_choice :
      decide v o db ≡ ok (c, db')
      → find has_fail (gather v o db) ≡ none
      → (c.action ≢ NextAction.kill) × ((c.action ≡ NextAction.build) → IsBuildable v o db)
  no_fail_choice e p = elim (Option-cases (top_ranked (select is_unresolved (gather v o db)))) [
    | inr (s, q) ↦ elim (unresolved_choice s e p q) [
      | inl a ↦ (λ k. ground arith, λ k. absurd (ground arith))
      | inr a ↦ (λ k. ground arith, λ k. absurd (ground arith))
    ]
    | inl q ↦ elim (Option-cases (find is_contradictory (gather v o db))) [
      | inr (s, r) ↦ elim (contradictory_choice s e p q r) [
        | inl a ↦ (λ k. ground arith, λ k. absurd (ground arith))
        | inr a ↦ (λ k. ground arith, λ k. absurd (ground arith))
      ]
      | inl r ↦ elim (settled_choice e p q r) [
        | inl a ↦ (λ k. ground arith, λ k. a.1)
        | inr (inl a) ↦ (λ k. ground arith, λ k. absurd (ground arith))
        | inr (inr a) ↦ (λ k. ground arith, λ k. absurd (ground arith))
      ]
    ]
  ]

-- A choice is KILL just when some assumption of the opportunity has a FAIL result.
pub decide-kill_iff :
    (v o : ℕ) (db db' : Db) (c : Choice)
    → decide v o db ≡ ok (c, db')
    → (c.action ≡ NextAction.kill) ↔ (any has_fail (gather v o db) ≡ true)
unfolding decide
decide-kill_iff v o db db' c e = elim (Option-cases (find has_fail (gather v o db))) [
  | inr (s, p) ↦ (λ _. any-find has_fail (gather v o db) s p, λ _. ground arith)
  | inl p ↦ (
    λ k. absurd ((no_fail_choice v o db db' c e p).0 k),
    λ k. absurd (ground (arith, any-none has_fail (gather v o db))),
  )
]

-- A choice of BUILD has a CANDIDATE opportunity of a venture that is not OPERATING. None of its
-- assumptions has a FAIL, or a PASS beside an INCONCLUSIVE; one has a PASS; and each that is CRITICAL or
-- HIGH is resolved.
pub decide-IsBuildable :
    (v o : ℕ) (db db' : Db) (c : Choice)
    → decide v o db ≡ ok (c, db')
    → c.action ≡ NextAction.build
    → IsBuildable v o db
unfolding decide
decide-IsBuildable v o db db' c e k = elim (Option-cases (find has_fail (gather v o db))) [
  | inr (s, p) ↦ absurd (ground arith)
  | inl p ↦ (no_fail_choice v o db db' c e p).1 k
]
