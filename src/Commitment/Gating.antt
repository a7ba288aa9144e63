-- ===== src/Commitment/Gating.antt =====
-- The gate of commitment.py is open only where its conditions stand.
use mathlib.Core.List.{Memᴰ}
use aidan_venture_os.Base.{
  ℕ, ◌≡◌, ◌≢◌, Bool, true, false, Option, some, List, [], ◌∷◌, refl, ap, ◌&&◌, inl, inr, arith, any,
  select, Bool-cases, Option-cases, ==-sound,
}
use aidan_venture_os.Db.Research.{Opportunity}
use aidan_venture_os.Db.Validation.{MeasurementKind, ValidationOutcome, ValidationResult}
use aidan_venture_os.Db.Tx.{Db}
use aidan_venture_os.Validation.{find_test}
use aidan_venture_os.Research.Claims.{claim_state}
use aidan_venture_os.Research.Status.{is_complete-IsAssessed}
use aidan_venture_os.NextAction.Gather.{State, all_states, find_hypothesis, gather, has_outcome}
use aidan_venture_os.Commitment.Gate.{
  has_supported_claim, is_acquisition, is_acquisition_pass, is_cleared, is_supported_link,
  is_wtp_pass, passes_gate, result_of_opportunity, results_of,
}
use aidan_venture_os.Commitment.Conditions.{
  IsAcquisition, IsAcquiredPass, IsPaidPass, IsReadyToBuild, IsResultOf, IsSupported,
}

module _ {A : Type 0} (p q : A → Bool) where
  any-Memᴰ : (xs : List A) → any p xs ≡ true → (x : A) × Memᴰ x xs × (p x ≡ true)
  unfolding any
  any-Memᴰ [] h = absurd (ground arith)
  any-Memᴰ (x ∷ xs) h = elim (Bool-cases (p x)) [
    | inl k ↦ (x, Memᴰ.head refl, k)
    | inr k ↦ let (y, m, l) = any-Memᴰ xs (ground arith) in (y, Memᴰ.tail m, l)
  ]

  any-select :
      (xs : List A) → any q (select p xs) ≡ true → (x : A) × Memᴰ x xs × (p x ≡ true) × (q x ≡ true)
  unfolding any select
  any-select [] h = absurd (ground arith)
  any-select (x ∷ xs) h = elim (Bool-cases (p x && q x)) [
    | inl k ↦ (x, Memᴰ.head refl, ground arith, ground arith)
    | inr k ↦ let (y, m, l, n) = any-select xs (ground arith) in (y, Memᴰ.tail m, l, n)
  ]

  any-select_none :
      (x : A) (xs : List A) → Memᴰ x xs → p x ≡ true → any q (select p xs) ≡ false → q x ≡ false
  unfolding any select
  any-select_none x [] m k h = elim m [ ]
  any-select_none x (y ∷ xs) (Memᴰ.head e) k h = ground (arith, ap p e, ap q e)
  any-select_none x (y ∷ xs) (Memᴰ.tail m) k h = any-select_none x xs m k (ground arith)

all_states-Memᴰ :
    (p : State → Bool) (s : State) (ss : List State)
    → Memᴰ s ss
    → all_states p ss ≡ true
    → p s ≡ true
unfolding all_states
all_states-Memᴰ p s [] m h = elim m [ ]
all_states-Memᴰ p s (t ∷ ss) (Memᴰ.head e) h = ground (arith, ap p e)
all_states-Memᴰ p s (t ∷ ss) (Memᴰ.tail m) h = all_states-Memᴰ p s ss m (ground arith)

has_supported_claim-IsSupported :
    (o : ℕ) (db : Db) → has_supported_claim o db ≡ true → IsSupported o db
unfolding has_supported_claim
has_supported_claim-IsSupported o db h =
    let (k, m, l) =
      any-Memᴰ (is_supported_link o db) (is_supported_link o db) db.research.opportunity_claims h in
    record {
      link = k;
      stored = m;
      linked = ==-sound k.left_id o (ground arith);
      support = unfold claim_state in ground arith;
      unopposed = unfold claim_state in ground arith;
    }

result_of_opportunity-IsResultOf :
    (v o : ℕ) (db : Db) (r : ValidationResult)
    → Memᴰ r db.validation.validation_results
    → result_of_opportunity v o db r ≡ true
    → IsResultOf v o db r
result_of_opportunity-IsResultOf v o db r m e =
    elim (Option-cases (find_test r.test_id db.validation.tests)) [
      | inl p ↦ absurd (ground arith)
      | inr (t, p) ↦
          elim (Option-cases
            (find_hypothesis t.definition.hypothesis_id db.validation.hypotheses)) [
              | inl q ↦ absurd (ground arith)
              | inr (h, q) ↦ record {
                stored = m;
                test = t;
                test_found = p;
                hypothesis = h;
                hypothesis_found = q;
                same_opportunity = ==-sound h.opportunity_id o (ground arith);
                same_venture = ==-sound h.venture_id v (ground arith);
              }
            ]
    ]

IsResultOf-result_of_opportunity :
    (v o : ℕ) (db : Db) (r : ValidationResult)
    → IsResultOf v o db r
    → result_of_opportunity v o db r ≡ true
IsResultOf-result_of_opportunity v o db r k =
    ground (arith, k.test_found, k.hypothesis_found, k.same_opportunity, k.same_venture)

is_acquisition-IsAcquisition :
    (m : Option MeasurementKind)
    → is_acquisition m ≡ true
    → (k : MeasurementKind) × (m ≡ some k) × IsAcquisition k
is_acquisition-IsAcquisition (some MeasurementKind.outreach_response) h =
    (_, refl, IsAcquisition.outreach)
is_acquisition-IsAcquisition (some MeasurementKind.landing_conversion) h =
    (_, refl, IsAcquisition.landing)
is_acquisition-IsAcquisition (some MeasurementKind.acquisition_cost) h =
    (_, refl, IsAcquisition.cost)
is_acquisition-IsAcquisition _ h = absurd (ground arith)

module _ (v o : ℕ) (db : Db) where
  paid_pass : any is_wtp_pass (results_of v o db) ≡ true → IsPaidPass v o db
  unfolding results_of
  paid_pass h =
      let (r, m, p, q) =
        any-select (result_of_opportunity v o db) is_wtp_pass db.validation.validation_results h in
      elim (Option-cases r.wtp_modality) [
        | inl k ↦ absurd (ground arith)
        | inr (w, k) ↦ record {
          result = r;
          is_result = result_of_opportunity-IsResultOf v o db r m p;
          pass = ground arith;
          modality = w;
          has_modality = k;
          applies = λ e. ground arith;
        }
      ]

  acquired_pass : any is_acquisition_pass (results_of v o db) ≡ true → IsAcquiredPass v o db
  unfolding results_of
  acquired_pass h =
      let (r, m, p, q) =
        any-select (result_of_opportunity v o db) is_acquisition_pass
          db.validation.validation_results h in
      let (k, is_kind, acquires) = is_acquisition-IsAcquisition r.measurement_kind (ground arith) in
      record {
        result = r;
        is_result = result_of_opportunity-IsResultOf v o db r m p;
        pass = ground arith;
        kind = k;
        has_kind = is_kind;
        acquires = acquires;
      }

  no_fail_result :
      (r : ValidationResult)
      → any (has_outcome ValidationOutcome.fail) (results_of v o db) ≡ false
      → IsResultOf v o db r
      → r.outcome ≢ ValidationOutcome.fail
  unfolding results_of
  no_fail_result r h k e =
      let other : has_outcome ValidationOutcome.fail r ≡ false =
        any-select_none (result_of_opportunity v o db) (has_outcome ValidationOutcome.fail) r
          db.validation.validation_results k.stored (IsResultOf-result_of_opportunity v o db r k)
          h in
      ground arith

-- the gate is open only where all of it stands
pub passes_gate-IsReadyToBuild :
    (v : ℕ) (o : Opportunity) (db : Db) → passes_gate v o db ≡ true → IsReadyToBuild v o db
unfolding passes_gate
passes_gate-IsReadyToBuild v o db h =
    let cleared : all_states is_cleared (gather v o.id db) ≡ true = ground arith in
    record {
      candidate = ground arith;
      claim = has_supported_claim-IsSupported o.id db (ground arith);
      kill_case = is_complete-IsAssessed o.id db (ground arith);
      critical = λ s m c.
          let here = all_states-Memᴰ is_cleared s (gather v o.id db) m cleared in
          unfold is_cleared in ground arith;
      agreed = λ s m c.
          let here = all_states-Memᴰ is_cleared s (gather v o.id db) m cleared in
          unfold is_cleared in ground arith;
      no_fail = λ r. no_fail_result v o.id db r (ground arith);
      paid = paid_pass v o.id db (ground arith);
      acquired = acquired_pass v o.id db (ground arith);
    }
