-- ===== src/Validation/Outcomes.antt =====
-- What validation.py makes of an observed value, and what the stored results say.
use aidan_venture_os.Base.{
  ℕ, String, ◌≡◌, refl, true, false, some, ◌∷◌, ◌↔◌, ◌⊎◌, inl, inr, arith, find, eq_iff, ap,
  Option-cases,
}
use aidan_venture_os.Db.Validation.{Definition, ValidationOutcome, ValidationResult, ValidationTest}
use aidan_venture_os.Db.Tx.{Db, ok, record_event}
use aidan_venture_os.Json.Text.{Text}
use aidan_venture_os.Json.Dumps.{Value}
use aidan_venture_os.Json.Canonical.{or_empty, canonical_payload_hash}
use aidan_venture_os.Validation.Criteria.{is_met, evaluate_outcome}
use aidan_venture_os.Validation.{
  Recorded, ResultInput, find_result_key, find_test, insert_result, new_result, observed_digest,
  record_result, return_result,
}

-- A value is a FAIL just when it meets the kill criterion, and a PASS just when it meets the success
-- criterion and not the kill criterion.
pub evaluate_outcome_iff :
    (d : Definition) (v : Value)
    → ((evaluate_outcome d v ≡ some ValidationOutcome.fail) ↔ (is_met d.kill v ≡ some true))
      × ((evaluate_outcome d v ≡ some ValidationOutcome.pass)
          ↔ ((is_met d.kill v ≡ some false) × (is_met d.success v ≡ some true)))
unfolding evaluate_outcome
evaluate_outcome_iff d v =
    ((λ h. ground arith, λ h. ground arith), (λ h. ground arith, λ h. ground arith))

module _ (sha256 : Text → ℕ) where
  -- A call that records a result returns the outcome of the named test for the observed value. It
  -- stores at most the one row that it returns, and where it stores none a result with the same key
  -- and the same observed hash was there.
  pub record_result_effect :
      (r : ResultInput) (actor : String) (db db' : Db) (out : Recorded)
      → record_result sha256 r actor db ≡ ok (out, db')
      → (t : ValidationTest) × (find_test r.test_id db.validation.tests ≡ some t)
        × (evaluate_outcome t.definition (or_empty r.observed_value) ≡ some out.outcome)
        × (((db' ≡ db)
              × (x : ValidationResult) × (find_result_key t.venture_id r.result_key
                    db.validation.validation_results
                  ≡ some x)
              × (x.id ≡ out.result_id)
              × (x.observed_hash ≡ observed_digest sha256 r))
            ⊎ ((x : ValidationResult) × (db'.validation.validation_results
                  ≡ (x ∷ db.validation.validation_results))
                × (x.id ≡ out.result_id)
                × (x.test_id ≡ r.test_id)
                × (x.outcome ≡ out.outcome)))
  unfolding record_result insert_result return_result record_event
  record_result_effect r actor db db' out e =
      elim (Option-cases (find_test r.test_id db.validation.tests)) [
        | inl p ↦ absurd (ground arith)
        | inr (t, p) ↦
            elim (Option-cases (evaluate_outcome t.definition (or_empty r.observed_value))) [
              | inl q ↦ absurd (ground arith)
              | inr (o, q) ↦
                  elim (Option-cases
                    (find_result_key t.venture_id r.result_key db.validation.validation_results)) [
                      | inr (x, k) ↦
                          (t, p, ground arith, inl (ground arith, x, k, ground arith, ground arith))
                      | inl k ↦ (
                        t,
                        p,
                        ground arith,
                        inr (
                          new_result sha256 t r o db.next_id,
                          ground arith,
                          ground arith,
                          refl,
                          ground arith,
                        ),
                      )
                    ]
            ]
      ]

  module _ (r r' : ResultInput) (t t' : ValidationTest) (actor actor' : String)
      (o' : ValidationOutcome) (db db' : Db) (out : Recorded) where
    -- After a result of a test was recorded, a call with the same key and the same observed value that
    -- names another test of the venture returns the identifier of that result, with the outcome of the
    -- other test, whatever outcome is stored. It leaves the database as it is.
    pub record_result_other_test :
        record_result sha256 r actor db ≡ ok (out, db')
        → find_test r.test_id db.validation.tests ≡ some t
        → find_test r'.test_id db.validation.tests ≡ some t'
        → t'.venture_id ≡ t.venture_id
        → r'.result_key ≡ r.result_key
        → r'.observed_value ≡ r.observed_value
        → evaluate_outcome t'.definition (or_empty r'.observed_value) ≡ some o'
        → record_result sha256 r' actor' db'
          ≡ ok (record { result_id = out.result_id; outcome = o'; created = false }, db')
    unfolding record_result insert_result return_result record_event
    record_result_other_test e f f' v k w m =
        elim (Option-cases (evaluate_outcome t.definition (or_empty r.observed_value))) [
          | inl q ↦ absurd (ground arith)
          | inr (o, q) ↦
              let tests : db'.validation.tests ≡ db.validation.tests = ground arith in
              let same : observed_digest sha256 r' ≡ observed_digest sha256 r =
                ap (λ x. canonical_payload_hash sha256 (or_empty x)) w in
              elim (Option-cases
                (find_result_key t.venture_id r.result_key db.validation.validation_results)) [
                  | inr (x, p) ↦ ground arith
                  | inl p ↦
                      let added : db'.validation.validation_results ≡ (
                          new_result sha256 t r o db.next_id ∷ db.validation.validation_results) =
                        ground arith in
                      let here : find_result_key t.venture_id r.result_key
                            db'.validation.validation_results
                          ≡ some (new_result sha256 t r o db.next_id) =
                        unfold find_result_key find in
                        ground (arith, eq_iff r.result_key r.result_key) in
                      ground arith
                ]
        ]
