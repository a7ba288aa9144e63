-- ===== src/Validation/History.antt =====
-- However the operations of validation.py follow each other, a stored outcome is that of its test.
use aidan_venture_os.Base.{
  ℕ, ◌+◌, ◌≤◌, ◌<◌, String, ◌≡◌, refl, Bool, none, some, List, [], ◌∷◌, ◌==◌, inl, inr, arith, find,
  update, Option-cases, Bool-cases, ==-sound, subst,
}
use aidan_venture_os.Db.Validation.{ValidationResult, ValidationTest}
use aidan_venture_os.Db.Tx.{Db, ok, record_event}
use aidan_venture_os.Json.Text.{Text}
use aidan_venture_os.Json.Canonical.{or_empty}
use aidan_venture_os.Validation.Criteria.{TestInput, evaluate_outcome}
use aidan_venture_os.Validation.{
  Created, HypothesisInput, Recorded, ResultInput, create_hypothesis, create_test, find_result_key,
  find_test, has_test_id, has_test_key, insert_hypothesis, insert_result, insert_test,
  link_action_request, new_result, new_test, record_result, return_result, set_action,
}

-- the outcome of a row is what its test, as it stands, makes of the observed value
abbrev pub IsRowDerived : List ValidationTest → ValidationResult → Type 0
IsRowDerived tests x =
    (t : ValidationTest) × (find_test x.test_id tests ≡ some t)
    × (evaluate_outcome t.definition x.observed_value ≡ some x.outcome)

abbrev pub AreDerived : List ValidationTest → List ValidationResult → Type 0
AreDerived tests [] = Unit
AreDerived tests (x ∷ xs) = IsRowDerived tests x × AreDerived tests xs

pub record IsDerived (db : Db) : Type 0 where
  pub rows : AreDerived db.validation.tests db.validation.validation_results
  pub unused : (i : ℕ) → db.next_id ≤ i → find_test i db.validation.tests ≡ none

-- a test that is found stays so, with its definition
abbrev Extends : List ValidationTest → List ValidationTest → Type 0
Extends ts us =
    (i : ℕ) (t : ValidationTest)
    → find_test i ts ≡ some t
    → (u : ValidationTest) × (find_test i us ≡ some u) × (u.definition ≡ t.definition)

Extends-AreDerived :
    (ts us : List ValidationTest) (xs : List ValidationResult)
    → Extends ts us
    → AreDerived ts xs
    → AreDerived us xs
Extends-AreDerived ts us [] k h = tt
Extends-AreDerived ts us (x ∷ xs) k h =
    let (t, f, o) = h.0 in
    let (u, g, d) = k x.test_id t f in ((u, g, rw d o), Extends-AreDerived ts us xs k h.1)

-- one operation of validation.py that goes through
pub data Step (sha256 : Text → ℕ) : Db → Db → Type 0 where
  hypothesis_created :
      (v : ℕ) (h : HypothesisInput) (actor : String) (db db' : Db) (c : Created)
      → create_hypothesis sha256 v h actor db ≡ ok (c, db')
      → Step sha256 db db'
  test_created :
      (v : ℕ) (k : String) (t : TestInput) (actor : String) (db db' : Db) (c : Created)
      → create_test sha256 v k t actor db ≡ ok (c, db')
      → Step sha256 db db'
  result_recorded :
      (r : ResultInput) (actor : String) (db db' : Db) (out : Recorded)
      → record_result sha256 r actor db ≡ ok (out, db')
      → Step sha256 db db'
  action_linked :
      (t a : ℕ) (actor : String) (db db' : Db) (b : Bool)
      → link_action_request t a actor db ≡ ok (b, db')
      → Step sha256 db db'

pub data Steps (sha256 : Text → ℕ) : Db → Db → Type 0 where
  done : (db : Db) → Steps sha256 db db
  next : (db db1 db' : Db) → Step sha256 db db1 → Steps sha256 db1 db' → Steps sha256 db db'

add_test :
    (i : ℕ) (t u : ValidationTest) (ts : List ValidationTest)
    → find_test t.id ts ≡ none
    → find_test i ts ≡ some u
    → find_test i (t ∷ ts) ≡ some u
unfolding find_test find
add_test i t u ts fresh f = elim (Bool-cases (t.id == i)) [
  | inl q ↦
      let same : t.id ≡ i = ==-sound t.id i q in
      let gone : find_test i ts ≡ none = subst (λ j. find_test j ts ≡ none) same fresh in
      absurd (ground arith)
  | inr q ↦ rw q f
]

skip_test :
    (i : ℕ) (t : ValidationTest) (ts : List ValidationTest)
    → t.id < i
    → find_test i ts ≡ none
    → find_test i (t ∷ ts) ≡ none
unfolding find_test find
skip_test i t ts l f = ground arith

abbrev with_action : ℕ → ValidationTest → ValidationTest
with_action a t = record t { action_id = some a }

link_test :
    (t i a : ℕ) (u : ValidationTest) (ts : List ValidationTest)
    → find_test i ts ≡ some u
    → (w : ValidationTest) × (find_test i (update (has_test_id t) (with_action a) ts) ≡ some w)
      × (w.definition ≡ u.definition)
unfolding find_test find update
link_test t i a u [] f = absurd (ground arith)
link_test t i a u (x ∷ xs) f = elim (Bool-cases (x.id == t)) [
  | inl q ↦ elim (Bool-cases (x.id == i)) [
    | inl k ↦ (with_action a x, ground arith, ground arith)
    | inr k ↦ (u, ground arith, refl)
  ]
  | inr q ↦ elim (Bool-cases (x.id == i)) [
    | inl k ↦ (x, ground arith, ground arith)
    | inr k ↦ let (w, g, d) = link_test t i a u xs (ground arith) in (w, ground arith, d)
  ]
]

link_none :
    (t i a : ℕ) (ts : List ValidationTest)
    → find_test i ts ≡ none
    → find_test i (update (has_test_id t) (with_action a) ts) ≡ none
unfolding find_test find update
link_none t i a [] f = refl
link_none t i a (x ∷ xs) f = ground (arith, link_none t i a xs)

module _ (db db' : Db) (h : IsDerived db) (later : db.next_id ≤ db'.next_id) where
  keep-IsDerived :
      db'.validation.tests ≡ db.validation.tests
      → db'.validation.validation_results ≡ db.validation.validation_results
      → IsDerived db'
  keep-IsDerived same_tests same_results = record {
    rows = rw same_tests (rw same_results h.rows);
    unused = λ i k. rw same_tests (h.unused i (omega arith));
  }

  add_result-IsDerived :
      (x : ValidationResult)
      → db'.validation.tests ≡ db.validation.tests
      → db'.validation.validation_results ≡ (x ∷ db.validation.validation_results)
      → IsRowDerived db.validation.tests x
      → IsDerived db'
  add_result-IsDerived x same_tests added d = record {
    rows = rw same_tests (rw added (d, h.rows));
    unused = λ i k. rw same_tests (h.unused i (omega arith));
  }

  extend-IsDerived :
      Extends db.validation.tests db'.validation.tests
      → db'.validation.validation_results ≡ db.validation.validation_results
      → ((i : ℕ) → db'.next_id ≤ i → find_test i db'.validation.tests ≡ none)
      → IsDerived db'
  extend-IsDerived k same_results unused = record {
    rows = rw same_results (
        Extends-AreDerived db.validation.tests db'.validation.tests db.validation.validation_results
          k h.rows);
    unused = unused;
  }

module _ (sha256 : Text → ℕ) where
  create_hypothesis-IsDerived :
      (v : ℕ) (h : HypothesisInput) (actor : String) (db db' : Db) (c : Created)
      → create_hypothesis sha256 v h actor db ≡ ok (c, db')
      → IsDerived db
      → IsDerived db'
  unfolding create_hypothesis insert_hypothesis record_event
  create_hypothesis-IsDerived v h actor db db' c e d =
      keep-IsDerived db db' d (ground arith) (ground arith) (ground arith)

  record_result-IsDerived :
      (r : ResultInput) (actor : String) (db db' : Db) (out : Recorded)
      → record_result sha256 r actor db ≡ ok (out, db')
      → IsDerived db
      → IsDerived db'
  unfolding record_result insert_result return_result record_event
  record_result-IsDerived r actor db db' out e d =
      elim (Option-cases (find_test r.test_id db.validation.tests)) [
        | inl p ↦ absurd (ground arith)
        | inr (t, p) ↦
            elim (Option-cases (evaluate_outcome t.definition (or_empty r.observed_value))) [
              | inl q ↦ absurd (ground arith)
              | inr (o, q) ↦
                  elim (Option-cases
                    (find_result_key t.venture_id r.result_key db.validation.validation_results)) [
                      | inr (x, k) ↦
                          keep-IsDerived db db' d (ground arith) (ground arith) (ground arith)
                      | inl k ↦
                          add_result-IsDerived db db' d (ground arith)
                            (new_result sha256 t r o db.next_id) (ground arith) (ground arith)
                            (t, p, q)
                    ]
            ]
      ]

  create_test-IsDerived :
      (v : ℕ) (k : String) (t : TestInput) (actor : String) (db db' : Db) (c : Created)
      → create_test sha256 v k t actor db ≡ ok (c, db')
      → IsDerived db
      → IsDerived db'
  unfolding create_test insert_test record_event
  create_test-IsDerived v k t actor db db' c e d =
      elim (Option-cases (find (has_test_key v k) db.validation.tests)) [
        | inr (x, p) ↦ keep-IsDerived db db' d (ground arith) (ground arith) (ground arith)
        | inl p ↦
            let added : db'.validation.tests
                ≡ (new_test sha256 v k t db.next_id ∷ db.validation.tests) =
              ground arith in
            let grown : db'.next_id ≡ db.next_id + 2 = ground arith in
            extend-IsDerived db db' d (omega arith)
              (rw added (λ i u f. (
                u,
                add_test i (new_test sha256 v k t db.next_id) u db.validation.tests
                    (d.unused db.next_id (omega arith)) f,
                refl,
              )))
              (ground arith)
              (λ i m. rw added (
                skip_test i (new_test sha256 v k t db.next_id) db.validation.tests (omega arith)
                  (d.unused i (omega arith))))
      ]

  link_action_request-IsDerived :
      (t a : ℕ) (actor : String) (db db' : Db) (b : Bool)
      → link_action_request t a actor db ≡ ok (b, db')
      → IsDerived db
      → IsDerived db'
  unfolding link_action_request set_action record_event
  link_action_request-IsDerived t a actor db db' b e d =
      elim (Option-cases (find_test t db.validation.tests)) [
        | inl p ↦ absurd (ground arith)
        | inr (x, p) ↦ elim (Option-cases x.action_id) [
          | inr (y, q) ↦ keep-IsDerived db db' d (ground arith) (ground arith) (ground arith)
          | inl q ↦
              let linked : db'.validation.tests
                  ≡ update (has_test_id t) (with_action a) db.validation.tests =
                ground arith in
              let later : db.next_id ≤ db'.next_id = ground arith in
              extend-IsDerived db db' d later
                (rw linked (λ i u f. link_test t i a u db.validation.tests f)) (ground arith)
                (λ i m. rw linked (link_none t i a db.validation.tests (d.unused i (omega arith))))
        ]
      ]

  Step-IsDerived : (db db' : Db) → Step sha256 db db' → IsDerived db → IsDerived db'
  Step-IsDerived _ _ (Step.hypothesis_created v h actor db db' c e) d =
      create_hypothesis-IsDerived v h actor db db' c e d
  Step-IsDerived _ _ (Step.test_created v k t actor db db' c e) d =
      create_test-IsDerived v k t actor db db' c e d
  Step-IsDerived _ _ (Step.result_recorded r actor db db' out e) d =
      record_result-IsDerived r actor db db' out e d
  Step-IsDerived _ _ (Step.action_linked t a actor db db' b e) d =
      link_action_request-IsDerived t a actor db db' b e d

  -- Whatever operations of validation go through, in any order, every stored result refers to a stored
  -- test, and its outcome is what the criteria of that test make of its observed value, where this was
  -- so before them.
  pub Steps-IsDerived : (db db' : Db) → Steps sha256 db db' → IsDerived db → IsDerived db'
  Steps-IsDerived _ _ (Steps.done db) d = d
  Steps-IsDerived _ _ (Steps.next db db1 db' s ss) d =
      Steps-IsDerived db1 db' ss (Step-IsDerived db db1 s d)
