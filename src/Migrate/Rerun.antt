-- ===== src/Migrate/Rerun.antt =====
-- A finished run of the migrations has nothing left to do.
use aidan_venture_os.Base.{
  ℕ, ◌≡◌, ◌≢◌, refl, sym, ◌∙◌, ==-self, true, false, Option, none, some, List, [], ◌∷◌, ◌==◌, inl,
  inr, arith, find, Option-cases, Bool-cases, subst, ap,
}
use aidan_venture_os.Json.Text.{Text}
use aidan_venture_os.Json.Canonical.{text_eq}
use aidan_venture_os.Migrate.{
  Applied, Ending, File, Migration, also, apply, apply_all, discover, find_applied, is_version,
}

text_eq_refl : (t : Text) → text_eq t t ≡ true
unfolding text_eq
text_eq_refl [] = refl
text_eq_refl (c ∷ cs) = ground (arith, text_eq_refl cs)

text_eq_sound : (s t : Text) → text_eq s t ≡ true → s ≡ t
unfolding text_eq
text_eq_sound [] [] h = refl
text_eq_sound [] (d ∷ ds) h = absurd (ground arith)
text_eq_sound (c ∷ cs) [] h = absurd (ground arith)
text_eq_sound (c ∷ cs) (d ∷ ds) h = ground (arith, text_eq_sound cs ds)

-- a row that is found stays so
abbrev Extends : List Applied → List Applied → Type 0
Extends rows rows' =
    (v : Text) (r : Applied) → find_applied v rows ≡ some r → find_applied v rows' ≡ some r

abbrev row_of : (Text → ℕ) → Migration → Applied
row_of sha256 m = record { version = m.version; checksum = sha256 m.file.content }

module _ (sha256 : Text → ℕ) (m : Migration) (rows : List Applied) where
  add-Extends : find_applied m.version rows ≡ none → Extends rows (row_of sha256 m ∷ rows)
  unfolding find_applied find
  add-Extends new v r f = elim (Bool-cases (text_eq m.version v)) [
    | inl q ↦
        let gone : find (is_version v) rows ≡ none =
          subst (λ t. find (is_version t) rows ≡ none) (text_eq_sound m.version v q) new in
        absurd (ground arith)
    | inr q ↦ rw q f
  ]

  add_found : find_applied m.version (row_of sha256 m ∷ rows) ≡ some (row_of sha256 m)
  unfolding find_applied find
  add_found = ground (arith, text_eq_refl m.version)

finished_also :
    (v : Text) (vs : List Text) (e : Ending)
    → also v e ≡ Ending.finished vs
    → (ws : List Text) × (e ≡ Ending.finished ws)
unfolding also
finished_also v vs (Ending.finished ws) h = (ws, refl)
finished_also v vs Ending.checksum_error h = absurd (ground arith)
finished_also v vs Ending.migration_error h = absurd (ground arith)
finished_also v vs Ending.value_error h = absurd (ground arith)

finished-checksum : (vs : List Text) → Ending.finished vs ≢ Ending.checksum_error
finished-checksum vs h = ground arith

finished-migration : (vs : List Text) → Ending.finished vs ≢ Ending.migration_error
finished-migration vs h = ground arith

module _ {S : Type 0} (sha256 : Text → ℕ) (execute : Text → S → Option S) where
  -- the loop on one migration: it is there, it has changed, its SQL fails, or it is applied
  module _ (m : Migration) (ms : List Migration) (rows : List Applied) (s : S) where
    step_skip :
        (x : Applied)
        → find_applied m.version rows ≡ some x
        → (x.checksum == sha256 m.file.content) ≡ true
        → apply_all sha256 execute (m ∷ ms) rows s ≡ apply_all sha256 execute ms rows s
    unfolding apply_all
    step_skip x p q = ground arith

    step_changed :
        (x : Applied)
        → find_applied m.version rows ≡ some x
        → (x.checksum == sha256 m.file.content) ≡ false
        → apply_all sha256 execute (m ∷ ms) rows s ≡ (Ending.checksum_error, rows, s)
    unfolding apply_all
    step_changed x p q = ground arith

    step_failed :
        find_applied m.version rows ≡ none
        → execute m.file.content s ≡ none
        → apply_all sha256 execute (m ∷ ms) rows s ≡ (Ending.migration_error, rows, s)
    unfolding apply_all
    step_failed p q = ground arith

    step_applied :
        (s' : S)
        → find_applied m.version rows ≡ none
        → execute m.file.content s ≡ some s'
        → apply_all sha256 execute (m ∷ ms) rows s ≡ (
          also m.version (apply_all sha256 execute ms (row_of sha256 m ∷ rows) s').0,
          (apply_all sha256 execute ms (row_of sha256 m ∷ rows) s').1,
          (apply_all sha256 execute ms (row_of sha256 m ∷ rows) s').2,
        )
    unfolding apply_all
    step_applied s' p q = ground arith

  apply_all-Extends :
      (ms : List Migration) (rows : List Applied) (s : S)
      → Extends rows (apply_all sha256 execute ms rows s).1
  apply_all-Extends [] rows s v r f = unfold apply_all in f
  apply_all-Extends (m ∷ ms) rows s v r f = elim (Option-cases (find_applied m.version rows)) [
    | inr (x, p) ↦ elim (Bool-cases (x.checksum == sha256 m.file.content)) [
      | inl q ↦ rw (step_skip m ms rows s x p q) (apply_all-Extends ms rows s v r f)
      | inr q ↦ rw (step_changed m ms rows s x p q) f
    ]
    | inl p ↦ elim (Option-cases (execute m.file.content s)) [
      | inl q ↦ rw (step_failed m ms rows s p q) f
      | inr (s', q) ↦
          rw (step_applied m ms rows s s' p q) (
            apply_all-Extends ms (row_of sha256 m ∷ rows) s' v r
              (add-Extends sha256 m rows p v r f))
    ]
  ]

  -- where the rows of a finished run are there, the migrations have nothing left to do
  apply_all-again :
      (ms : List Migration) (rows rows' : List Applied) (s s' : S) (vs : List Text)
      → (apply_all sha256 execute ms rows s).0 ≡ Ending.finished vs
      → Extends (apply_all sha256 execute ms rows s).1 rows'
      → apply_all sha256 execute ms rows' s' ≡ (Ending.finished [], rows', s')
  apply_all-again [] rows rows' s s' vs e k = unfold apply_all in refl
  apply_all-again (m ∷ ms) rows rows' s s' vs e k =
      elim (Option-cases (find_applied m.version rows)) [
        | inr (x, p) ↦ elim (Bool-cases (x.checksum == sha256 m.file.content)) [
          | inr q ↦
              let step = step_changed m ms rows s x p q in
              absurd (finished-checksum vs (sym e ∙ ap (λ y. y.0) step))
          | inl q ↦
              let step = step_skip m ms rows s x p q in
              let same = ap (λ y. y.0) step in
              let k' : Extends (apply_all sha256 execute ms rows s).1 rows' =
                subst (λ y. Extends y.1 rows') step k in
              step_skip m ms rows' s' x (k' m.version x (apply_all-Extends ms rows s m.version x p))
                q
              ∙ apply_all-again ms rows rows' s s' vs (sym same ∙ e) k'
        ]
        | inl p ↦ elim (Option-cases (execute m.file.content s)) [
          | inl q ↦
              let step = step_failed m ms rows s p q in
              absurd (finished-migration vs (sym e ∙ ap (λ y. y.0) step))
          | inr (s1, q) ↦
              let step = step_applied m ms rows s s1 p q in
              let here = ap (λ y. y.0) step in
              let k' : Extends (apply_all sha256 execute ms (row_of sha256 m ∷ rows) s1).1 rows' =
                subst (λ y. Extends y.1 rows') step k in
              let (ws, d) =
                finished_also m.version vs
                  (apply_all sha256 execute ms (row_of sha256 m ∷ rows) s1).0 (sym here ∙ e) in
              step_skip m ms rows' s' (row_of sha256 m)
                (k' m.version (row_of sha256 m) (
                  apply_all-Extends ms (row_of sha256 m ∷ rows) s1 m.version (row_of sha256 m)
                    (add_found sha256 m rows)))
                (==-self (sha256 m.file.content))
              ∙ apply_all-again ms (row_of sha256 m ∷ rows) rows' s1 s' ws d k'
        ]
      ]

-- After a run that finished, on any state of the rest of the database, a further run of the same files
-- applies nothing and changes nothing.
pub apply_again :
    {S : Type 0} (sha256 : Text → ℕ) (execute : Text → S → Option S) (files : List File)
    (rows rows' : List Applied) (s s' : S) (vs : List Text)
    → apply sha256 execute files rows s ≡ (Ending.finished vs, rows', s')
    → apply sha256 execute files rows' s' ≡ (Ending.finished [], rows', s')
unfolding apply
apply_again sha256 execute files rows rows' s s' vs e = elim (Option-cases (discover files)) [
  | inl p ↦ absurd (ground arith)
  | inr (ms, p) ↦
      let ran : apply_all sha256 execute ms rows s ≡ (Ending.finished vs, rows', s') =
        ground arith in
      let settled =
        apply_all-again sha256 execute ms rows rows' s s' vs (ap (λ x. x.0) ran)
          (λ v r f. ap (λ x. find_applied v x.1) (sym ran) ∙ f) in
      ground arith
]
