-- ===== src/Research/Moves.antt =====
-- However the operations on the status of opportunities follow each other.
use aidan_venture_os.Base.{
  ℕ, String, ◌≡◌, refl, Bool, true, some, ◌==◌, inl, inr, arith, Option-cases, Bool-cases, ==-sound,
  subst,
}
use aidan_venture_os.Db.Research.{Opportunity, OpportunityStatus}
use aidan_venture_os.Db.Tx.{Db, ok, record_event}
use aidan_venture_os.Research.KillCases.{find_opportunity}
use aidan_venture_os.Research.Opportunities.{
  change_status, finalize_candidate, is_draft, is_open, kill, mark_insufficient_evidence,
  same_state,
}
use aidan_venture_os.Research.Status.{find_opportunity-update, map_opportunity}

-- DRAFT to any status, CANDIDATE to KILLED, and no other change
unfoldable pub may_become : OpportunityStatus → OpportunityStatus → Bool
may_become OpportunityStatus.draft t = true
may_become OpportunityStatus.candidate OpportunityStatus.killed = true
may_become s t = same_state s t

may_become_refl : (s : OpportunityStatus) → may_become s s ≡ true
unfolding may_become
may_become_refl OpportunityStatus.draft = refl
may_become_refl OpportunityStatus.insufficient_evidence = refl
may_become_refl OpportunityStatus.candidate = refl
may_become_refl OpportunityStatus.killed = refl

may_become_trans :
    (s t u : OpportunityStatus)
    → may_become s t ≡ true
    → may_become t u ≡ true
    → may_become s u ≡ true
unfolding may_become
may_become_trans s t u h k = ground arith

pub data Step (db db' : Db) : Type 0 where
  finalized :
      (i : ℕ) (actor : String) (s : OpportunityStatus)
      → finalize_candidate i actor db ≡ ok (s, db')
      → Step db db'
  marked :
      (i : ℕ) (reason actor : String) (s : OpportunityStatus)
      → mark_insufficient_evidence i reason actor db ≡ ok (s, db')
      → Step db db'
  killed :
      (i : ℕ) (reason actor : String) (s : OpportunityStatus)
      → kill i reason actor db ≡ ok (s, db')
      → Step db db'

pub data Steps : Db → Db → Type 0 where
  stop : {db : Db} → Steps db db
  next : {db mid db' : Db} → Step db mid → Steps mid db' → Steps db db'

-- the opportunity is there, with a status that `s` may become
abbrev pub Follows : ℕ → OpportunityStatus → Db → Type 0
Follows j s db =
    (o : Opportunity) × (find_opportunity j db.research.opportunities ≡ some o)
    × (may_become s o.status ≡ true)

module _ (j : ℕ) (db db' : Db) (o : Opportunity)
    (f : find_opportunity j db.research.opportunities ≡ some o) where
  change_status-Follows :
      (i : ℕ) (t s : OpportunityStatus) (reason event actor : String)
      (from : OpportunityStatus → Bool)
      → ((u : OpportunityStatus) → from u ≡ true → may_become u t ≡ true)
      → change_status i t reason event actor from db ≡ ok (s, db')
      → Follows j o.status db'
  unfolding change_status record_event map_opportunity
  change_status-Follows i t s reason event actor from allowed e =
      elim (Option-cases (find_opportunity i db.research.opportunities)) [
        | inl p ↦ absurd (ground arith)
        | inr (w, p) ↦ elim (Bool-cases (same_state w.status t)) [
          | inl q ↦ (o, ground arith, may_become_refl o.status)
          | inr q ↦
              let g : Opportunity → Opportunity =
                λ r. record r { status = t; status_reason = some reason } in
              let written = find_opportunity-update i j g db.research.opportunities (λ r. refl) in
              elim (Bool-cases (i == j)) [
                | inl m ↦
                    let same : i ≡ j = ==-sound i j m in
                    let left : from w.status ≡ true = ground arith in
                    let from_o : find_opportunity j db.research.opportunities ≡ some w =
                      subst (λ n. find_opportunity n db.research.opportunities ≡ some w) same p in
                    (g o, ground (arith, written), ground (arith, allowed w.status left))
                | inr m ↦ (o, ground (arith, written), may_become_refl o.status)
              ]
        ]
      ]

  finalize_candidate-Follows :
      (i : ℕ) (s : OpportunityStatus) (actor : String)
      → finalize_candidate i actor db ≡ ok (s, db')
      → Follows j o.status db'
  unfolding finalize_candidate record_event map_opportunity
  finalize_candidate-Follows i s actor e =
      elim (Option-cases (find_opportunity i db.research.opportunities)) [
        | inl p ↦ absurd (ground arith)
        | inr (w, p) ↦ elim (Bool-cases (same_state w.status OpportunityStatus.candidate)) [
          | inl q ↦ (o, ground arith, may_become_refl o.status)
          | inr q ↦
              let g : Opportunity → Opportunity =
                λ r. record r { status = OpportunityStatus.candidate } in
              let written = find_opportunity-update i j g db.research.opportunities (λ r. refl) in
              elim (Bool-cases (i == j)) [
                | inl m ↦
                    let same : i ≡ j = ==-sound i j m in
                    let from_o : find_opportunity j db.research.opportunities ≡ some w =
                      subst (λ n. find_opportunity n db.research.opportunities ≡ some w) same p in
                    (g o, ground (arith, written), unfold may_become in ground arith)
                | inr m ↦ (o, ground (arith, written), may_become_refl o.status)
              ]
        ]
      ]

  Step-Follows : Step db db' → Follows j o.status db'
  Step-Follows (Step.finalized i actor s e) = finalize_candidate-Follows i s actor e
  Step-Follows (Step.marked i reason actor s e) =
      unfold mark_insufficient_evidence in
      change_status-Follows i OpportunityStatus.insufficient_evidence s reason
        "research.opportunity_insufficient_evidence" actor is_draft
        (λ u k. unfold may_become in ground arith) e
  Step-Follows (Step.killed i reason actor s e) =
      unfold kill in
      change_status-Follows i OpportunityStatus.killed s reason "research.opportunity_killed" actor
        is_open (λ u k. unfold may_become in ground arith) e

-- Whatever candidates are finalized, and whatever opportunities are marked or killed, in any order: an
-- opportunity stays, a CANDIDATE can only become KILLED, and INSUFFICIENT_EVIDENCE and KILLED are final.
pub Steps-Follows :
    (j : ℕ) {db db' : Db} (o : Opportunity)
    → Steps db db'
    → find_opportunity j db.research.opportunities ≡ some o
    → Follows j o.status db'
Steps-Follows j o Steps.stop f = (o, f, may_become_refl o.status)
Steps-Follows j o (Steps.next {db} {mid} {db'} s ss) f =
    let (p, g, m) = Step-Follows j db mid o f s in
    let (q, k, n) = Steps-Follows j p ss g in
    (q, k, may_become_trans o.status p.status q.status m n)
