-- ===== src/Budget/Ledger/Sums.antt =====
-- What a list of ledger entries adds up to, and how an insertion changes it.
use aidan_venture_os.Base.{
  ℕ, ◌+◌, ◌≡◌, refl, Bool, true, false, Option, none, some, List, [], ◌∷◌, ◌&&◌, ◌||◌, not, ◌==◌,
  is_id, find, any, arith, if◌then◌else◌,
}
use mathlib.Core.Path.{fun_ext}
use aidan_venture_os.Db.Rows.{CapitalEntry, EntryType}
use aidan_venture_os.Budget.{is_kind, is_entry_of, entry_of, clashes}

-- the entries of kind `k` posted to account `i`
unfoldable pub posted : EntryType → ℕ → List CapitalEntry → ℕ
posted k i [] = 0
posted k i (e ∷ es) =
    let rest = posted k i es in
    if is_kind k e.kind && e.account_id == i then e.amount + rest else rest

-- an entry that ends the reservation of action `a`
abbrev pub ends : ℕ → CapitalEntry → Bool
ends a e = is_entry_of a EntryType.release e || is_entry_of a EntryType.commit e

-- the reservation of an action has been released or committed
unfoldable pub is_closed : List CapitalEntry → Option ℕ → Bool
is_closed es none = false
is_closed es (some a) = any (ends a) es

-- the RESERVE entries of account `i` whose actions are not closed
unfoldable pub held_by : (Option ℕ → Bool) → ℕ → List CapitalEntry → ℕ
held_by closed i [] = 0
held_by closed i (e ∷ es) =
    let rest = held_by closed i es in
    if is_kind EntryType.reserve e.kind && e.account_id == i && not (closed e.action_id)
    then e.amount + rest
    else rest

-- the open reservations of account `i`
unfoldable pub held : ℕ → List CapitalEntry → ℕ
held i es = held_by (is_closed es) i es

-- one RESERVE, one RELEASE and one COMMIT for an action at most
abbrev pub IsDistinct : List CapitalEntry → Type 0
IsDistinct [] = Unit
IsDistinct (e ∷ es) = (clashes e es ≡ false) × IsDistinct es

-- `closed` once action `a` is closed too
abbrev pub also : ℕ → (Option ℕ → Bool) → Option ℕ → Bool
also a closed o = is_id o a || closed o

-- no RESERVE of `a` is there
held_by-also_absent :
    (a i : ℕ) (closed : Option ℕ → Bool) (es : List CapitalEntry)
    → entry_of a EntryType.reserve es ≡ none
    → held_by (also a closed) i es ≡ held_by closed i es
unfolding held_by entry_of find
held_by-also_absent a i closed [] h = refl
held_by-also_absent a i closed (e ∷ es) h = ground (arith, held_by-also_absent a i closed es)

-- closing an action takes its one reservation out of its account, and nothing out of the others
pub held_by-also :
    (a i : ℕ) (closed : Option ℕ → Bool) (r : CapitalEntry) (es : List CapitalEntry)
    → IsDistinct es
    → closed (some a) ≡ false
    → entry_of a EntryType.reserve es ≡ some r
    → held_by (also a closed) i es + (if r.account_id == i then r.amount else 0)
      ≡ held_by closed i es
unfolding held_by entry_of find clashes
held_by-also a i closed r [] d c h = cc
held_by-also a i closed r (e ∷ es) d c h =
    ground (arith, held_by-also a i closed r es d.1 c, held_by-also_absent a i closed es)

-- a closing entry of `a` closes `a` and nothing else
pub is_closed-ends :
    (a : ℕ) (e : CapitalEntry) (es : List CapitalEntry) (o : Option ℕ)
    → e.action_id ≡ some a
    → ends a e ≡ true
    → is_closed (e ∷ es) o ≡ also a (is_closed es) o
unfolding is_closed any
is_closed-ends a e es none h k = refl
is_closed-ends a e es (some b) h k = ground arith

-- an entry that closes nothing
pub is_closed-other :
    (e : CapitalEntry) (es : List CapitalEntry) (o : Option ℕ)
    → is_kind EntryType.release e.kind ≡ false
    → is_kind EntryType.commit e.kind ≡ false
    → is_closed (e ∷ es) o ≡ is_closed es o
unfolding is_closed any
is_closed-other e es none h k = refl
is_closed-other e es (some b) h k = ground arith

-- an entry that closes nothing adds to its account if it is an open RESERVE
pub held-other :
    (i : ℕ) (e : CapitalEntry) (es : List CapitalEntry)
    → is_kind EntryType.release e.kind ≡ false
    → is_kind EntryType.commit e.kind ≡ false
    → held i (e ∷ es) ≡ (
        if is_kind EntryType.reserve e.kind && e.account_id == i && not (is_closed es e.action_id)
        then e.amount + held i es
        else held i es)
unfolding held
held-other i e es h k = rw (fun_ext (λ o. is_closed-other e es o h k)) (unfold held_by in refl)

-- a closing entry
held-ends :
    (a i : ℕ) (e : CapitalEntry) (es : List CapitalEntry)
    → e.action_id ≡ some a
    → ends a e ≡ true
    → held i (e ∷ es) ≡ held_by (also a (is_closed es)) i es
unfolding held
held-ends a i e es h k =
    rw (fun_ext (λ o. is_closed-ends a e es o h k)) (unfold held_by in ground arith)

-- a closing entry of an open action takes its reservation out
pub held-close :
    (a i : ℕ) (e r : CapitalEntry) (es : List CapitalEntry)
    → e.action_id ≡ some a
    → ends a e ≡ true
    → IsDistinct es
    → is_closed es (some a) ≡ false
    → entry_of a EntryType.reserve es ≡ some r
    → held i (e ∷ es) + (if r.account_id == i then r.amount else 0) ≡ held i es
held-close a i e r es h k d c f =
    rw (held-ends a i e es h k) (unfold held in held_by-also a i (is_closed es) r es d c f)

-- a second closing entry changes nothing
held_by-also_closed :
    (a i : ℕ) (closed : Option ℕ → Bool) (es : List CapitalEntry)
    → closed (some a) ≡ true
    → held_by (also a closed) i es ≡ held_by closed i es
unfolding held_by
held_by-also_closed a i closed [] c = refl
held_by-also_closed a i closed (e ∷ es) c = ground (arith, held_by-also_closed a i closed es c)

pub held-close_again :
    (a i : ℕ) (e : CapitalEntry) (es : List CapitalEntry)
    → e.action_id ≡ some a
    → ends a e ≡ true
    → is_closed es (some a) ≡ true
    → held i (e ∷ es) ≡ held i es
held-close_again a i e es h k c =
    rw (held-ends a i e es h k) (unfold held in held_by-also_closed a i (is_closed es) es c)

-- an action with neither a RELEASE nor a COMMIT entry is open
pub is_closed-none :
    (a : ℕ) (es : List CapitalEntry)
    → entry_of a EntryType.release es ≡ none
    → entry_of a EntryType.commit es ≡ none
    → is_closed es (some a) ≡ false
unfolding is_closed any entry_of find
is_closed-none a [] p q = refl
is_closed-none a (e ∷ es) p q = ground (arith, is_closed-none a es)

-- an action with a RELEASE entry is closed
pub is_closed-some :
    (a : ℕ) (r : CapitalEntry) (es : List CapitalEntry)
    → entry_of a EntryType.release es ≡ some r
    → is_closed es (some a) ≡ true
unfolding is_closed any entry_of find
is_closed-some a r [] p = cc
is_closed-some a r (e ∷ es) p = ground (arith, is_closed-some a r es)
