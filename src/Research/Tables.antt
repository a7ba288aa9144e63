-- ===== src/Research/Tables.antt =====
-- Statements that the modules of research share.
use aidan_venture_os.Base.{
  ℕ, String, Bool, true, false, Option, none, some, List, ◌∷◌, ◌==◌, ◌&&◌, any, find, if◌then◌else◌,
}
use aidan_venture_os.Db.Rows.{EvidenceRecord, EvidenceKind, ContentHash}
use aidan_venture_os.Db.Research.{Link, Claim, Interpretation}
use aidan_venture_os.Db.Tx.{
  Db, Tx, Error, pure, gets, modify, require, fresh, record_event, ◌>>=◌, ◌>>◌,
}
use aidan_venture_os.Db.Queries.{◌⇒◌&◌, has_venture_id}
use aidan_venture_os.Json.Dumps.{Fields, obj}
use aidan_venture_os.Validation.{id_text}

abbrev pub is_claim_of : ℕ → ℕ → Claim → Bool
is_claim_of i v r = r.evidence_id == i && r.venture_id == v

abbrev pub is_interpretation_of : ℕ → ℕ → Interpretation → Bool
is_interpretation_of i v r = r.id == i && r.venture_id == v

abbrev pub claim_known : ℕ → ℕ → Db → Bool
claim_known v i db = any (is_claim_of i v) db.research.claims

abbrev pub interpretation_known : ℕ → ℕ → Db → Bool
interpretation_known v i db = any (is_interpretation_of i v) db.research.interpretations

abbrev pub is_pair : ℕ → ℕ → Link → Bool
is_pair l r k = k.left_id == l && k.right_id == r

-- INSERT … ON CONFLICT DO NOTHING into a table of links, and its event; False if the link is there.
-- `known` is the foreign key of the right side.
unfoldable pub insert_link :
    (Db → List Link)
    → (List Link → Db → Db)
    → String
    → String
    → String
    → (ℕ → ℕ → Db → Bool)
    → ℕ
    → ℕ
    → ℕ
    → String
    → Tx Bool
insert_link table set_table left_name right_name event known venture_id left_id right_id actor = do
  linked ← gets (λ db. any (is_pair left_id right_id) (table db))
  if linked then pure false else do
    there ← gets (known venture_id right_id)
    require there Error.integrity_error
    modify (λ db.
        set_table
          ((record { left_id = left_id; right_id = right_id; venture_id = venture_id }) ∷ table db)
          db)
    record_event event actor (some venture_id) none
        (obj (left_name ⇒ id_text left_id & right_name ⇒ id_text right_id & Fields.end))
    pure true

abbrev pub has_evidence_id : ℕ → EvidenceRecord → Bool
has_evidence_id i r = r.id == i

-- the hash of an evidence record, where the kernel has computed it
abbrev pub digest_of : Option EvidenceRecord → Option ℕ
digest_of none = none
digest_of (some r) = elim r.content_hash [
  | ContentHash.digest n ↦ some n
  | ContentHash.given _ ↦ none
]

-- the content hash of the joined evidence record is `n`
unfoldable pub has_digest : ℕ → ℕ → Db → Bool
has_digest i n db = elim (digest_of (find (has_evidence_id i) db.evidence)) [
  | none ↦ false
  | some m ↦ m == n
]

abbrev pub venture_exists : ℕ → Db → Bool
venture_exists v db = any (has_venture_id v) db.ventures

-- INSERT INTO evidence_record (venture_id, kind, content_hash) … RETURNING id
unfoldable pub insert_evidence : ℕ → EvidenceKind → ℕ → Tx ℕ
insert_evidence venture_id kind hash = do
  known ← gets (venture_exists venture_id)
  require known Error.integrity_error
  evidence_id ← fresh
  modify (λ db. record db {
    evidence =
        (record {
          id = evidence_id;
          venture_id = venture_id;
          action_id = none;
          kind = kind;
          source_ref = none;
          content_hash = ContentHash.digest hash;
          payload = obj Fields.end;
        })
        ∷ db.evidence;
  })
  pure evidence_id
