-- ===== src/Research/Evidence.antt =====
-- research/sources.py and research/observations.py: source receipts, their freshness, and the
-- observations drawn from them.
use aidan_venture_os.Base.{
  ℕ, ◌+◌, String, Bool, true, false, Option, none, some, ◌∷◌, ◌==◌, ◌&&◌, not, ◌||◌, is_some, leb,
  str_eq, find, any, if◌then◌else◌,
}
use aidan_venture_os.Db.Rows.{EvidenceKind, EvidenceRecord}
use aidan_venture_os.Db.Research.{SourceReceipt, Observation}
use aidan_venture_os.Db.Tx.{Db, Tx, Error, pure, gets, modify, require, record_event, ◌>>=◌, ◌>>◌}
use aidan_venture_os.Db.Queries.{text, ◌⇒◌&◌}
use aidan_venture_os.Json.Text.{Text, codes, is_blank}
use aidan_venture_os.Json.Dumps.{Value, Fields, obj}
use aidan_venture_os.Json.Canonical.{canonical_payload_hash}
use aidan_venture_os.Validation.{Created, replay, id_text}
use aidan_venture_os.Research.Tables.{has_digest, has_evidence_id, insert_evidence}

-- research/adapters.py, `AcquiredSource`
pub record AcquiredSource : Type 0 where
  pub locator : String
  pub source_type : String
  pub content : String
  pub retrieved_at : ℕ
  pub retrieved_by : String
  pub acquisition_key : String
  pub published_at : Option ℕ
  pub publication_time_known : Bool
  pub excerpt : Option String
  pub snapshot_ref : Option String
  pub reliability_code : Option String
  pub metadata : Value

-- `SOURCE_TYPES`
abbrev is_source_type : String → Bool
is_source_type s =
    str_eq s "WEB_PAGE"
    || (str_eq s "DOCUMENT"
        || (str_eq s "DATASET" || (str_eq s "API_RESPONSE" || str_eq s "OTHER")))

-- None, or one of `RELIABILITY_CODES`
abbrev is_reliability_code : Option String → Bool
is_reliability_code none = true
is_reliability_code (some s) =
    str_eq s "PRIMARY"
    || (str_eq s "SECONDARY"
        || (str_eq s "AUTHORITATIVE"
            || (str_eq s "ANECDOTAL"
                || (str_eq s "DIRECT_MEASUREMENT"
                    || (str_eq s "COMMENTARY" || str_eq s "UNKNOWN")))))

-- the checks of `__post_init__`; that metadata is an object and that times are times is typed
unfoldable pub is_acquirable : AcquiredSource → Bool
is_acquirable a =
    not (is_blank a.locator)
    && (is_source_type a.source_type
        && (not (str_eq a.content "")
            && (not (is_blank a.retrieved_by)
                && (not (is_blank a.acquisition_key)
                    && (is_reliability_code a.reliability_code
                        && (not a.publication_time_known || is_some a.published_at))))))

-- the construction of an AcquiredSource
unfoldable pub acquire : AcquiredSource → Tx AcquiredSource
acquire a = do require (is_acquirable a) Error.invalid_acquisition; pure a

abbrev has_acquisition_key : ℕ → String → SourceReceipt → Bool
has_acquisition_key v k r = r.venture_id == v && str_eq r.acquisition_key k

abbrev has_source_id : ℕ → SourceReceipt → Bool
has_source_id i r = r.evidence_id == i

-- the record of the evidence beside the row of its kind
abbrev with_envelope {ℓ} :
    {A : Type ℓ} → Option A → Option EvidenceRecord → Option (A × EvidenceRecord)
with_envelope (some a) (some e) = some (a, e)
with_envelope _ _ = none

unfoldable pub get_source_receipt : ℕ → Db → Option (SourceReceipt × EvidenceRecord)
get_source_receipt i db =
    with_envelope (find (has_source_id i) db.research.sources)
      (find (has_evidence_id i) db.evidence)

abbrev has_observation_id : ℕ → Observation → Bool
has_observation_id i r = r.evidence_id == i

unfoldable pub get_observation : ℕ → Db → Option (Observation × EvidenceRecord)
get_observation i db =
    with_envelope (find (has_observation_id i) db.research.observations)
      (find (has_evidence_id i) db.evidence)

abbrev is_source_of : ℕ → ℕ → SourceReceipt → Bool
is_source_of i v r = r.evidence_id == i && r.venture_id == v

abbrev has_observation_key : ℕ → String → Observation → Bool
has_observation_key v k r = r.venture_id == v && str_eq r.observation_key k

pub data Freshness : Type 0 where
  current stale uncertain_freshness : Freshness

-- `evaluate_freshness`: `as_of - published_at <= max_age`, for times and an age in microseconds
unfoldable pub evaluate_freshness : Option ℕ → Bool → ℕ → ℕ → Freshness
evaluate_freshness none known as_of max_age = Freshness.uncertain_freshness
evaluate_freshness (some t) false as_of max_age = Freshness.uncertain_freshness
evaluate_freshness (some t) true as_of max_age =
    if leb as_of (t + max_age) then Freshness.current else Freshness.stale

-- the parameters of `create_observation`
pub record ObservationInput : Type 0 where
  pub source_evidence_id : ℕ
  pub statement : String
  pub observation_key : String
  pub source_locator : Option String
  pub excerpt : Option String

abbrev or_empty_text : Option String → Value
or_empty_text none = text ""
or_empty_text (some s) = text s

module _ (sha256 : Text → ℕ) where
  -- `content_hash`
  abbrev content_hash : String → ℕ
  content_hash content = sha256 (codes content)

  unfoldable pub insert_source : ℕ → AcquiredSource → String → Tx Created
  insert_source venture_id a actor = do
    evidence_id ← insert_evidence venture_id EvidenceKind.source (content_hash a.content)
    modify (λ db. record db {
      research = record db.research {
        sources =
            (record {
              evidence_id = evidence_id;
              venture_id = venture_id;
              locator = a.locator;
              source_type = a.source_type;
              retrieved_at = a.retrieved_at;
              retrieved_by = a.retrieved_by;
              acquisition_key = a.acquisition_key;
              published_at = a.published_at;
              publication_time_known = a.publication_time_known;
              excerpt = a.excerpt;
              snapshot_ref = a.snapshot_ref;
              reliability_code = a.reliability_code;
              metadata = a.metadata;
            })
            ∷ db.research.sources;
      };
    })
    record_event "evidence.source_ingested" actor (some venture_id) none (
        obj (
          "evidence_record_id"
          ⇒ id_text evidence_id & "locator"
          ⇒ text a.locator & "retrieved_by"
          ⇒ text a.retrieved_by & "acquisition_key"
          ⇒ text a.acquisition_key & Fields.end))
    pure (record { id = evidence_id; created = true })

  unfoldable pub ingest : ℕ → AcquiredSource → String → Tx Created
  ingest venture_id a actor = do
    row ← gets (λ db. find (has_acquisition_key venture_id a.acquisition_key) db.research.sources)
    elim row [
      | none ↦ insert_source venture_id a actor
      | some r ↦ do
        same ← gets (has_digest r.evidence_id (content_hash a.content))
        replay r.evidence_id same
    ]

  -- `_observation_hash`
  abbrev observation_hash : ObservationInput → ℕ
  observation_hash o = canonical_payload_hash sha256 (
      obj (
        "statement"
        ⇒ text o.statement & "source"
        ⇒ id_text o.source_evidence_id & "locator"
        ⇒ or_empty_text o.source_locator & Fields.end))

  unfoldable pub insert_observation : ℕ → ObservationInput → String → Tx Created
  insert_observation venture_id o actor = do
    evidence_id ← insert_evidence venture_id EvidenceKind.observation (observation_hash o)
    modify (λ db. record db {
      research = record db.research {
        observations =
            (record {
              evidence_id = evidence_id;
              venture_id = venture_id;
              source_evidence_id = o.source_evidence_id;
              source_locator = o.source_locator;
              statement = o.statement;
              excerpt = o.excerpt;
              observation_key = o.observation_key;
            })
            ∷ db.research.observations;
      };
    })
    record_event "evidence.observation_created" actor (some venture_id) none (
        obj (
          "evidence_record_id"
          ⇒ id_text evidence_id & "source_evidence_id"
          ⇒ id_text o.source_evidence_id & Fields.end))
    pure (record { id = evidence_id; created = true })

  unfoldable pub create_observation : ℕ → ObservationInput → String → Tx Created
  create_observation venture_id o actor = do
    require (not (str_eq o.statement "")) Error.value_error
    require (not (str_eq o.observation_key "")) Error.value_error
    known ← gets (λ db. any (is_source_of o.source_evidence_id venture_id) db.research.sources)
    require known Error.not_found
    row ←
        gets
          (λ db. find (has_observation_key venture_id o.observation_key) db.research.observations)
    elim row [
      | none ↦ insert_observation venture_id o actor
      | some r ↦ do
        same ← gets (has_digest r.evidence_id (observation_hash o))
        replay r.evidence_id same
    ]
