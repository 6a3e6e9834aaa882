-- ===== src/Journal/Chain.antt =====
-- The events of src/spy_der/contracts/events.py, as their constructor leaves them (with both
-- timestamps), and the hash chain of src/spy_der/journal/hash_chain.py. A payload is its canonical
-- JSON text, an instant one of microseconds.
use spy_der.Prelude.{
  ℕ, suc, String, Bool, true, false, ◌&&◌, ◌||◌, Option, none, some, List, [], ◌∷◌, if◌then◌else◌,
  eqb,
}
use spy_der.Prelude.Text.{str_eq, is_blank}

pub record JournalEvent : Type 0 where
  pub event_id : String
  pub event_type : String
  pub aggregate_type : String
  pub aggregate_id : String
  pub sequence_number : ℕ
  pub occurred_at : ℕ
  pub recorded_at : ℕ
  pub schema_version : String
  pub payload_json : String
  pub payload_hash : String
  pub previous_event_hash : Option String
  pub event_hash : String
  pub deployment_id : String
  pub snapshot_id : Option String
  pub correlation_id : String
  pub causation_id : Option String

-- The dictionary that `event_content_hash` hashes.
pub record Content : Type 0 where
  pub event_id : String
  pub event_type : String
  pub aggregate_type : String
  pub aggregate_id : String
  pub sequence_number : ℕ
  pub occurred_at : ℕ
  pub recorded_at : ℕ
  pub schema_version : String
  pub payload_hash : String
  pub previous_event_hash : Option String
  pub deployment_id : String
  pub snapshot_id : Option String
  pub correlation_id : String
  pub causation_id : Option String

abbrev pub content_of : JournalEvent → Content
content_of e = record {
  event_id = e.event_id;
  event_type = e.event_type;
  aggregate_type = e.aggregate_type;
  aggregate_id = e.aggregate_id;
  sequence_number = e.sequence_number;
  occurred_at = e.occurred_at;
  recorded_at = e.recorded_at;
  schema_version = e.schema_version;
  payload_hash = e.payload_hash;
  previous_event_hash = e.previous_event_hash;
  deployment_id = e.deployment_id;
  snapshot_id = e.snapshot_id;
  correlation_id = e.correlation_id;
  causation_id = e.causation_id;
}

-- `content_hash`, of an event's content and of what an event without an id is named by.
pub record Hashes : Type 0 where
  pub content_hash : Content → String
  pub event_key : ℕ → String → String → ℕ → String

abbrev pub hash_eq : Option String → Option String → Bool
hash_eq none none = true
hash_eq none (some s) = false
hash_eq (some s) none = false
hash_eq (some s) (some t) = str_eq s t

module _ (hashes : Hashes) where
  unfoldable pub compute_event_hash : JournalEvent → String
  compute_event_hash e = hashes.content_hash (content_of e)

  -- The tests that `verify_chain` makes of one event.
  unfoldable pub fits : Option String → ℕ → JournalEvent → Bool
  fits prev_hash expected_seq e =
      eqb e.sequence_number expected_seq
      && (hash_eq e.previous_event_hash prev_hash
          && (is_blank e.event_hash || str_eq e.event_hash (compute_event_hash e)))

  -- The loop of `verify_chain`.
  unfoldable pub verify_from : Option String → ℕ → List JournalEvent → Bool
  unfolding fits
  verify_from prev_hash expected_seq [] = true
  verify_from prev_hash expected_seq (e ∷ es) =
      let rest = verify_from (some (compute_event_hash e)) (suc expected_seq) es in
      if fits prev_hash expected_seq e then rest else false

  unfoldable pub verify_chain : List JournalEvent → Bool
  unfolding verify_from
  verify_chain = verify_from none 1
