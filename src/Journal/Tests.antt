-- ===== src/Journal/Tests.antt =====
-- The journal's theorems at a journal of one and of two events.
use spy_der.Prelude.{◌≡◌, refl, true, none, [], ◌∷◌, ◌++◌, length}
use spy_der.Journal.Chain.{
  JournalEvent, Hashes, compute_event_hash, fits, verify_from, verify_chain,
}
use spy_der.Journal.Store.{last_hash, append_all}
use spy_der.Journal.Sealed.{tip, append_all-verify_chain}
use spy_der.Journal.Tamper.{SameContents, verify_chain-SameContents, verify_chain-payload}

-- An event is hashed to its id.
abbrev by_id : Hashes
by_id = record { content_hash = λ c. c.event_id; event_key = λ n t a at. t }

abbrev snapshot : JournalEvent
snapshot = record {
  event_id = "e1";
  event_type = "snapshot_created";
  aggregate_type = "snapshot";
  aggregate_id = "default";
  sequence_number = 1;
  occurred_at = 5;
  recorded_at = 5;
  schema_version = "journal.event.v1";
  payload_json = "{}";
  payload_hash = "h";
  previous_event_hash = none;
  event_hash = "e1";
  deployment_id = "";
  snapshot_id = none;
  correlation_id = "e1";
  causation_id = none;
}

abbrev other_payload : JournalEvent
other_payload = record snapshot { payload_json = "[]" }

append_all-verify_chain_example :
    let s =
      append_all by_id
        (snapshot ∷ record snapshot { event_id = "e2" } ∷ [])
        (record { events = [] }) in
    (verify_chain by_id s.events ≡ true)
    × ((length s.events ≡ 2) × (last_hash s.events ≡ tip by_id none s.events))
append_all-verify_chain_example =
    append_all-verify_chain by_id (snapshot ∷ record snapshot { event_id = "e2" } ∷ [])

verifies : verify_chain by_id (snapshot ∷ []) ≡ true
unfolding verify_chain verify_from fits compute_event_hash
verifies = refl

other_verifies : verify_chain by_id (other_payload ∷ []) ≡ true
unfolding verify_chain verify_from fits compute_event_hash
other_verifies = refl

same_tip : tip by_id none (snapshot ∷ []) ≡ tip by_id none (other_payload ∷ [])
unfolding compute_event_hash
same_tip = refl

verify_chain-SameContents_example : SameContents (snapshot ∷ []) (other_payload ∷ [])
verify_chain-SameContents_example =
    verify_chain-SameContents by_id (snapshot ∷ []) (other_payload ∷ []) verifies other_verifies
      refl same_tip (λ k. refl, tt)

verify_chain-payload_example :
    verify_chain by_id ([] ++ record snapshot { payload_json = "[]" } ∷ [])
    ≡ verify_chain by_id ([] ++ snapshot ∷ [])
verify_chain-payload_example = verify_chain-payload by_id "[]" snapshot [] []
