-- ===== src/Journal/Store.antt =====
-- The in-memory store of src/spy_der/journal/store.py.
use spy_der.Prelude.{
  ℕ, suc, String, Bool, true, Option, none, some, List, [], ◌∷◌, ◌++◌, if◌then◌else◌, length, keep,
}
use spy_der.Prelude.Text.{is_blank, str_eq}
use spy_der.Journal.Chain.{JournalEvent, Hashes, compute_event_hash}

pub record InMemoryJournalStore : Type 0 where
  pub events : List JournalEvent

abbrev or_else : String → String → String
or_else s d = if is_blank s then d else s

-- `events[-1].event_hash if events else None`
abbrev pub last_hash : List JournalEvent → Option String
last_hash [] = none
last_hash (e ∷ []) = some e.event_hash
last_hash (e ∷ (f ∷ es)) = last_hash (f ∷ es)

module _ (hashes : Hashes) where
  -- The event that `_finalize` stages, before its hash is known.
  abbrev pub staged : JournalEvent → ℕ → Option String → JournalEvent
  staged e seq previous_hash =
      let event_id =
        or_else e.event_id (hashes.event_key seq e.event_type e.aggregate_id e.occurred_at) in
      record e {
        event_id = event_id;
        sequence_number = seq;
        previous_event_hash = previous_hash;
        event_hash = "";
        correlation_id = or_else e.correlation_id event_id;
      }

  unfoldable pub finalize : JournalEvent → ℕ → Option String → JournalEvent
  finalize e seq previous_hash = record (staged e seq previous_hash) {
    event_hash = compute_event_hash hashes (staged e seq previous_hash);
  }

  unfoldable pub append : JournalEvent → InMemoryJournalStore → JournalEvent × InMemoryJournalStore
  unfolding finalize
  append e s =
      let finalized = finalize e (suc (length s.events)) (last_hash s.events) in
      (finalized, record s { events = s.events ++ finalized ∷ [] })

  -- Appends one after the other.
  unfoldable pub append_all : List JournalEvent → InMemoryJournalStore → InMemoryJournalStore
  unfolding append
  append_all [] s = s
  append_all (e ∷ es) s = append_all es (append e s).1

abbrev matches : Option String → String → Bool
matches none s = true
matches (some t) s = str_eq s t

unfoldable pub iter_events :
    Option String → Option String → InMemoryJournalStore → List JournalEvent
iter_events aggregate_id event_type s =
    keep (λ e. matches event_type e.event_type)
      (keep (λ e. matches aggregate_id e.aggregate_id) s.events)
