-- ===== src/Risk/Duplicates.antt =====
-- src/spy_der/risk/duplicates.py. An instant is one of microseconds, and an instant before the first
-- is the first: a cut-off there removes nothing, as in the source.
pub mod Memory
use spy_der.Prelude.{
  ℕ, ◌-◌, Bool, true, false, ◌&&◌, not, Option, none, some, List, [], ◌∷◌, String, if◌then◌else◌,
  ltb, is_some,
}
use Prim.Native.String.{◌++◌}
use spy_der.Prelude.Int.{ℤ, pos, ltb_ℤ, ◌*ℤ◌}
use spy_der.Prelude.Text.{is_blank, elem}
use spy_der.Prelude.Dict.{Dict, lookup, insert}
use spy_der.Guard.Types.{Timestamp, naive, aware}

pub data Freshness : Type 0 where
  missing_decision_timestamp naive_timestamp decision_in_future stale_decision fresh : Freshness

-- `DecisionFreshness.stale`
abbrev pub is_stale : Freshness → Bool
is_stale fresh = false
is_stale _ = true

age_of : ℕ → ℕ → ℤ → Freshness
age_of decided now ttl_seconds =
    if ltb now decided
    then decision_in_future
    else if ltb_ℤ (ttl_seconds *ℤ pos 1000000) (pos (now - decided))
    then stale_decision
    else fresh

unfoldable pub is_stale_decision : Option Timestamp → Timestamp → ℤ → Freshness
unfolding age_of
is_stale_decision none now ttl_seconds = missing_decision_timestamp
is_stale_decision (some naive) now ttl_seconds = naive_timestamp
is_stale_decision (some (aware d)) naive ttl_seconds = naive_timestamp
is_stale_decision (some (aware d)) (aware t) ttl_seconds = age_of d t ttl_seconds

-- `"|".join((account_id, candidate_id, geometry_hash))`
unfoldable pub decision_signature : String → String → String → String
decision_signature candidate_id geometry_hash account_id =
    account_id ++ ("|" ++ (candidate_id ++ ("|" ++ geometry_hash)))

pub record DuplicateGuard : Type 0 where
  pub ttl : ℕ
  pub seen : Dict ℕ

-- The entries that `_purge` keeps.
unfoldable pub still_seen : ℕ → ℕ → Dict ℕ → Dict ℕ
still_seen ttl now [] = []
still_seen ttl now ((k, at) ∷ d) =
    let rest = still_seen ttl now d in if ltb at (now - ttl) then rest else (k, at) ∷ rest

unfoldable pub purge : ℕ → DuplicateGuard → DuplicateGuard
unfolding still_seen
purge now g = record g { seen = still_seen g.ttl now g.seen }

unfoldable pub observe : String → ℕ → DuplicateGuard → DuplicateGuard
unfolding purge
observe signature at g =
    let purged = purge at g in
    if is_blank signature then purged else record purged { seen = insert signature at purged.seen }

unfoldable pub remember_decision : String → String → String → ℕ → DuplicateGuard → DuplicateGuard
unfolding observe decision_signature
remember_decision candidate_id geometry_hash account_id at g =
    observe (decision_signature candidate_id geometry_hash account_id) at g

pub data Duplicate : Type 0 where
  equivalent_position_candidate equivalent_position_geometry duplicate_order : Duplicate

-- `is_duplicate`, which purges first: the reason where it answers yes, and the guard afterwards.
unfoldable pub is_duplicate :
    String
    → String
    → String
    → List String
    → List String
    → ℕ
    → DuplicateGuard
    → Option Duplicate × DuplicateGuard
unfolding purge decision_signature
is_duplicate candidate_id geometry_hash account_id open_candidates open_hashes now g =
    let purged = purge now g in
    let sig = decision_signature candidate_id geometry_hash account_id in
    (
      if not (is_blank candidate_id) && elem candidate_id open_candidates
          then some equivalent_position_candidate
          else if not (is_blank geometry_hash) && elem geometry_hash open_hashes
          then some equivalent_position_geometry
          else if not (is_blank sig) && is_some (lookup sig purged.seen)
          then some duplicate_order
          else none,
      purged,
    )
