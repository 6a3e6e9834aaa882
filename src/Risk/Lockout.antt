-- ===== src/Risk/Lockout.antt =====
-- `build_lockout_state` and `build_operational_state` of src/spy_der/risk/lockout.py. The time of day
-- in New York, in microseconds, of the instant that the caller gives is their
-- argument.
use spy_der.Prelude.{
  ℕ, ◌≤◌, ◌<◌, Bool, true, false, ◌&&◌, ◌||◌, not, List, [], ◌++◌, String, ◌≡◌, ◌↔◌, arith, ltb,
  leb, when, append-eq-nil,
}
use spy_der.Prelude.Text.{distinct, distinct-eq-nil}
use spy_der.Risk.Contracts.{LockoutState, OperationalState, entries_allowed}

pub record LockoutConfig : Type 0 where
  pub morning_entry_time : ℕ
  pub late_lockout_time : ℕ
  pub require_market_open : Bool

-- 10:00 and 15:30
abbrev pub default_lockout : LockoutConfig
default_lockout = record {
  morning_entry_time = 36000000000;
  late_lockout_time = 55800000000;
  require_market_open = true;
}

unfoldable pub is_session_warmup : ℕ → LockoutConfig → Bool
is_session_warmup local cfg = ltb local cfg.morning_entry_time

unfoldable pub is_entry_cutoff : ℕ → LockoutConfig → Bool
is_entry_cutoff local cfg = leb cfg.late_lockout_time local

unfoldable pub build_lockout_state : ℕ → Bool → Bool → Bool → LockoutConfig → LockoutState
unfolding is_session_warmup is_entry_cutoff
build_lockout_state local market_open catalyst_active emergency cfg =
    let warmup = is_session_warmup local cfg in
    let cutoff = is_entry_cutoff local cfg in
    record {
      session_warmup = warmup;
      entry_cutoff = cutoff;
      emergency_lockout = emergency;
      catalyst_lockout = catalyst_active;
      reasons =
          when warmup "session_warmup"
          ++ (when cutoff "entry_cutoff"
              ++ (when catalyst_active "catalyst_lockout"
                  ++ (when emergency "emergency_lockout"
                      ++ when (cfg.require_market_open && not market_open) "market_closed")));
    }

-- What the caller of `build_operational_state` says besides the instant.
pub record Conditions : Type 0 where
  pub market_open : Bool
  pub data_valid : Bool
  pub broker_available : Bool
  pub deployment_permission : Bool
  pub journal_available : Bool
  pub catalyst_active : Bool
  pub emergency : Bool
  pub extra_hard_vetoes : List String

unfoldable pub build_operational_state : ℕ → Conditions → LockoutConfig → OperationalState
unfolding build_lockout_state
build_operational_state local c cfg =
    let lockout = build_lockout_state local c.market_open c.catalyst_active c.emergency cfg in
    record {
      market_open = c.market_open;
      session_warmup = lockout.session_warmup;
      entry_locked = lockout.entry_cutoff || lockout.emergency_lockout;
      data_valid = c.data_valid;
      broker_available = c.broker_available;
      deployment_permission = c.deployment_permission;
      journal_available = c.journal_available;
      hard_vetoes = distinct (lockout.reasons ++ c.extra_hard_vetoes);
    }

-- When a new entry may be made at a time of day, of the conditions that the caller reports.
abbrev pub InSession : ℕ → Conditions → LockoutConfig → Type 0
InSession local c cfg =
    (cfg.morning_entry_time ≤ local)
    × ((local < cfg.late_lockout_time)
        × ((c.market_open ≡ true)
            × ((c.data_valid ≡ true)
                × ((c.broker_available ≡ true)
                    × ((c.deployment_permission ≡ true)
                        × ((c.journal_available ≡ true)
                            × ((c.catalyst_active ≡ false)
                                × ((c.emergency ≡ false) × (c.extra_hard_vetoes ≡ [])))))))))

-- The state that is built lets an entry through exactly in session: from the morning's entry time on
-- and before the late lockout, with the market open, data, broker, journal and deployment in order, no
-- catalyst, no emergency and no veto of the caller.
pub build_operational_state-InSession :
    (local : ℕ) (c : Conditions) (cfg : LockoutConfig)
    → (entries_allowed (build_operational_state local c cfg) ≡ true) ↔ InSession local c cfg
unfolding entries_allowed build_operational_state build_lockout_state is_session_warmup
    is_entry_cutoff
build_operational_state-InSession local c cfg =
    let vs : List String =
      (build_lockout_state local c.market_open c.catalyst_active c.emergency cfg).reasons
      ++ c.extra_hard_vetoes in
    let nil_iff = distinct-eq-nil vs in
    let parts =
      append-eq-nil
        (build_lockout_state local c.market_open c.catalyst_active c.emergency cfg).reasons
        c.extra_hard_vetoes in
    (λ h. ground arith, λ h. ground arith)
