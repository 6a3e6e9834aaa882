-- ===== src/Guard/Types.antt =====
-- The data of src/spy_der/execution/guard.py. Money is an integer number of 1/10000 dollars, a float
-- one of 1/10000, a time of day one of microseconds.
use spy_der.Prelude.{
  ℕ, String, Bool, true, false, Option, none, some, List, [], if◌then◌else◌, leb, not,
}
use spy_der.Prelude.Int.{ℤ, pos, ltb_ℤ}
use spy_der.Prelude.Float.{Float, real, zero_f, leb_f}

-- A `StrEnum`: a plain string may stand in its place, equal to a member and not identical with it.
pub data ExecutionMode : Type 0 where
  shadow paper live : ExecutionMode

pub data Mode : Type 0 where
  member : ExecutionMode → Mode
  plain : String → Mode

pub record GuardCandidate : Type 0 where
  pub candidate_id : String
  pub family : String
  pub maximum_loss : ℤ
  pub capital_required : ℤ
  pub fill_probability : Float
  pub hard_vetoed : Bool

pub record GuardLimits : Type 0 where
  pub max_loss_per_trade : ℤ
  pub max_capital_per_trade : ℤ
  pub max_size_scalar : Float
  pub max_contracts : ℤ
  pub max_open_positions : ℤ
  pub max_positions_per_family : ℤ
  pub min_fill_probability : Float
  pub max_quote_age_seconds : Float
  pub session_open : ℕ
  pub session_close : ℕ
  pub allow_live : Bool

-- `GuardLimits()`
abbrev pub default_limits : GuardLimits
default_limits = record {
  max_loss_per_trade = pos 5000000;
  max_capital_per_trade = pos 25000000;
  max_size_scalar = real (pos 10000);
  max_contracts = pos 10;
  max_open_positions = pos 3;
  max_positions_per_family = pos 1;
  min_fill_probability = real (pos 3500);
  max_quote_age_seconds = real (pos 50000);
  session_open = 34800000000;
  session_close = 56700000000;
  allow_live = false;
}

pub data LimitsError : Type 0 where
  negative_max_loss size_scalar_range negative_contracts session_order : LimitsError

-- `GuardLimits.__post_init__`: what it raises, if anything.
unfoldable pub limits_error : GuardLimits → Option LimitsError
limits_error lim =
    if ltb_ℤ lim.max_loss_per_trade (pos 0)
    then some LimitsError.negative_max_loss
    else if not (leb_f zero_f lim.max_size_scalar)
    then some LimitsError.size_scalar_range
    else if not (leb_f lim.max_size_scalar (real (pos 10000)))
    then some LimitsError.size_scalar_range
    else if ltb_ℤ lim.max_contracts (pos 0)
    then some LimitsError.negative_contracts
    else if leb lim.session_close lim.session_open
    then some LimitsError.session_order
    else none

-- A `datetime`: without an offset, or with its exchange-local time of day.
pub data Timestamp : Type 0 where
  naive : Timestamp
  aware : ℕ → Timestamp

pub record GuardContext : Type 0 where
  pub eligible : List GuardCandidate
  pub mode : Mode
  pub now : Option Timestamp
  pub open_positions : ℤ
  pub open_families : List (String × ℤ)
  pub buying_power : Option ℤ
  pub quote_age_seconds : Option Float
  pub requested_contracts : ℤ
  pub snapshot_vetoes : List String
  pub trading_enabled : Bool
  pub eligibility_passed : Bool

-- `GuardContext()`
abbrev pub default_context : GuardContext
default_context = record {
  eligible = [];
  mode = Mode.member ExecutionMode.shadow;
  now = none;
  open_positions = pos 0;
  open_families = [];
  buying_power = none;
  quote_age_seconds = none;
  requested_contracts = pos 1;
  snapshot_vetoes = [];
  trading_enabled = true;
  eligibility_passed = true;
}

pub data GuardBlock : Type 0 where
  trading_disabled eligibility_not_passed no_candidate_selected : GuardBlock
  candidate_not_eligible candidate_hard_vetoed snapshot_hard_veto : GuardBlock
  max_loss_exceeded capital_exceeded insufficient_buying_power : GuardBlock
  position_limit family_concentration contracts_exceeded size_not_positive : GuardBlock
  outside_session_window missing_timestamp naive_timestamp : GuardBlock
  fill_probability_too_low quote_stale live_not_permitted unknown_mode : GuardBlock

-- Where `clamps` holds a rendered text, the model holds the two values.
pub data Clamp : Type 0 where
  size_scalar : Float → Float → Clamp
  contracts : ℤ → ℤ → Clamp

-- The entries of `details`, in the order of their first assignment and before rendering.
pub data Detail : Type 0 where
  action : String → Detail
  snapshot_vetoes : List String → Detail
  local_time : ℕ → Detail
  open_positions : ℤ → Detail
  maximum_loss : ℤ → Detail
  capital_required : ℤ → Detail
  family : String → Detail
  fill_probability : Float → Detail
  quote_age_seconds : Float → Detail

pub record GuardDecision : Type 0 where
  pub approved : Bool
  pub mode : Mode
  pub candidate_id : Option String
  pub size_scalar : Float
  pub contracts : ℤ
  pub blocks : List GuardBlock
  pub clamps : List Clamp
  pub details : List Detail
