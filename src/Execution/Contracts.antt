-- ===== src/Execution/Contracts.antt =====
-- The records of src/spy_der/contracts/execution.py with the checks that their constructors make.
-- Money is an integer number of 1/10000 dollars, a count that a constructor keeps at zero or more is a
-- natural number, and an instant is one of microseconds.
use text.Mathlib.Text.{starts_with}
use spy_der.Prelude.{
  ℕ, String, Bool, ◌&&◌, ◌||◌, not, Option, none, some, List, [], ◌∷◌, if◌then◌else◌, eqb,
}
use spy_der.Prelude.Int.{ℤ, pos, ltb_ℤ}
use spy_der.Prelude.Float.{Float, real, zero_f, leb_f}
use spy_der.Prelude.Text.{is_blank, elem}

pub data OrderStatus : Type 0 where
  created validated submitted_simulated acknowledged partially_filled filled : OrderStatus
  cancel_pending canceled rejected expired error routed : OrderStatus

-- `PositionStatus` of src/spy_der/contracts/positions.py
pub data PositionStatus : Type 0 where
  pending_open open_position partially_reduced close_pending closed : PositionStatus
  expired_position settled reconciliation_error closing : PositionStatus

-- What the methods of this layer and of the position layer raise.
pub data Fault : Type 0 where
  unknown_account : String → Fault
  negative_cash account_blocked insufficient_cash : Fault
  order_transition : OrderStatus → OrderStatus → Fault
  missing_key : String → Fault
  contracts_not_positive fill_probability_range quantity_not_positive : Fault
  zero_entry_price fraction_not_positive not_a_number : Fault
  unapproved_policy : String → Fault
  position_transition : PositionStatus → PositionStatus → Fault

abbrev pub isolated_accounts : List String
isolated_accounts =
    "system_a_legacy" ∷ "system_b_legacy" ∷ "system_b_v2" ∷ "system_b_v3" ∷ "system_b_ensemble"
    ∷ "system_b_grok" ∷ []

unfoldable pub is_isolated_account : String → Bool
is_isolated_account account_id =
    elem account_id isolated_accounts || starts_with account_id "system_b_challenger_"

-- `assert_account_id`, as the test that it makes.
unfoldable pub valid_account_id : String → Bool
valid_account_id account_id = not (is_blank account_id) && is_isolated_account account_id

pub record OrderIntent : Type 0 where
  pub intent_id : String
  pub account_id : String
  pub candidate_id : String
  pub side : String
  pub contracts : ℕ
  pub limit_price : ℤ
  pub created_at : Option ℕ
  pub expires_at : Option ℕ
  pub fill_probability : Float
  pub fee_per_contract : ℤ

-- `OrderIntent.__post_init__`: what it raises, if anything.
unfoldable pub intent_error : OrderIntent → Option Fault
intent_error i =
    if not (is_blank i.account_id) && not (valid_account_id i.account_id)
    then some (unknown_account i.account_id)
    else if eqb i.contracts 0
    then some contracts_not_positive
    else if not (leb_f zero_f i.fill_probability && leb_f i.fill_probability (real (pos 10000)))
    then some fill_probability_range
    else none

pub record OrderFill : Type 0 where
  pub fill_id : String
  pub order_id : String
  pub account_id : String
  pub quantity : ℕ
  pub price : ℤ
  pub fees : ℤ
  pub filled_at : ℕ
  pub simulated : Bool

-- `reason`, before rendering.
pub data OrderReason : Type 0 where
  note : String → OrderReason
  account_blocked_by : String → OrderReason

pub record OrderState : Type 0 where
  pub order_id : String
  pub intent_id : String
  pub account_id : String
  pub candidate_id : String
  pub status : OrderStatus
  pub requested_contracts : ℕ
  pub filled_contracts : ℕ
  pub avg_fill_price : Option ℤ
  pub fees : ℤ
  pub fills : List OrderFill
  pub reason : OrderReason
  pub created_at : ℕ
  pub updated_at : ℕ
  pub limit_price : ℤ

-- The entries of an account's event log, before rendering.
pub data AccountEvent : Type 0 where
  blocked : String → AccountEvent
  fill : String → AccountEvent
  realize : String → AccountEvent
  realize_amount : ℤ → AccountEvent
  close : String → AccountEvent

pub record PaperAccount : Type 0 where
  pub account_id : String
  pub cash : ℤ
  pub equity : ℤ
  pub starting_cash : ℤ
  pub open_position_ids : List String
  pub daily_realized_pnl : ℤ
  pub trade_count : ℕ
  pub is_blocked : Bool
  pub block_reason : String
  pub events : List AccountEvent

-- `PaperAccount.__post_init__`
unfoldable pub account_error : PaperAccount → Option Fault
account_error a =
    if not (valid_account_id a.account_id)
    then some (unknown_account a.account_id)
    else if ltb_ℤ a.cash (pos 0) || ltb_ℤ a.equity (pos 0)
    then some negative_cash
    else none
