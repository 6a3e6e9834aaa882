-- ===== src/Positions/Contracts.antt =====
-- The records of src/spy_der/contracts/positions.py. A price or a ratio is an integer number of units
-- of the decimal grid; the quotient of two decimals is a parameter.
use spy_der.Prelude.{ℕ, String, Bool, true, Option, List, [], ◌∷◌, if◌then◌else◌}
use spy_der.Prelude.Int.{ℤ, pos, ◌-ℤ◌, eqb_ℤ}
use spy_der.Prelude.Float.{Float, real}
use spy_der.Prelude.Text.{elem}
use spy_der.Execution.Contracts.{PositionStatus, Fault, zero_entry_price}
use spy_der.Prelude.Effects.{Result, ok, err}

-- `profit_ratio`: the fraction of the entry price gained, signed so that profit is positive.
unfoldable pub profit_ratio : (ℤ → ℤ → ℤ) → ℤ → ℤ → Bool → Result Fault ℤ
profit_ratio decimal_div entry mark opened_for_credit =
    let move = decimal_div (mark -ℤ entry) entry in
    if eqb_ℤ entry (pos 0)
    then err zero_entry_price
    else ok (if opened_for_credit then pos 0 -ℤ move else move)

-- The values of `ApprovedExitPolicyId`.
abbrev pub fixed_target : String
fixed_target = "fixed_target"

abbrev pub fixed_stop : String
fixed_stop = "fixed_stop"

abbrev pub target_and_stop : String
target_and_stop = "target_and_stop"

abbrev pub trailing : String
trailing = "trailing"

abbrev pub eod_exit : String
eod_exit = "eod_exit"

abbrev pub structural_ras_exit : String
structural_ras_exit = "structural_ras_exit"

abbrev pub approved_exit_policies : List String
approved_exit_policies =
    fixed_target ∷ fixed_stop ∷ target_and_stop ∷ trailing ∷ "time_exit" ∷ eod_exit
    ∷ structural_ras_exit ∷ "emergency_exit" ∷ "expiration_settlement" ∷ []

pub record ExitPolicy : Type 0 where
  pub policy_id : String
  pub take_profit_ratio : Float
  pub stop_loss_ratio : Float
  pub trailing_arm_ratio : Float
  pub trailing_giveback_ratio : Float
  pub max_holding_minutes : ℕ
  pub eod_close : Bool

-- `ExitPolicy(policy_id=...)`
abbrev pub policy_named : String → ExitPolicy
policy_named policy_id = record {
  policy_id = policy_id;
  take_profit_ratio = real (pos 5000);
  stop_loss_ratio = real (pos 3500);
  trailing_arm_ratio = real (pos 2500);
  trailing_giveback_ratio = real (pos 1500);
  max_holding_minutes = 0;
  eod_close = true;
}

-- The check of `ExitPolicy.__post_init__`.
abbrev pub is_approved_policy : ExitPolicy → Bool
is_approved_policy p = elem p.policy_id approved_exit_policies

pub record PositionState : Type 0 where
  pub position_id : String
  pub account_id : String
  pub candidate_id : String
  pub status : PositionStatus
  pub opened_contracts : ℕ
  pub open_contracts : ℕ
  pub entry_price : Option ℤ
  pub mark_price : Option ℤ
  pub max_loss : ℤ
  pub realized_pnl : ℤ
  pub unrealized_pnl : ℤ
  pub peak_pnl : ℤ
  pub exit_policy_id : String
  pub opened_at : Option ℕ
  pub closed_at : Option ℕ
  pub exit_reason : String
  pub order_ids : List String
  pub geometry_hash : String
  pub opened_for_credit : Bool
