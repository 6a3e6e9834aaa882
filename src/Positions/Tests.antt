-- ===== src/Positions/Tests.antt =====
-- The theorems of the position layer at one open position of two contracts.
use spy_der.Prelude.{
  ◌*◌, ◌/◌, ◌<◌, ◌≡◌, refl, String, true, false, none, some, [], ◌∷◌, arith, ◌⊎◌, inl,
}
use spy_der.Prelude.Int.{pos, ◌-ℤ◌, ◌+ℤ◌, ◌*ℤ◌, ◌≤ℤ◌}
use spy_der.Prelude.Float.{real}
use spy_der.Prelude.Dict.{lookup}
use spy_der.Prelude.Effects.{ok, err}
use spy_der.Execution.Contracts.{
  OrderStatus, PositionStatus, Fault, valid_account_id, is_isolated_account, OrderReason,
  OrderState,
}
use spy_der.Execution.Accounts.{IsolatedAccountBook}
use spy_der.Execution.Accounts.Sound.{IsSound}
use spy_der.Execution.Accounts.View.{view}
use spy_der.Execution.Accounts.Cash.{Closed}
use spy_der.Positions.Contracts.{PositionState, policy_named}
use spy_der.Positions.Status.{can_move, allowed, place, phase, is_terminal_position-can_move}
use spy_der.Positions.Manager.{PositionManager, Outside, on_order_state, close, close_pnl}
use spy_der.Positions.Manager.Tidy.{IsTidy, operations-IsTidy}
use spy_der.Positions.Manager.Faults.{ClosedAt, gain, on_order_state-more_fills, close-effect}
use spy_der.Positions.Exits.{ExitSignal, ExitCall, evaluate_exit}
use spy_der.Positions.Exits.Signals.{Due, Right, evaluate_exit-Right}

abbrev account : String
account = "system_b_v3"

abbrev book : IsolatedAccountBook
book = record { starting_cash = pos 100000000; accounts = [] }

book-IsSound : IsSound book
unfolding lookup
book-IsSound = record { solvent = λ k v e. cc; keyed = λ k v e. cc }

known : valid_account_id account ≡ true
unfolding valid_account_id is_isolated_account
known = refl

-- Decimals are divided nowhere in these runs but by the ratio, which a difference stands for.
abbrev outside : Outside
outside = record {
  decimal_div = λ a b. a;
  position_key = λ a c o. c;
  rounded_share = λ n f. n * f / 10000;
}

abbrev open_two : PositionState
open_two = record {
  position_id = "c1";
  account_id = "system_b_v3";
  candidate_id = "c1";
  status = PositionStatus.open_position;
  opened_contracts = 2;
  open_contracts = 2;
  entry_price = some (pos 10000);
  mark_price = some (pos 10000);
  max_loss = pos 500000;
  realized_pnl = pos 0;
  unrealized_pnl = pos 0;
  peak_pnl = pos 0;
  exit_policy_id = "target_and_stop";
  opened_at = some 0;
  closed_at = none;
  exit_reason = "";
  order_ids = [];
  geometry_hash = "";
  opened_for_credit = false;
}

abbrev manager : PositionManager
manager = record {
  accounts = book;
  default_policy_id = "target_and_stop";
  positions = ("c1", open_two) ∷ [];
}

abbrev empty : PositionManager
empty = record { accounts = book; default_policy_id = "target_and_stop"; positions = [] }

empty-IsTidy : IsTidy empty
unfolding lookup
empty-IsTidy = record { positions = λ k v e. cc; keyed = λ k v e. cc; accounts = book-IsSound }

open_two_there : lookup "c1" manager.positions ≡ some open_two
unfolding lookup
open_two_there = refl

abbrev three : OrderState
three = record {
  order_id = "i1";
  intent_id = "i1";
  account_id = "system_b_v3";
  candidate_id = "c1";
  status = OrderStatus.filled;
  requested_contracts = 3;
  filled_contracts = 3;
  avg_fill_price = some (pos 10000);
  fees = pos 0;
  fills = [];
  reason = OrderReason.note "";
  created_at = 0;
  updated_at = 0;
  limit_price = pos 20000;
}

moves : can_move PositionStatus.open_position PositionStatus.close_pending ≡ true
unfolding can_move allowed place
moves = refl

is_terminal_position-can_move_example :
    (phase PositionStatus.open_position < phase PositionStatus.close_pending)
    ⊎ ((phase PositionStatus.open_position ≡ 1) × (phase PositionStatus.close_pending ≡ 1))
is_terminal_position-can_move_example =
    (is_terminal_position-can_move PositionStatus.open_position).1 PositionStatus.close_pending
      moves

abbrev call : ExitCall
call = record {
  mark_price = pos 16000;
  now = 60000000;
  ras_exit = false;
  emergency = false;
  expired = false;
}

operations-IsTidy_example : IsTidy (on_order_state outside three (pos 500000) "" false 9 empty).1
operations-IsTidy_example =
    (operations-IsTidy outside three (pos 500000) (pos 12000) "" "r" "c1" false (real (pos 5000)) 9
        (λ t. t) call none).0.keeps
      empty empty-IsTidy

on_order_state-more_fills_example : on_order_state outside three (pos 500000) "" false 9 manager ≡ (
  err (Fault.position_transition PositionStatus.open_position PositionStatus.open_position),
  manager,
)
on_order_state-more_fills_example =
    on_order_state-more_fills outside three (pos 500000) (pos 10000) "" false 9 manager open_two
      refl refl open_two_there (inl refl) (omega arith)

enough : pos 0 ≤ℤ (view account book).cash +ℤ close_pnl outside (pos 12000) 2 open_two
unfolding lookup ◌-ℤ◌ ◌+ℤ◌ ◌*ℤ◌
enough = omega arith

close-effect_example :
    let a = view account book in
    let (r, t) = close outside "c1" (pos 12000) "target" 9 manager in
    (q : PositionState) × ((r ≡ ok q)
      × ((lookup "c1" t.positions ≡ some q)
          × (ClosedAt (pos 12000) "target" 9 open_two q
              × Closed "c1" (gain (pos 12000) open_two.entry_price 2) a (view account t.accounts))))
close-effect_example =
    (close-effect outside "c1" (pos 12000) "target" 9 manager open_two open_two_there (inl refl)
        known (omega arith) book-IsSound).0
      enough

evaluate_exit-Right_example :
    (s : ExitSignal) × ((evaluate_exit
          (λ a b. a)
          (λ t. t)
          open_two
          call
          (some (policy_named "target_and_stop"))
        ≡ ok s)
      × Right (Due (λ a b. a) (λ t. t) (policy_named "target_and_stop") open_two call) s)
evaluate_exit-Right_example =
    evaluate_exit-Right (λ a b. a) (λ t. t) (policy_named "target_and_stop") open_two call
      (omega arith)
