-- ===== src/Execution/Tests.antt =====
-- The theorems of the execution layer at a buy of two contracts on a paper account.
use spy_der.Prelude.{◌+◌, ◌≤◌, ◌<◌, ◌≡◌, refl, String, true, false, none, some, [], ◌∷◌, arith}
use spy_der.Prelude.Int.{pos, ◌+ℤ◌, ◌-ℤ◌, ◌*ℤ◌, ◌≤ℤ◌}
use spy_der.Prelude.Float.{real}
use spy_der.Prelude.Dict.{lookup}
use spy_der.Prelude.Effects.{ok}
use spy_der.Execution.Contracts.{
  OrderStatus, valid_account_id, is_isolated_account, OrderIntent, OrderFill, OrderReason,
  PaperAccount, OrderState,
}
use spy_der.Execution.Status.{
  Allows, ◌⟶*◌, here, next, stage, is_terminal_order, can_transition, allowed, place,
  is_terminal_order-Allows, ⟶*-stage,
}
use spy_der.Execution.Accounts.{IsolatedAccountBook, apply_fill, close_position}
use spy_der.Execution.Accounts.Isolation.{Touches, methods-Touches}
use spy_der.Execution.Accounts.Sound.{IsSound, methods-Keeps}
use spy_der.Execution.Accounts.View.{view}
use spy_der.Execution.Accounts.Cash.{
  cash_due, Filled, Closed, Posts, apply_fill-effect, realize-close-Posts,
}
use spy_der.Execution.Simulator.{
  default_config, Environment, PaperExecutionSimulator, fill_quantity, submit, on_quote,
}
use spy_der.Execution.Simulator.Consistent.{IsRight, operations-IsRight, fill_quantity_bounds}
use spy_der.Execution.Simulator.Lifecycle.{Progress, quote-cancel-Progress, submit-Progress}

abbrev account : String
account = "system_b_v3"

-- Ten thousand dollars, and no account yet.
abbrev book : IsolatedAccountBook
book = record { starting_cash = pos 100000000; accounts = [] }

book-IsSound : IsSound book
unfolding lookup
book-IsSound = record { solvent = λ k v e. cc; keyed = λ k v e. cc }

known : valid_account_id account ≡ true
unfolding valid_account_id is_isolated_account
known = refl

abbrev bought : OrderFill
bought = record {
  fill_id = "f1";
  order_id = "o1";
  account_id = "system_b_v3";
  quantity = 2;
  price = pos 10000000;
  fees = pos 13000;
  filled_at = 5;
  simulated = true;
}

abbrev intent : OrderIntent
intent = record {
  intent_id = "i1";
  account_id = "system_b_v3";
  candidate_id = "c1";
  side = "buy_to_open";
  contracts = 2;
  limit_price = pos 20000;
  created_at = none;
  expires_at = none;
  fill_probability = real (pos 10000);
  fee_per_contract = pos 6500;
}

abbrev env : Environment
env = record {
  order_key = λ a c n. c;
  fill_key = λ o n p t. o;
  unit_random = λ o n t. real (pos 0);
}

abbrev start : PaperExecutionSimulator
start = record { accounts = book; orders = [] }

abbrev resting : OrderState
resting = record {
  order_id = "i1";
  intent_id = "i1";
  account_id = "system_b_v3";
  candidate_id = "c1";
  status = OrderStatus.acknowledged;
  requested_contracts = 2;
  filled_contracts = 0;
  avg_fill_price = none;
  fees = pos 0;
  fills = [];
  reason = OrderReason.note "";
  created_at = 0;
  updated_at = 0;
  limit_price = pos 20000;
}

abbrev trading : PaperExecutionSimulator
trading = record { accounts = book; orders = ("i1", resting) ∷ [] }

resting_there : lookup "i1" trading.orders ≡ some resting
unfolding lookup
resting_there = refl

start-IsRight : IsRight start
unfolding lookup
start-IsRight = record { orders = λ k v e. cc; keyed = λ k v e. cc; accounts = book-IsSound }

acknowledged_goes_on : is_terminal_order OrderStatus.acknowledged ≡ false
unfolding is_terminal_order allowed
acknowledged_goes_on = refl

is_terminal_order-Allows_example : Allows OrderStatus.acknowledged OrderStatus.error
is_terminal_order-Allows_example =
    (is_terminal_order-Allows OrderStatus.acknowledged).1 acknowledged_goes_on

steps : OrderStatus.created ⟶* OrderStatus.acknowledged
unfolding can_transition allowed place
steps =
    next {t = OrderStatus.submitted_simulated}
      (next {t = OrderStatus.validated} (next {t = OrderStatus.created} here refl) refl) refl

stage_example : stage OrderStatus.created ≤ stage OrderStatus.acknowledged
stage_example = (⟶*-stage steps).0

methods-Touches_example : Touches account (close_position account "p1" (pos 5))
methods-Touches_example = (methods-Touches account bought true "p1" "r" "n" (pos 5)).5

methods-Keeps_example : IsSound (apply_fill bought true book).1
methods-Keeps_example =
    (methods-Keeps account bought true "p1" "r" "n" (pos 5)).2.keeps book book-IsSound

blocked_not : (view account book).is_blocked ≡ false
unfolding lookup
blocked_not = refl

enough : pos 0 ≤ℤ cash_due bought true (view account book).cash
unfolding lookup ◌-ℤ◌ ◌+ℤ◌ ◌*ℤ◌
enough = omega arith

apply_fill-effect_example :
    let a = view account book in
    let (r, t) = apply_fill bought true book in
    (b : PaperAccount) × ((r ≡ ok b) × ((view account t ≡ b) × Filled bought true a b))
apply_fill-effect_example =
    (apply_fill-effect bought true book known (omega arith) book-IsSound).2 blocked_not enough

realize-close-Posts_example :
    Posts account (pos 5) (Closed "p1" (pos 5)) (close_position account "p1" (pos 5)) book
realize-close-Posts_example =
    (realize-close-Posts account "p1" "n" (pos 5) book known (omega arith) book-IsSound).1

operations-IsRight_example : IsRight (submit default_config env intent 7 start).1
operations-IsRight_example =
    (operations-IsRight default_config env intent "i1" (pos 20000) 7 none).0.keeps start
      start-IsRight

fills_two : fill_quantity default_config env intent resting (pos 20000) 7 ≡ some 2
unfolding fill_quantity ◌+ℤ◌
fills_two = refl

fill_quantity_bounds_example : (0 < 2) × (0 + 2 ≤ 2)
fill_quantity_bounds_example =
    fill_quantity_bounds default_config env intent resting (pos 20000) 7 fills_two

quote-cancel-Progress_example :
    Progress "i1" OrderStatus.acknowledged trading.orders
      (on_quote default_config env "i1" (pos 20000) 7 (some intent) trading).1
quote-cancel-Progress_example =
    (quote-cancel-Progress default_config env "i1" (pos 20000) 7 (some intent) trading resting
      resting_there refl).0

submit-Progress_example :
    Progress "i1" OrderStatus.created [] (submit default_config env intent 7 start).1
submit-Progress_example = submit-Progress default_config env intent 7 start
