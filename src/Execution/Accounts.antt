-- ===== src/Execution/Accounts.antt =====
-- The isolated paper ledgers, src/spy_der/execution/accounts.py, method by method. A method that
-- builds a new `PaperAccount` runs the constructor's checks before it stores it.
pub mod Isolation
pub mod Sound
pub mod View
pub mod Cash
use spy_der.Prelude.{
  ◌+◌, String, Bool, true, false, not, Option, none, some, List, [], ◌∷◌, ◌++◌, if◌then◌else◌, keep,
}
use spy_der.Prelude.Int.{ℤ, pos, ◌+ℤ◌, ◌-ℤ◌, ◌*ℤ◌, ltb_ℤ}
use spy_der.Prelude.Text.{str_eq, is_blank, elem}
use spy_der.Prelude.Dict.{Dict, lookup, insert}
use spy_der.Prelude.Effects.{Action, pure, raise, get, modify, require, ◌>>=◌, ◌>>◌}
use spy_der.Execution.Contracts.{
  Fault, unknown_account, account_blocked, insufficient_cash, valid_account_id, is_isolated_account,
  OrderFill, AccountEvent, PaperAccount, account_error,
}

pub record IsolatedAccountBook : Type 0 where
  pub starting_cash : ℤ
  pub accounts : Dict PaperAccount

abbrev pub BookAction : Type 0 → Type 0
BookAction A = Action Fault IsolatedAccountBook A

-- The account that `ensure` creates.
abbrev pub fresh_account : String → ℤ → PaperAccount
fresh_account account_id cash = record {
  account_id = account_id;
  cash = cash;
  equity = cash;
  starting_cash = cash;
  open_position_ids = [];
  daily_realized_pnl = pos 0;
  trade_count = 0;
  is_blocked = false;
  block_reason = "";
  events = [];
}

raise_if_some : Option Fault → BookAction (Unit {0})
raise_if_some none = pure tt
raise_if_some (some e) = raise e

-- `self._accounts[key] = PaperAccount(...)`
unfoldable pub store : String → PaperAccount → BookAction PaperAccount
unfolding raise_if_some
store key a = do
  raise_if_some (account_error a)
  modify (λ b. record b { accounts = insert key a b.accounts })
  pure a

create_if_missing : String → ℤ → Option PaperAccount → BookAction PaperAccount
create_if_missing account_id cash (some a) = pure a
create_if_missing account_id cash none = store account_id (fresh_account account_id cash)

unfoldable pub ensure : String → BookAction PaperAccount
unfolding create_if_missing
ensure account_id = do
  require (valid_account_id account_id) (unknown_account account_id)
  b ← get
  create_if_missing account_id b.starting_cash (lookup account_id b.accounts)

abbrev pub blocked_account : String → PaperAccount → PaperAccount
blocked_account reason acct = record acct {
  is_blocked = true;
  block_reason = reason;
  events = acct.events ++ AccountEvent.blocked reason ∷ [];
}

unfoldable pub block : String → String → BookAction PaperAccount
block account_id reason = do
  acct ← ensure account_id
  store account_id (blocked_account reason acct)

abbrev pub notional_of : OrderFill → ℤ
notional_of f = pos f.quantity *ℤ f.price +ℤ f.fees

-- The cash after a fill.
abbrev pub cash_after : OrderFill → Bool → ℤ → ℤ
cash_after f debit cash = if debit then cash -ℤ notional_of f else cash +ℤ notional_of f

abbrev pub filled_account : OrderFill → Bool → PaperAccount → PaperAccount
filled_account f debit acct = record acct {
  cash = cash_after f debit acct.cash;
  equity = cash_after f debit acct.cash;
  trade_count = acct.trade_count + (if debit then 1 else 0);
  events = acct.events ++ AccountEvent.fill f.fill_id ∷ [];
}

-- What `apply_fill` does to the account that it has ensured, and past the test for a block.
settle_in : OrderFill → Bool → PaperAccount → BookAction PaperAccount
settle_in f debit acct = do
  require (not (ltb_ℤ (cash_after f debit acct.cash) (pos 0))) insufficient_cash
  store f.account_id (filled_account f debit acct)

fill_in : OrderFill → Bool → PaperAccount → BookAction PaperAccount
unfolding settle_in
fill_in f debit acct = do require (not acct.is_blocked) account_blocked; settle_in f debit acct

unfoldable pub apply_fill : OrderFill → Bool → BookAction PaperAccount
unfolding fill_in
apply_fill f debit = do acct ← ensure f.account_id; fill_in f debit acct

abbrev pub registered_account : String → PaperAccount → PaperAccount
registered_account position_id acct = record acct {
  open_position_ids = acct.open_position_ids ++ position_id ∷ [];
}

-- What `register_position` does to the account that it has ensured.
register_in : String → String → PaperAccount → BookAction PaperAccount
register_in account_id position_id acct =
    let added = store account_id (registered_account position_id acct) in
    if elem position_id acct.open_position_ids then pure acct else added

unfoldable pub register_position : String → String → BookAction PaperAccount
unfolding register_in
register_position account_id position_id = do
  acct ← ensure account_id
  register_in account_id position_id acct

abbrev pub realize_event : String → ℤ → AccountEvent
realize_event note pnl =
    if is_blank note then AccountEvent.realize_amount pnl else AccountEvent.realize note

abbrev pub realized_account : ℤ → String → PaperAccount → PaperAccount
realized_account pnl note acct = record acct {
  cash = acct.cash +ℤ pnl;
  equity = acct.cash +ℤ pnl;
  daily_realized_pnl = acct.daily_realized_pnl +ℤ pnl;
  events = acct.events ++ realize_event note pnl ∷ [];
}

unfoldable pub realize_pnl : String → ℤ → String → BookAction PaperAccount
realize_pnl account_id pnl note = do
  acct ← ensure account_id
  store account_id (realized_account pnl note acct)

abbrev pub without : String → List String → List String
without position_id = keep (λ p. not (str_eq p position_id))

abbrev pub closed_account : String → ℤ → PaperAccount → PaperAccount
closed_account position_id pnl acct = record acct {
  cash = acct.cash +ℤ pnl;
  equity = acct.cash +ℤ pnl;
  open_position_ids = without position_id acct.open_position_ids;
  daily_realized_pnl = acct.daily_realized_pnl +ℤ pnl;
  events = acct.events ++ AccountEvent.close position_id ∷ [];
}

unfoldable pub close_position : String → String → ℤ → BookAction PaperAccount
close_position account_id position_id pnl = do
  acct ← ensure account_id
  store account_id (closed_account position_id pnl acct)

-- `assert_same_account`
unfoldable pub assert_same_account : String → String → BookAction (Unit {0})
assert_same_account account_id other = do
  require (str_eq account_id other) (unknown_account other)
  require (is_isolated_account account_id) (unknown_account account_id)
