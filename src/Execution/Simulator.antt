-- ===== src/Execution/Simulator.antt =====
-- The paper fill simulator, src/spy_der/execution/simulator.py. Its hashes and its random roll, which
-- rest on `hashlib`, are a parameter.
pub mod Consistent
pub mod Lifecycle
use text.Mathlib.Text.{starts_with}
use spy_der.Prelude.{
  ℕ, zero, suc, ◌+◌, ◌-◌, ◌*◌, ◌/◌, ◌%◌, max, String, Bool, true, false, not, ◌&&◌, ◌||◌, Option,
  none, some, List, [], ◌∷◌, ◌++◌, if◌then◌else◌, ltb, leb, eqb,
}
use spy_der.Prelude.Int.{ℤ, pos, negsuc, ◌+ℤ◌, ◌*ℤ◌, leb_ℤ, eqb_ℤ}
use spy_der.Prelude.Float.{Float, nan, real, zero_f, ltb_f}
use spy_der.Prelude.Text.{is_blank}
use spy_der.Prelude.Dict.{Dict, lookup, insert}
use spy_der.Prelude.Effects.{Action, ok, pure, or_raise, within, ◌>>=◌, ◌>>◌}
use spy_der.Execution.Contracts.{
  OrderStatus, Fault, missing_key, OrderIntent, OrderFill, OrderReason, note, account_blocked_by,
  OrderState,
}
use spy_der.Execution.Status.{same_status, validate_order_transition, is_terminal_order}
use spy_der.Execution.Accounts.{IsolatedAccountBook, BookAction, ensure, apply_fill}

pub record SimulatorConfig : Type 0 where
  pub default_fill_probability : Float
  pub allow_partials : Bool
  pub fee_per_contract : ℤ
  pub reject_if_account_blocked : Bool

-- `SimulatorConfig()`, its seed left to the environment.
abbrev pub default_config : SimulatorConfig
default_config = record {
  default_fill_probability = real (pos 10000);
  allow_partials = true;
  fee_per_contract = pos 6500;
  reject_if_account_blocked = true;
}

-- What the simulator takes from `hashlib`: the id of an order without one, the id of a fill, and the
-- roll of an order at a fill count and an instant.
pub record Environment : Type 0 where
  pub order_key : String → String → ℕ → String
  pub fill_key : String → ℕ → ℤ → ℕ → String
  pub unit_random : String → ℕ → ℕ → Float

pub record PaperExecutionSimulator : Type 0 where
  pub accounts : IsolatedAccountBook
  pub orders : Dict OrderState

abbrev pub SimAction : Type 0 → Type 0
SimAction A = Action Fault PaperExecutionSimulator A

abbrev pub on_accounts : {A : Type 0} → BookAction A → SimAction A
on_accounts = within (λ s. s.accounts) (λ b s. record s { accounts = b })

-- `self._orders[order_id] = state`
abbrev pub save_order : String → OrderState → SimAction OrderState
save_order order_id o s = (ok o, record s { orders = insert order_id o s.orders })

-- `self._orders[order_id]`
abbrev pub get_order : String → SimAction OrderState
get_order order_id s = or_raise (lookup order_id s.orders) (missing_key order_id) s

abbrev pub moved_order : OrderStatus → ℕ → OrderReason → OrderState → OrderState
moved_order nxt now why o = record o { status = nxt; reason = why; updated_at = now }

-- `_transition`, once the order is at hand.
move_order : String → OrderStatus → ℕ → OrderReason → OrderState → SimAction OrderState
move_order order_id nxt now why o =
    let move =
      validate_order_transition o.status nxt >> save_order order_id (moved_order nxt now why o) in
    if same_status o.status nxt then pure o else move

unfoldable pub transition : String → OrderStatus → ℕ → OrderReason → SimAction OrderState
unfolding move_order
transition order_id nxt now why = do o ← get_order order_id; move_order order_id nxt now why o

abbrev pub is_buy : OrderIntent → Bool
is_buy i = starts_with i.side "buy"

-- `roll > p * 0.5`, with both sides doubled.
abbrev above_half : Float → Float → Bool
above_half roll nan = false
above_half nan (real p) = false
above_half (real r) (real p) = ltb_f (real p) (real (r +ℤ r))

-- `quantize(Decimal("0.0001"))` of a quotient: to the nearest unit, ties to the even one.
unfoldable pub round_half_even : ℕ → ℕ → ℕ
round_half_even n d =
    let q = n / d in
    let r = n % d in if ltb d (2 * r) || (eqb (2 * r) d && eqb (q % 2) 1) then q + 1 else q

abbrev pub average : ℤ → ℕ → ℤ
average (pos n) d = pos (round_half_even n d)
average (negsuc n) d = elim (round_half_even (suc n) d) [ zero ↦ pos 0 | suc m ↦ negsuc m ]

abbrev pub total_notional : List OrderFill → ℤ
total_notional [] = pos 0
total_notional (f ∷ fs) = pos f.quantity *ℤ f.price +ℤ total_notional fs

abbrev pub expires_by : Option ℕ → ℕ → Bool
expires_by none now = false
expires_by (some at) now = leb at now

module _ (config : SimulatorConfig) (env : Environment) where
  -- How many contracts `_maybe_fill` fills, if it gets that far.
  unfoldable pub fill_quantity : OrderIntent → OrderState → ℤ → ℕ → Option ℕ
  fill_quantity i o price now =
      let remaining = o.requested_contracts - o.filled_contracts in
      let can_fill = if is_buy i then leb_ℤ price i.limit_price else leb_ℤ i.limit_price price in
      let p =
        if ltb_f i.fill_probability zero_f
        then config.default_fill_probability
        else i.fill_probability in
      let roll = env.unit_random o.order_id o.filled_contracts now in
      if eqb remaining 0
      then none
      else if not can_fill
      then none
      else if ltb_f p roll
      then none
      else if config.allow_partials && (ltb 1 remaining && above_half roll p)
      then some (max 1 (remaining / 2))
      else some remaining

  -- `intent.fee_per_contract or config.fee_per_contract`
  abbrev pub fee_rate : OrderIntent → ℤ
  fee_rate i =
      if eqb_ℤ i.fee_per_contract (pos 0) then config.fee_per_contract else i.fee_per_contract

  abbrev pub new_fill : OrderIntent → OrderState → ℤ → ℕ → ℕ → OrderFill
  new_fill i o price now qty = record {
    fill_id = env.fill_key o.order_id qty price o.filled_contracts;
    order_id = o.order_id;
    account_id = o.account_id;
    quantity = qty;
    price = price;
    fees = fee_rate i *ℤ pos qty;
    filled_at = now;
    simulated = true;
  }

  abbrev pub next_status : OrderState → ℕ → OrderStatus
  next_status o qty =
      if leb o.requested_contracts (o.filled_contracts + qty)
      then OrderStatus.filled
      else OrderStatus.partially_filled

  abbrev pub filled_order : OrderState → OrderFill → ℕ → OrderState
  filled_order o f now = record o {
    status = next_status o f.quantity;
    filled_contracts = o.filled_contracts + f.quantity;
    avg_fill_price =
        some (average (total_notional (o.fills ++ f ∷ [])) (o.filled_contracts + f.quantity));
    fees = o.fees +ℤ f.fees;
    fills = o.fills ++ f ∷ [];
    reason = note (
        if leb o.requested_contracts (o.filled_contracts + f.quantity)
        then "filled"
        else "partial_fill");
    updated_at = now;
  }

  -- `_maybe_fill` from the fill on: the account pays first, then the order is moved.
  book_fill : OrderIntent → OrderState → OrderFill → ℕ → SimAction OrderState
  book_fill i o f now = do
    on_accounts (apply_fill f (is_buy i))
    validate_order_transition o.status (next_status o f.quantity)
    save_order o.order_id (filled_order o f now)

  fill_or_not : OrderIntent → OrderState → ℤ → ℕ → Option ℕ → SimAction OrderState
  fill_or_not i o price now none = pure o
  fill_or_not i o price now (some qty) = book_fill i o (new_fill i o price now qty) now

  unfoldable pub maybe_fill : OrderIntent → OrderState → ℤ → ℕ → SimAction OrderState
  unfolding fill_or_not book_fill
  maybe_fill i o price now = fill_or_not i o price now (fill_quantity i o price now)

  abbrev pub order_id_of : OrderIntent → ℕ → String
  order_id_of i now =
      if is_blank i.intent_id then env.order_key i.account_id i.candidate_id now else i.intent_id

  abbrev pub created_or : Option ℕ → ℕ → ℕ
  created_or none now = now
  created_or (some at) now = at

  abbrev pub new_order : OrderIntent → ℕ → OrderState
  new_order i now = record {
    order_id = order_id_of i now;
    intent_id = order_id_of i now;
    account_id = i.account_id;
    candidate_id = i.candidate_id;
    status = OrderStatus.created;
    requested_contracts = i.contracts;
    filled_contracts = 0;
    avg_fill_price = none;
    fees = pos 0;
    fills = [];
    reason = note "";
    created_at = created_or i.created_at now;
    updated_at = now;
    limit_price = i.limit_price;
  }

  -- `submit` past the checks of the account and of the expiry.
  send : OrderIntent → String → ℕ → SimAction OrderState
  send i id now = do
    transition id OrderStatus.submitted_simulated now (note "submitted_simulated")
    o ← transition id OrderStatus.acknowledged now (note "acked")
    maybe_fill i o i.limit_price now

  admit : OrderIntent → String → ℕ → SimAction OrderState
  unfolding send
  admit i id now = do
    transition id OrderStatus.validated now (note "validated")
    let expire = transition id OrderStatus.expired now (note "expired_at_submit")
    let go = send i id now
    if expires_by i.expires_at now then expire else go

  unfoldable pub submit : OrderIntent → ℕ → SimAction OrderState
  unfolding admit
  submit i now = do
    let id = order_id_of i now
    save_order id (new_order i now)
    acct ← on_accounts (ensure i.account_id)
    let reject = transition id OrderStatus.rejected now (account_blocked_by acct.block_reason)
    let go = admit i id now
    if config.reject_if_account_blocked && acct.is_blocked then reject else go

  -- The intent that `on_quote` makes up where it is given none: a buy, sure to fill, with no expiry.
  abbrev pub implied_intent : OrderState → OrderIntent
  implied_intent o = record {
    intent_id = o.intent_id;
    account_id = o.account_id;
    candidate_id = o.candidate_id;
    side = "buy_to_open";
    contracts = max 1 (o.requested_contracts - o.filled_contracts);
    limit_price = o.limit_price;
    created_at = some o.created_at;
    expires_at = none;
    fill_probability = real (pos 10000);
    fee_per_contract = pos 6500;
  }

  abbrev pub intent_or_implied : Option OrderIntent → OrderState → OrderIntent
  intent_or_implied none o = implied_intent o
  intent_or_implied (some i) o = i

  quote_live : String → ℤ → ℕ → OrderIntent → OrderState → SimAction OrderState
  quote_live order_id price now i o =
      let expire = transition order_id OrderStatus.expired now (note "timeout") in
      let fill = maybe_fill i o price now in if expires_by i.expires_at now then expire else fill

  quote_order : String → ℤ → ℕ → Option OrderIntent → OrderState → SimAction OrderState
  unfolding quote_live
  quote_order order_id price now intent o =
      let live = quote_live order_id price now (intent_or_implied intent o) o in
      if is_terminal_order o.status then pure o else live

  unfoldable pub on_quote : String → ℤ → ℕ → Option OrderIntent → SimAction OrderState
  unfolding quote_order
  on_quote order_id price now intent = do
    o ← get_order order_id
    quote_order order_id price now intent o

-- The two transitions of a cancel.
cancel_live : String → ℕ → SimAction OrderState
cancel_live order_id now = do
  transition order_id OrderStatus.cancel_pending now (note "cancel_requested")
  transition order_id OrderStatus.canceled now (note "canceled")

cancel_order : String → ℕ → OrderState → SimAction OrderState
unfolding cancel_live
cancel_order order_id now o =
    let live = cancel_live order_id now in if is_terminal_order o.status then pure o else live

unfoldable pub cancel : String → ℕ → SimAction OrderState
unfolding cancel_order
cancel order_id now = do o ← get_order order_id; cancel_order order_id now o

-- `restore_orders`: a later order of the same id replaces an earlier one.
restore_from : Dict OrderState → List OrderState → Dict OrderState
restore_from d [] = d
restore_from d (o ∷ os) = restore_from (insert o.order_id o d) os

unfoldable pub restore_orders : List OrderState → PaperExecutionSimulator → PaperExecutionSimulator
unfolding restore_from
restore_orders os s = record s { orders = restore_from [] os }
