-- ===== src/Positions/Manager.antt =====
-- The position manager, src/spy_der/positions/manager.py. The hash of a position's identity and the
-- quotient of two decimals are parameters, and the note of a reduction is left without its count.
pub mod Tidy
pub mod Faults
pub mod Exit
use spy_der.Prelude.{
  ℕ, ◌-◌, max, min, String, Bool, true, false, not, ◌&&◌, ◌||◌, Option, none, some, List, [], ◌∷◌,
  ◌++◌, if◌then◌else◌, ltb, leb, eqb, keep,
}
use spy_der.Prelude.Int.{ℤ, pos, negsuc, ◌-ℤ◌, ◌+ℤ◌, ◌*ℤ◌, eqb_ℤ, max_ℤ}
use spy_der.Prelude.Float.{Float, nan, real, zero_f, leb_f}
use spy_der.Prelude.Text.{is_blank, elem, str_eq}
use spy_der.Prelude.Dict.{Dict, lookup, insert, values}
use spy_der.Prelude.Effects.{Result, ok, Action, pure, raise, or_raise, within, ◌>>=◌, ◌>>◌}
use spy_der.Execution.Contracts.{
  OrderStatus, PositionStatus, pending_open, open_position, partially_reduced, close_pending,
  closed, settled, Fault, missing_key, fraction_not_positive, not_a_number, OrderState, filled,
  partially_filled,
}
use spy_der.Execution.Accounts.{
  IsolatedAccountBook, BookAction, register_position, realize_pnl, close_position,
}
use spy_der.Positions.Contracts.{PositionState, profit_ratio}
use spy_der.Positions.Status.{validate_position_transition}

pub record PositionManager : Type 0 where
  pub accounts : IsolatedAccountBook
  pub default_policy_id : String
  pub positions : Dict PositionState

-- What the manager takes from the decimal library, from `content_hash` and from the floats: the rounded
-- product of a number of contracts with a fraction in 1/10000.
pub record Outside : Type 0 where
  pub decimal_div : ℤ → ℤ → ℤ
  pub position_key : String → String → String → String
  pub rounded_share : ℕ → ℕ → ℕ

abbrev pub ManagerAction : Type 0 → Type 0
ManagerAction A = Action Fault PositionManager A

abbrev pub on_book : {A : Type 0} → BookAction A → ManagerAction A
on_book = within (λ s. s.accounts) (λ b s. record s { accounts = b })

abbrev pub save_position : String → PositionState → ManagerAction PositionState
save_position k p s = (ok p, record s { positions = insert k p s.positions })

-- `self._positions[position_id]`
abbrev pub get_position : String → ManagerAction PositionState
get_position k s = or_raise (lookup k s.positions) (missing_key k) s

abbrev pub lift_result : {A : Type 0} → Result Fault A → ManagerAction A
lift_result r s = (r, s)

abbrev pub is_filling : OrderStatus → Bool
is_filling filled = true
is_filling partially_filled = true
is_filling _ = false

abbrev pub or_zero : Option ℤ → ℤ
or_zero none = pos 0
or_zero (some e) = e

abbrev pub or_text : String → String → String
or_text s d = if is_blank s then d else s

-- `tuple(dict.fromkeys((*ids, id)))`, of ids that are distinct.
abbrev pub add_id : String → List String → List String
add_id i is = if elem i is then is else is ++ i ∷ []

abbrev pub opened_position : String → OrderState → ℤ → ℤ → String → Bool → ℕ → PositionState
opened_position k o price max_loss policy_id credit now = record {
  position_id = k;
  account_id = o.account_id;
  candidate_id = o.candidate_id;
  status = open_position;
  opened_contracts = o.filled_contracts;
  open_contracts = o.filled_contracts;
  entry_price = some price;
  mark_price = some price;
  max_loss = max_loss;
  realized_pnl = pos 0;
  unrealized_pnl = pos 0;
  peak_pnl = pos 0;
  exit_policy_id = policy_id;
  opened_at = some now;
  closed_at = none;
  exit_reason = "";
  order_ids = o.order_id ∷ [];
  geometry_hash = "";
  opened_for_credit = credit;
}

-- The position after a further fill of its order.
abbrev pub refilled_position : OrderState → ℤ → PositionState → PositionState
refilled_position o price p = record p {
  status = open_position;
  opened_contracts = o.filled_contracts;
  open_contracts = o.filled_contracts;
  entry_price = some price;
  mark_price = some price;
  closed_at = none;
  exit_reason = "";
  order_ids = add_id o.order_id p.order_ids;
  geometry_hash = "";
}

open_new : String → OrderState → ℤ → ℤ → String → Bool → ℕ → ManagerAction (Option PositionState)
open_new k o price max_loss policy_id credit now = do
  validate_position_transition pending_open open_position
  p ← save_position k (opened_position k o price max_loss policy_id credit now)
  on_book (register_position o.account_id k)
  pure (some p)

refill : String → OrderState → ℤ → PositionState → ManagerAction (Option PositionState)
refill k o price p =
    let more = do
      validate_position_transition p.status open_position
      q ← save_position k (refilled_position o price p)
      pure (some q)
    in if ltb p.opened_contracts o.filled_contracts then more else pure (some p)

open_or_refill :
    String
    → OrderState
    → ℤ
    → ℤ
    → String
    → Bool
    → ℕ
    → Option PositionState
    → ManagerAction (Option PositionState)
unfolding open_new refill
open_or_refill k o price max_loss policy_id credit now none =
    open_new k o price max_loss policy_id credit now
open_or_refill k o price max_loss policy_id credit now (some p) = refill k o price p

on_price :
    String → OrderState → ℤ → String → Bool → ℕ → Option ℤ → ManagerAction (Option PositionState)
unfolding open_or_refill
on_price k o max_loss policy_id credit now none s = pure none s
on_price k o max_loss policy_id credit now (some price) s =
    open_or_refill k o price max_loss (or_text policy_id s.default_policy_id) credit now
      (lookup k s.positions) s

module _ (outside : Outside) where
  abbrev pub position_key_of : OrderState → String
  position_key_of o = outside.position_key o.account_id o.candidate_id o.order_id

  unfoldable pub on_order_state :
      OrderState → ℤ → String → Bool → ℕ → ManagerAction (Option PositionState)
  unfolding on_price
  on_order_state o max_loss policy_id credit now =
      if not (is_filling o.status) || eqb o.filled_contracts 0
      then pure none
      else on_price (position_key_of o) o max_loss policy_id credit now o.avg_fill_price

  abbrev pub marked_position : ℤ → ℤ → PositionState → PositionState
  marked_position price ratio p = record p {
    mark_price = some price;
    unrealized_pnl = ratio *ℤ pos p.open_contracts;
    peak_pnl = max_ℤ p.peak_pnl ratio;
  }

  mark_from : String → ℤ → PositionState → Option ℤ → ManagerAction PositionState
  mark_from k price p none = pure p
  mark_from k price p (some entry) =
      let marked = do
        ratio ← lift_result (profit_ratio outside.decimal_div entry price p.opened_for_credit)
        save_position k (marked_position price ratio p)
      in if eqb p.open_contracts 0 then pure p else marked

  unfoldable pub mark : String → ℤ → ManagerAction PositionState
  unfolding mark_from
  mark k price = do p ← get_position k; mark_from k price p p.entry_price

  -- What closing all that is open gains, the direction of the structure left out as the code does.
  abbrev pub close_pnl : ℤ → ℕ → PositionState → ℤ
  close_pnl price n p = (price -ℤ or_zero p.entry_price) *ℤ pos n

  abbrev pub closed_position : ℤ → String → ℕ → PositionState → PositionState
  closed_position price reason now p = record p {
    status = closed;
    open_contracts = 0;
    mark_price = some price;
    realized_pnl = p.realized_pnl +ℤ close_pnl price p.open_contracts p;
    unrealized_pnl = pos 0;
    closed_at = some now;
    exit_reason = reason;
  }

  abbrev pub is_closed : PositionStatus → Bool
  is_closed closed = true
  is_closed settled = true
  is_closed _ = false

  -- `close` past its first test: the position is saved before the account is credited.
  close_live : String → ℤ → String → ℕ → PositionState → ManagerAction PositionState
  close_live k price reason now p = do
    validate_position_transition p.status close_pending
    validate_position_transition close_pending closed
    q ← save_position k (closed_position price reason now p)
    on_book (close_position p.account_id k (close_pnl price p.open_contracts p))
    pure q

  close_from : String → ℤ → String → ℕ → PositionState → ManagerAction PositionState
  unfolding close_live
  close_from k price reason now p =
      let live = close_live k price reason now p in if is_closed p.status then pure p else live

  unfoldable pub close : String → ℤ → String → ℕ → ManagerAction PositionState
  unfolding close_from
  close k price reason now = do p ← get_position k; close_from k price reason now p

  -- `min(max(1, round(open * fraction)), open)`
  abbrev pub cut_of : ℕ → ℕ → ℕ
  cut_of n f = min (max 1 (outside.rounded_share n f)) n

  abbrev pub reduced_position : ℤ → String → ℕ → PositionState → PositionState
  reduced_position price reason cut p = record p {
    status = partially_reduced;
    open_contracts = p.open_contracts - cut;
    mark_price = some price;
    realized_pnl = p.realized_pnl +ℤ close_pnl price cut p;
    unrealized_pnl =
        if eqb_ℤ (or_zero p.entry_price) (pos 0)
        then pos 0
        else close_pnl price (p.open_contracts - cut) p;
    exit_reason = or_text reason "ai_reduce";
  }

  reduce_part : String → ℤ → String → ℕ → PositionState → ManagerAction PositionState
  reduce_part k price reason cut p = do
    validate_position_transition p.status partially_reduced
    q ← save_position k (reduced_position price reason cut p)
    on_book (realize_pnl p.account_id (close_pnl price cut p) "reduce")
    pure q

  -- `reduce` once the position is marked, for a fraction between 0 and 1.
  reduce_marked : String → ℕ → ℤ → String → ℕ → PositionState → ManagerAction PositionState
  unfolding reduce_part
  reduce_marked k f price reason now p =
      let cut = cut_of p.open_contracts f in
      let all = close k price (or_text reason "ai_reduce_full") now in
      let part = reduce_part k price reason cut p in if leb p.open_contracts cut then all else part

  reduce_from : String → Float → ℤ → String → ℕ → PositionState → ManagerAction PositionState
  unfolding reduce_marked
  reduce_from k nan price reason now p = raise not_a_number
  reduce_from k (real (pos f)) price reason now p = reduce_marked k f price reason now p
  reduce_from k (real (negsuc f)) price reason now p = raise fraction_not_positive

  unfoldable pub reduce : String → Float → ℤ → String → ℕ → ManagerAction PositionState
  unfolding reduce_from
  reduce k fraction price reason now =
      let all = close k price (or_text reason "ai_reduce_full") now in
      let part = mark k price >>= reduce_from k fraction price reason now in
      if leb_f fraction zero_f
      then raise fraction_not_positive
      else if leb_f (real (pos 10000)) fraction
      then all
      else part

settle_from : String → PositionState → ManagerAction PositionState
settle_from k p = do
  validate_position_transition p.status settled
  save_position k (record p { status = settled })

unfoldable pub settle : String → ManagerAction PositionState
unfolding settle_from
settle k = do p ← get_position k; settle_from k p

-- `open_positions(account_id)` and `open_positions()`
unfoldable pub open_positions : Option String → PositionManager → List PositionState
open_positions none s = keep (λ p. ltb 0 p.open_contracts) (values s.positions)
open_positions (some a) s =
    keep (λ p. str_eq p.account_id a && ltb 0 p.open_contracts) (values s.positions)

restore_from : Dict PositionState → List PositionState → Dict PositionState
restore_from d [] = d
restore_from d (p ∷ ps) = restore_from (insert p.position_id p d) ps

-- `restore`: a later position of the same id replaces an earlier one.
unfoldable pub restore : List PositionState → PositionManager → PositionManager
unfolding restore_from
restore ps s = record s { positions = restore_from [] ps }
