-- ===== src/Reconciliation.antt =====
-- `reconcile_account` of src/spy_der/execution/reconciliation.py, with the `ReconciliationResult` of
-- src/spy_der/contracts/positions.py. A set of ids is a list without repetition, whose order says
-- nothing, and a discrepancy is kept before rendering.
pub mod Books
mod Tests
use spy_der.Prelude.{
  String, Bool, true, not, Option, none, some, List, [], ◌∷◌, ◌++◌, if◌then◌else◌, ltb, when,
  is_nil, ◌&&◌,
}
use spy_der.Prelude.Int.{ℤ, eqb_ℤ}
use spy_der.Prelude.Text.{str_eq, elem, distinct}
use spy_der.Prelude.Effects.{pure, ◌>>=◌, ◌>>◌}
use spy_der.Execution.Contracts.{OrderState, PaperAccount}
use spy_der.Execution.Accounts.{BookAction, ensure, block}
use spy_der.Positions.Contracts.{PositionState}

pub data Discrepancy : Type 0 where
  order_cross_account missing_open_position orphan_open_position : String → Discrepancy
  expected_account_mismatch open_position_set_mismatch : Discrepancy
  cash_mismatch : ℤ → ℤ → Discrepancy

pub record ReconciliationResult : Type 0 where
  pub account_id : String
  pub matched : Bool
  pub discrepancies : List Discrepancy
  pub blocked_entries : Bool

abbrev pub cross_account : String → List OrderState → List Discrepancy
cross_account account_id [] = []
cross_account account_id (o ∷ os) =
    when (not (str_eq o.account_id account_id)) (order_cross_account o.order_id)
    ++ cross_account account_id os

-- `p.position_id for p in positions if p.open_contracts > 0`
abbrev pub open_position_ids_of : List PositionState → List String
open_position_ids_of [] = []
open_position_ids_of (p ∷ ps) =
    if ltb 0 p.open_contracts
    then p.position_id ∷ open_position_ids_of ps
    else open_position_ids_of ps

-- The ids of the second list that are not in the first.
abbrev pub not_in : (String → Discrepancy) → List String → List String → List Discrepancy
not_in d known [] = []
not_in d known (i ∷ is) = when (not (elem i known)) (d i) ++ not_in d known is

-- `set(xs) <= set(ys)`
abbrev pub all_in : List String → List String → Bool
all_in [] ys = true
all_in (x ∷ xs) ys = elem x ys && all_in xs ys

abbrev pub against_expected : String → PaperAccount → Option PaperAccount → List Discrepancy
against_expected account_id acct none = []
against_expected account_id acct (some e) =
    when (not (str_eq e.account_id account_id)) expected_account_mismatch
    ++ (when (not (eqb_ℤ e.cash acct.cash)) (cash_mismatch acct.cash e.cash)
        ++ when
            (not (
              all_in e.open_position_ids acct.open_position_ids
              && all_in acct.open_position_ids e.open_position_ids))
            open_position_set_mismatch)

unfoldable pub discrepancies_of :
    String
    → PaperAccount
    → List OrderState
    → List PositionState
    → Option PaperAccount
    → List Discrepancy
discrepancies_of account_id acct orders positions expected =
    let open_ids = distinct (open_position_ids_of positions) in
    cross_account account_id orders
    ++ (not_in missing_open_position acct.open_position_ids open_ids
        ++ (not_in orphan_open_position open_ids acct.open_position_ids
            ++ against_expected account_id acct expected))

abbrev pub result_of : String → List Discrepancy → ReconciliationResult
result_of account_id ds = record {
  account_id = account_id;
  matched = is_nil ds;
  discrepancies = ds;
  blocked_entries = not (is_nil ds);
}

-- Past the look-up of the account.
conclude : String → List Discrepancy → BookAction ReconciliationResult
conclude account_id ds =
    let stop = block account_id "reconciliation_mismatch" >> pure (result_of account_id ds) in
    if is_nil ds then pure (result_of account_id ds) else stop

unfoldable pub reconcile_account :
    String
    → List OrderState
    → List PositionState
    → Option PaperAccount
    → BookAction ReconciliationResult
unfolding conclude
reconcile_account account_id orders positions expected = do
  acct ← ensure account_id
  conclude account_id (discrepancies_of account_id acct orders positions expected)
