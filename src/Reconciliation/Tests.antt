-- ===== src/Reconciliation/Tests.antt =====
-- Reconciling a new account with the record of an open position that it does not list.
use spy_der.Prelude.{◌≡◌, refl, String, true, false, none, some, [], ◌∷◌, arith}
use spy_der.Prelude.Int.{pos}
use spy_der.Prelude.Dict.{lookup}
use spy_der.Execution.Contracts.{PositionStatus, valid_account_id, is_isolated_account}
use spy_der.Execution.Accounts.{IsolatedAccountBook}
use spy_der.Execution.Accounts.Sound.{IsSound}
use spy_der.Execution.Accounts.View.{view}
use spy_der.Positions.Contracts.{PositionState}
use spy_der.Reconciliation.{reconcile_account}
use spy_der.Reconciliation.Books.{InStep, Stopped, reconcile_account-InStep}

abbrev account : String
account = "system_b_v3"

abbrev book : IsolatedAccountBook
book = record { starting_cash = pos 100000000; accounts = [] }

book-IsSound : IsSound book
unfolding lookup
book-IsSound = record { solvent = λ k v e. cc; keyed = λ k v e. cc }

known : valid_account_id account ≡ true
unfolding valid_account_id is_isolated_account
known = refl

abbrev unlisted : PositionState
unlisted = record {
  position_id = "p1";
  account_id = "system_b_v3";
  candidate_id = "c1";
  status = PositionStatus.open_position;
  opened_contracts = 2;
  open_contracts = 2;
  entry_price = some (pos 10000);
  mark_price = some (pos 10000);
  max_loss = pos 500000;
  realized_pnl = pos 0;
  unrealized_pnl = pos 0;
  peak_pnl = pos 0;
  exit_policy_id = "target_and_stop";
  opened_at = some 0;
  closed_at = none;
  exit_reason = "";
  order_ids = [];
  geometry_hash = "";
  opened_for_credit = false;
}

false_is_no : ¬ (false ≡ true)
false_is_no k = cc

out_of_step : ¬ (InStep account (view account book) [] (unlisted ∷ []) none)
unfolding lookup
out_of_step h = false_is_no (h.1.0 "p1" refl)

reconcile_account-InStep_example :
    Stopped "reconciliation_mismatch"
      (view account book)
      (view account (reconcile_account account [] (unlisted ∷ []) none book).1)
reconcile_account-InStep_example =
    (reconcile_account-InStep account [] (unlisted ∷ []) none book known (omega arith)
        book-IsSound).3
      out_of_step
