-- ===== src/Positions/Manager/Exit.antt =====
-- `evaluate_exit` of src/spy_der/positions/manager.py: the position is marked, and then judged.
use spy_der.Prelude.{ℕ, String, Option}
use spy_der.Prelude.Effects.{◌>>=◌}
use spy_der.Positions.Contracts.{ExitPolicy}
use spy_der.Positions.Exits.{ExitSignal, ExitCall, evaluate_exit}
use spy_der.Positions.Manager.{Outside, ManagerAction, lift_result, mark}

unfoldable pub evaluate_exit_of :
    Outside → (ℕ → ℕ) → String → ExitCall → Option ExitPolicy → ManagerAction ExitSignal
evaluate_exit_of outside et_time k c policy = do
  p ← mark outside k c.mark_price
  lift_result (evaluate_exit outside.decimal_div et_time p c policy)
