-- ===== src/Risk/Sizing.antt =====
-- `contracts_for_risk` of src/spy_der/risk/sizing.py. What it takes from the decimal library is a
-- parameter: the product of an amount with two numbers, the floor of a quotient and a ratio. A budget
-- of NaN raises where it is compared or turned into an integer, so it is none here.
use spy_der.Prelude.{ℕ, min, ◌||◌, Option, none, some, if◌then◌else◌, ltb, eqb}
use spy_der.Prelude.Int.{ℤ, pos, ◌*ℤ◌, ltb_ℤ, leb_ℤ, min_ℤ, pos_part}
use spy_der.Prelude.Float.{Float, nan, real, zero_f, leb_f}

pub record Decimals : Type 0 where
  pub product : ℤ → ℤ → ℤ → ℤ
  pub floor_ratio : ℤ → ℤ → ℤ
  pub ratio : ℤ → ℤ → ℤ

pub data SizeReason : Type 0 where
  non_positive_max_loss zero_budget insufficient_budget sized : SizeReason

pub record SizeResult : Type 0 where
  pub contracts : ℕ
  pub risk_dollars : ℤ
  pub size_scalar : Float
  pub reason : SizeReason

abbrev pub unsized : SizeReason → SizeResult
unsized why = record { contracts = 0; risk_dollars = pos 0; size_scalar = zero_f; reason = why }

-- `min(budget, max_risk_dollars)` where that is given and positive.
abbrev pub capped : Option ℤ → ℤ → ℤ
capped none budget = budget
capped (some m) budget = if ltb_ℤ (pos 0) m then min_ℤ budget m else budget

-- `min(n, m)` where `m` is positive.
abbrev pub at_most : ℕ → ℕ → ℕ
at_most m n = if ltb 0 m then min n m else n

abbrev pub sized_at : ℤ → Float → ℕ → SizeResult
sized_at loss scalar n = if eqb n 0 then unsized insufficient_budget else record {
  contracts = n;
  risk_dollars = loss *ℤ pos n;
  size_scalar = scalar;
  reason = sized;
}

-- `equity * risk_frac * size_scalar`, unless that is NaN.
abbrev pub budget_of : Decimals → ℤ → Float → Float → Option ℤ
budget_of ops equity (real f) (real s) = some (ops.product equity f s)
budget_of ops equity nan s = none
budget_of ops equity (real f) nan = none

-- What follows the early returns, of the budget; none where it raises.
abbrev pub sized_from : Decimals → ℤ → ℕ → Option ℤ → Float → Option ℤ → Option SizeResult
sized_from ops loss max_contracts max_risk scalar none = none
sized_from ops loss max_contracts max_risk scalar (some budget) =
    let raw = ops.floor_ratio (capped max_risk budget) loss in
    some (sized_at loss scalar (at_most max_contracts (pos_part raw)))

-- None where the call raises.
unfoldable pub contracts_for_risk :
    Decimals → ℤ → Float → ℤ → ℕ → Option ℤ → Float → Option SizeResult
contracts_for_risk ops equity risk_frac loss max_contracts max_risk scalar =
    if leb_ℤ loss (pos 0)
    then some (unsized non_positive_max_loss)
    else if leb_ℤ equity (pos 0) || (leb_f risk_frac zero_f || leb_f scalar zero_f)
    then some (unsized zero_budget)
    else sized_from ops loss max_contracts max_risk scalar (budget_of ops equity risk_frac scalar)
