-- ===== src/Risk/Firewall/Sizes.antt =====
-- How many contracts the firewall of src/spy_der/risk/firewall.py approves, and for how much money.
use mathlib.Core.Option.{some-injective}
use native.Mathlib.Nat.{mul-le-mul_left}
use spy_der.Prelude.{
  refl, ℕ, ◌*◌, ◌<◌, ◌≤◌, ◌≡◌, true, false, Bool, Option, none, some, arith, inl, inr, ◌⊎◌,
  if◌then◌else◌, sym, ap, subst, ◌∙◌, some≢none,
}
use spy_der.Prelude.Int.{ℤ, pos, negsuc, pos_part, ◌*ℤ◌, ◌≤ℤ◌, ◌<ℤ◌}
use spy_der.Prelude.Float.{Float, min_f}
use spy_der.Risk.Contracts.{PortfolioState, RiskEnvelope, risk_of}
use spy_der.Risk.Sizing.{
  Decimals, SizeResult, capped, at_most, unsized, non_positive_max_loss, zero_budget, sized_at,
  sized_from, contracts_for_risk,
}
use spy_der.Risk.Checks.{FirewallContext, RiskCandidate, loss_fits, max_loss_of}
use spy_der.Risk.Firewall.{positive_cap, risk_frac_of, size_of, count_for, contracts_of}
use spy_der.Risk.Firewall.Afford.{sized_at-contracts}

-- The floor of a quotient is at most the quotient.
abbrev pub FloorLaw : Decimals → Type 0
FloorLaw ops = (a b : ℤ) → pos 0 <ℤ b → ops.floor_ratio a b *ℤ b ≤ℤ a

pub mul_pos : (l n : ℕ) → pos l *ℤ pos n ≡ pos (l * n)
unfolding ◌*ℤ◌
mul_pos l n = ground arith

fits_cap :
    (l n : ℕ) (raw budget cap : ℤ)
    → raw *ℤ pos l ≤ℤ budget
    → budget ≤ℤ cap
    → n ≤ pos_part raw
    → (pos l *ℤ pos n ≤ℤ cap) ⊎ (n ≡ 0)
fits_cap l n (negsuc k) budget cap law le fit = inr (omega arith)
fits_cap l n (pos k) budget cap law le fit =
    let up = mul-le-mul_left l fit in inl (rw (mul_pos l n) (ground (arith, up, mul_pos k l)))

at_most-le : (m n : ℕ) → at_most m n ≤ n
at_most-le m n = ground arith

-- The budget that a call with contracts to buy was sized from.
from_budget :
    (ops : Decimals) (a b : Bool) (loss : ℤ) (m : ℕ) (cap : Option ℤ) (scalar : Float)
    (budget : Option ℤ) (size : SizeResult)
    → (if a
        then some (unsized non_positive_max_loss)
        else if b
        then some (unsized zero_budget)
        else sized_from ops loss m cap scalar budget)
      ≡ some size
    → 0 < size.contracts
    → (k : ℤ) × (size.contracts ≤ pos_part (ops.floor_ratio (capped cap k) loss))
from_budget ops true b loss m cap scalar budget size h some_n =
    absurd (omega (arith, ap SizeResult.contracts (some-injective _ _ h)))
from_budget ops false true loss m cap scalar budget size h some_n =
    absurd (omega (arith, ap SizeResult.contracts (some-injective _ _ h)))
from_budget ops false false loss m cap scalar none size h some_n = absurd (some≢none size (sym h))
from_budget ops false false loss m cap scalar (some k) size h some_n =
    let n : ℕ = at_most m (pos_part (ops.floor_ratio (capped cap k) loss)) in
    (
      k,
      subst (λ z. z ≤ pos_part (ops.floor_ratio (capped cap k) loss))
          (sym (sized_at-contracts loss scalar n)
            ∙ ap SizeResult.contracts (some-injective (sized_at loss scalar n) size h))
          (at_most-le m (pos_part (ops.floor_ratio (capped cap k) loss))),
    )

contracts_for_risk-budget :
    (ops : Decimals) (equity : ℤ) (frac : Float) (loss : ℤ) (m : ℕ) (cap : Option ℤ)
    (scalar : Float) (size : SizeResult)
    → contracts_for_risk ops equity frac loss m cap scalar ≡ some size
    → 0 < size.contracts
    → (k : ℤ) × (size.contracts ≤ pos_part (ops.floor_ratio (capped cap k) loss))
unfolding contracts_for_risk
contracts_for_risk-budget ops equity frac loss m cap scalar size h some_n =
    from_budget ops _ _ loss m cap scalar _ size h some_n

at_most-bounds : (m n : ℕ) → (at_most m n ≤ n) × (0 < m → at_most m n ≤ m)
at_most-bounds m n = (ground arith, λ h. ground arith)

capped_le : (cap budget : ℤ) → pos 0 <ℤ cap → capped (positive_cap cap) budget ≤ℤ cap
capped_le cap budget h = ground arith

one_fits : (cap loss : ℤ) → loss_fits cap loss ≡ true → pos 0 <ℤ cap → loss *ℤ pos 1 ≤ℤ cap
one_fits cap (pos l) fits rich = rw (mul_pos l 1) (ground arith)
one_fits cap (negsuc l) fits rich = absurd (ground arith)

loss_some : (cap loss : ℤ) → loss_fits cap loss ≡ true → pos 0 <ℤ loss
loss_some cap loss fits = ground arith

-- What the approved count and its cost are bounded by.
abbrev pub WithinLimits : RiskEnvelope → FirewallContext → RiskCandidate → ℕ → Type 0
WithinLimits e x c n =
    (0 < e.max_contracts → n ≤ e.max_contracts)
    × ((0 < x.requested_contracts → n ≤ x.requested_contracts)
        × (pos 0 <ℤ risk_of e → max_loss_of c *ℤ pos n ≤ℤ risk_of e))

-- The count is that of a size that the sizing call returned.
pub counted_of :
    {A : Type 0} (o : Option A) (f : A → ℕ) (n : ℕ)
    → elim o [ none ↦ none | some a ↦ some (f a) ] ≡ some n
    → (a : A) × ((o ≡ some a) × (f a ≡ n))
counted_of none f n h = absurd (some≢none n (sym h))
counted_of (some a) f n h = (a, (refl, some-injective _ _ h))

module _ (ops : Decimals) (law : FloorLaw ops) where
  cost_le :
      (cap equity : ℤ) (frac : Float) (loss : ℤ) (n : ℕ) (m : ℕ) (scalar : Float)
      (size : SizeResult)
      → contracts_for_risk ops equity frac loss m (positive_cap cap) scalar ≡ some size
      → pos 0 <ℤ cap
      → pos 0 <ℤ loss
      → 0 < n
      → n ≤ size.contracts
      → loss *ℤ pos n ≤ℤ cap
  cost_le cap equity frac (negsuc l) n m scalar size same rich some_loss some_n le =
      absurd (omega arith)
  cost_le cap equity frac (pos l) n m scalar size same rich some_loss some_n le =
      let (k, fit) =
        contracts_for_risk-budget ops equity frac (pos l) m (positive_cap cap) scalar size same
          (omega arith) in
      let budget : ℤ = capped (positive_cap cap) k in
      elim (fits_cap l n (ops.floor_ratio budget (pos l)) budget cap
        (law budget (pos l) (omega arith)) (capped_le cap k rich) (omega arith)) [
          | inl fit ↦ fit
          | inr z ↦ absurd (omega arith)
        ]

  count_for-WithinLimits :
      (e : RiskEnvelope) (x : FirewallContext) (c : RiskCandidate) (o : Option PortfolioState)
      (size : SizeResult)
      → loss_fits (risk_of e) (max_loss_of c) ≡ true
      → size_of ops e x c o ≡ some size
      → 0 < count_for e x c o size
      → WithinLimits e x c (count_for e x c o size)
  unfolding size_of
  count_for-WithinLimits e x c none size fits same some_n =
      rw fits
        (λ h. omega arith, (λ h. omega arith, λ h. one_fits (risk_of e) (max_loss_of c) fits h))
  count_for-WithinLimits e x c (some p) size fits same some_n =
      let n : ℕ = at_most x.requested_contracts size.contracts in
      let asked = at_most-bounds x.requested_contracts size.contracts in
      let last = at_most-bounds e.max_contracts n in
      (
        last.1,
        (
          λ h. omega (arith, last.0, asked.1 h),
          λ h.
              cost_le (risk_of e) p.equity (risk_frac_of ops (risk_of e) (some p)) (max_loss_of c) _
                e.max_contracts (min_f x.size_scalar e.max_size_scalar) size same h
                (loss_some (risk_of e) (max_loss_of c) fits) some_n
                (omega (arith, last.0, asked.0)),
        ),
      )

  pub contracts_of-WithinLimits :
      (e : RiskEnvelope) (x : FirewallContext) (c : RiskCandidate) (o : Option PortfolioState)
      (n : ℕ)
      → loss_fits (risk_of e) (max_loss_of c) ≡ true
      → contracts_of ops e x c o ≡ some n
      → 0 < n
      → WithinLimits e x c n
  unfolding contracts_of
  contracts_of-WithinLimits e x c o n fits same some_n =
      let (size, (sized, count)) = counted_of (size_of ops e x c o) (count_for e x c o) n same in
      subst (WithinLimits e x c) count
        (count_for-WithinLimits e x c o size fits sized (subst (λ k. 0 < k) (sym count) some_n))
