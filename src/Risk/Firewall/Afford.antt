-- ===== src/Risk/Firewall/Afford.antt =====
-- When the sizing call of src/spy_der/risk/firewall.py allows a contract, with the decimal library's
-- product, ratio and floor of a quotient.
use mathlib.Core.Option.{some-injective}
use spy_der.Prelude.{
  ℕ, ◌<◌, ◌≡◌, refl, sym, ap, ◌∙◌, subst, ◌↔◌, Bool, true, false, ◌||◌, Bool-cases, Option, none,
  some, arith, inl, inr, if◌then◌else◌, some≢none, true≢false, is_some, if_both,
}
use spy_der.Prelude.Int.{ℤ, pos, negsuc, pos_part, ◌≤ℤ◌, ◌<ℤ◌, ltb_ℤ, leb_ℤ, min_ℤ}
use spy_der.Prelude.Float.{Float, nan, real, zero_f, leb_f, min_f}
use spy_der.Risk.Contracts.{PortfolioState, RiskEnvelope, risk_of}
use spy_der.Risk.Sizing.{
  Decimals, SizeResult, at_most, capped, unsized, non_positive_max_loss, zero_budget, sized_at,
  sized_from, budget_of, contracts_for_risk,
}
use spy_der.Risk.Checks.{FirewallContext, RiskCandidate, max_loss_of}
use spy_der.Risk.Firewall.{positive_cap, risk_frac_of, size_of, count_for, contracts_of}

pub at_most-some : (m n : ℕ) → (0 < at_most m n) ↔ (0 < n)
at_most-some m n = (λ h. ground arith, λ h. ground arith)

pub sized_at-contracts :
    (loss : ℤ) (scalar : Float) (n : ℕ) → (sized_at loss scalar n).contracts ≡ n
sized_at-contracts loss scalar n = ground arith

-- What is left of a budget under the cap, where there is one.
abbrev pub spendable : ℤ → ℤ → ℤ
spendable cap budget = if ltb_ℤ (pos 0) cap then min_ℤ budget cap else budget

spendable-capped : (cap budget : ℤ) → capped (positive_cap cap) budget ≡ spendable cap budget
spendable-capped cap budget = ground arith

abbrev counted : ℕ → ℕ → Option SizeResult → Option ℕ
counted m r o = elim o [ none ↦ none | some size ↦ some (at_most m (at_most r size.contracts)) ]

abbrev Buys : ℕ → ℕ → Option SizeResult → Type 0
Buys m r o = (n : ℕ) × ((counted m r o ≡ some n) × (0 < n))

one_iff : (raw : ℤ) → (0 < pos_part raw) ↔ (pos 1 ≤ℤ raw)
one_iff (pos n) = (λ h. omega arith, λ h. omega arith)
one_iff (negsuc n) = (λ h. omega arith, λ h. omega arith)

abbrev real_of : Float → ℤ
real_of nan = pos 0
real_of (real s) = s

module _ (m r : ℕ) where
  Buys-none : ¬ (Buys m r none)
  Buys-none (n, (e, h)) = some≢none n (sym e)

  Buys-some : (size : SizeResult) → Buys m r (some size) ↔ (0 < size.contracts)
  Buys-some size = (
    λ (n, (e, h)). (at_most-some r size.contracts).0 (
        (at_most-some m (at_most r size.contracts)).0
          (subst (λ k. 0 < k) (sym (some-injective _ _ e)) h)),
    λ h. (
      at_most m (at_most r size.contracts),
      (refl, (at_most-some m (at_most r size.contracts)).1 ((at_most-some r size.contracts).1 h)),
    ),
  )

-- Under the cap, an equity times a fraction and a scalar pays for one contract's loss at least.
abbrev pub Enough : Decimals → ℤ → ℤ → ℤ → ℤ → Float → Type 0
Enough ops cap equity loss f q =
    (s : ℤ) × ((q ≡ real s)
      × ((pos 0 <ℤ s)
          × ((pos 0 <ℤ f)
              × (pos 1 ≤ℤ ops.floor_ratio (spendable cap (ops.product equity f s)) loss))))

module _ (ops : Decimals) (cap equity loss : ℤ) (m r : ℕ) (f : ℤ) where
  early :
      (q : Float)
      → pos 0 <ℤ loss
      → pos 0 <ℤ equity
      → contracts_for_risk ops equity (real f) loss m (positive_cap cap) q ≡ (
          if leb_ℤ f (pos 0) || leb_f q zero_f
          then some (unsized zero_budget)
          else sized_from ops loss m (positive_cap cap) q (budget_of ops equity (real f) q))
  unfolding contracts_for_risk
  early q l e =
      let a : leb_ℤ loss (pos 0) ≡ false = ground arith in
      let b : leb_ℤ equity (pos 0) ≡ false = ground arith in rw (a, b) refl

  branch :
      (b : Bool) (s : ℤ)
      → (leb_ℤ f (pos 0) || leb_ℤ s (pos 0)) ≡ b
      → Buys m r (
          if b
          then some (unsized zero_budget)
          else sized_from ops loss m (positive_cap cap) (real s) (some (ops.product equity f s)))
        ↔ ((pos 0 <ℤ s)
            × ((pos 0 <ℤ f)
                × (pos 1 ≤ℤ ops.floor_ratio (spendable cap (ops.product equity f s)) loss)))
  branch true s h = (
    λ k. absurd (omega (arith, (Buys-some m r (unsized zero_budget)).0 k)),
    λ (a, (b, _)). absurd (true≢false (sym h ∙ off a b)),
  )
    where
      off : pos 0 <ℤ s → pos 0 <ℤ f → (leb_ℤ f (pos 0) || leb_ℤ s (pos 0)) ≡ false
      off a b = ground arith
  branch false s h =
      let raw : ℤ = ops.floor_ratio (spendable cap (ops.product equity f s)) loss in
      let size : SizeResult = sized_at loss (real s) (at_most m (pos_part raw)) in
      rw (spendable-capped cap (ops.product equity f s)) (
        λ k.
            let some_n : 0 < pos_part raw = (at_most-some m (pos_part raw)).0 (
              subst (λ n. 0 < n) (sized_at-contracts loss (real s) (at_most m (pos_part raw)))
                ((Buys-some m r size).0 k)) in
            (ground arith, (ground arith, (one_iff raw).0 some_n)),
        λ (a, (b, one)). (Buys-some m r size).1 (
            subst (λ n. 0 < n) (sym (sized_at-contracts loss (real s) (at_most m (pos_part raw))))
              ((at_most-some m (pos_part raw)).1 ((one_iff raw).1 one))),
      )

  Enough-iff :
      (q : Float)
      → pos 0 <ℤ loss
      → pos 0 <ℤ equity
      → Buys m r (contracts_for_risk ops equity (real f) loss m (positive_cap cap) q)
        ↔ Enough ops cap equity loss f q
  Enough-iff nan l e = rw (early nan l e) (elim (Bool-cases (leb_ℤ f (pos 0))) [
    | inl b ↦
        rw b (
          λ k. absurd (omega (arith, (Buys-some m r (unsized zero_budget)).0 k)),
          λ (s, (w, _)). cc,
        )
    | inr b ↦ rw b (λ k. absurd (Buys-none m r k), λ (s, (w, _)). cc)
  ])
  Enough-iff (real s) l e =
      let i = branch (leb_ℤ f (pos 0) || leb_ℤ s (pos 0)) s refl in
      rw (early (real s) l e) (
        λ k. (s, (refl, i.0 k)),
        λ (t, (w, h)). i.1 (
            subst
              (λ z.
                (pos 0 <ℤ z)
                × ((pos 0 <ℤ f)
                    × (pos 1 ≤ℤ ops.floor_ratio (spendable cap (ops.product equity f z)) loss)))
              (sym (ap real_of w)) h),
      )

abbrev pub IsNumber : Float → Type 0
IsNumber q = (s : ℤ) × (q ≡ real s)

min_f-IsNumber : (a b : Float) → IsNumber (min_f a b) ↔ IsNumber a
min_f-IsNumber nan nan = (λ h. h, λ h. h)
min_f-IsNumber nan (real b) = (λ h. h, λ h. h)
min_f-IsNumber (real a) nan = (λ h. (a, refl), λ h. (a, refl))
min_f-IsNumber (real a) (real b) = elim (Bool-cases (ltb_ℤ b a)) [
  | inl h ↦ rw h (λ k. (a, refl), λ k. (b, refl))
  | inr h ↦ rw h (λ k. (a, refl), λ k. (a, refl))
]

module _ (ops : Decimals) where
  -- A number never makes the sizing call raise.
  sizes :
      (cap equity loss f s : ℤ) (m : ℕ)
      → is_some (contracts_for_risk ops equity (real f) loss m (positive_cap cap) (real s)) ≡ true
  unfolding contracts_for_risk
  sizes cap equity loss f s m =
      let P : Option SizeResult → Type 0 = λ o. is_some o ≡ true in
      let late : Option SizeResult =
        if leb_ℤ equity (pos 0) || (leb_f (real f) zero_f || leb_f (real s) zero_f)
        then some (unsized zero_budget)
        else sized_from ops loss m (positive_cap cap) (real s) (some (ops.product equity f s)) in
      if_both P (leb_ℤ loss (pos 0)) (some (unsized non_positive_max_loss)) late refl (
        if_both P (leb_ℤ equity (pos 0) || (leb_f (real f) zero_f || leb_f (real s) zero_f))
          (some (unsized zero_budget))
          (sized_from ops loss m (positive_cap cap) (real s) (some (ops.product equity f s))) refl
          refl)

  no_budget :
      (cap loss : ℤ) (m : ℕ)
      → pos 0 <ℤ loss
      → ¬ (pos 0 <ℤ cap)
      → is_some (contracts_for_risk ops cap (real (pos 10000)) loss m (positive_cap cap) nan) ≡ true
  unfolding contracts_for_risk
  no_budget cap loss m l c =
      let a : leb_ℤ loss (pos 0) ≡ false = ground arith in
      let b : leb_ℤ cap (pos 0) ≡ true = ground arith in rw (a, b) refl

  -- Of the whole cap, NaN makes it raise where the cap is positive.
  sizes_cap :
      (cap loss : ℤ) (m : ℕ) (q : Float)
      → pos 0 <ℤ loss
      → (is_some (contracts_for_risk ops cap (real (pos 10000)) loss m (positive_cap cap) q) ≡ true)
        ↔ (pos 0 <ℤ cap → IsNumber q)
  sizes_cap cap loss m (real s) l = (λ h rich. (s, refl), λ h. sizes cap cap loss (pos 10000) s m)
  sizes_cap cap loss m nan l = elim (Bool-cases (ltb_ℤ (pos 0) cap)) [
    | inl rich ↦
        let c : pos 0 <ℤ cap = ground arith in
        rw (early ops cap cap loss m 0 (pos 10000) nan l c) (λ h. cc, λ h. let (s, k) = h c in cc)
    | inr poor ↦
        let c : ¬ (pos 0 <ℤ cap) = λ k. ground arith in
        (λ h k. absurd (c k), λ h. no_budget cap loss m l c)
  ]

  risk_frac_of-real :
      (cap : ℤ) (p : PortfolioState)
      → pos 0 <ℤ p.equity
      → risk_frac_of ops cap (some p) ≡ real (min_ℤ (pos 10000) (ops.ratio cap p.equity))
  risk_frac_of-real cap p h =
      let a : ltb_ℤ (pos 0) p.equity ≡ true = ground arith in
      rw a (elim (Bool-cases (ltb_ℤ (ops.ratio cap p.equity) (pos 10000))) [
        | inl e ↦ rw e refl
        | inr e ↦ rw e refl
      ])

  -- What the money allows. Without a portfolio a positive cap asks for a scalar that is a number; with
  -- one, the smaller of the two scalars is a positive number, so is the share of the equity that the
  -- cap makes up, and together they pay for one contract at least.
  abbrev pub Affordable :
      RiskEnvelope → FirewallContext → RiskCandidate → Option PortfolioState → Type 0
  Affordable e x c none = pos 0 <ℤ risk_of e → IsNumber x.size_scalar
  Affordable e x c (some p) =
      Enough ops (risk_of e) p.equity (max_loss_of c)
        (min_ℤ (pos 10000) (ops.ratio (risk_of e) p.equity)) (min_f x.size_scalar e.max_size_scalar)

  abbrev pub HasEquity : Option PortfolioState → Type 0
  HasEquity none = Unit
  HasEquity (some p) = pos 0 <ℤ p.equity

  abbrev pub Counts : Option PortfolioState → ℕ → Type 0
  Counts none n = Unit
  Counts (some p) n = 0 < n

  counted_iff :
      {A B : Type 0} (o : Option A) (f : A → B)
      → ((b : B) × ((elim o [ none ↦ none | some a ↦ some (f a) ] ≡ some b) × Unit {0}))
        ↔ (is_some o ≡ true)
  counted_iff none f = (λ (b, (h, _)). absurd (some≢none b (sym h)), λ h. cc)
  counted_iff (some a) f = (λ h. refl, λ h. (f a, (refl, tt)))

  pub contracts_of-Affordable :
      (e : RiskEnvelope) (x : FirewallContext) (c : RiskCandidate) (o : Option PortfolioState)
      → pos 0 <ℤ max_loss_of c
      → HasEquity o
      → ((n : ℕ) × ((contracts_of ops e x c o ≡ some n) × Counts o n)) ↔ Affordable e x c o
  unfolding contracts_of size_of
  contracts_of-Affordable e x c none l h =
      let q : Float = min_f x.size_scalar e.max_size_scalar in
      let number = min_f-IsNumber x.size_scalar e.max_size_scalar in
      let i =
        counted_iff
          (contracts_for_risk ops (risk_of e) (real (pos 10000)) (max_loss_of c) e.max_contracts
            (positive_cap (risk_of e)) q)
          (count_for e x c none) in
      let j = sizes_cap (risk_of e) (max_loss_of c) e.max_contracts q l in
      (λ k rich. number.0 (j.0 (i.0 k) rich), λ k. i.1 (j.1 (λ rich. number.1 (k rich))))
  contracts_of-Affordable e x c (some p) l h =
      subst
        (λ k.
          Buys e.max_contracts x.requested_contracts (
            contracts_for_risk ops p.equity k (max_loss_of c) e.max_contracts
              (positive_cap (risk_of e)) (min_f x.size_scalar e.max_size_scalar))
          ↔ Affordable e x c (some p))
        (sym (risk_frac_of-real (risk_of e) p h))
        (Enough-iff ops (risk_of e) p.equity (max_loss_of c) e.max_contracts x.requested_contracts
          (min_ℤ (pos 10000) (ops.ratio (risk_of e) p.equity))
          (min_f x.size_scalar e.max_size_scalar) l h)

  sized_by_number :
      (e : RiskEnvelope) (x : FirewallContext) (c : RiskCandidate) (o : Option PortfolioState)
      (s : ℤ)
      → min_f x.size_scalar e.max_size_scalar ≡ real s
      → is_some (size_of ops e x c o) ≡ true
  unfolding size_of
  sized_by_number e x c none s q =
      rw q (sizes (risk_of e) (risk_of e) (max_loss_of c) (pos 10000) s e.max_contracts)
  sized_by_number e x c (some p) s q = rw q (elim (Bool-cases (ltb_ℤ (pos 0) p.equity)) [
    | inl rich ↦
        rw (risk_frac_of-real (risk_of e) p (ground arith))
          (sizes (risk_of e) p.equity (max_loss_of c) _ s e.max_contracts)
    | inr poor ↦ rw poor (sizes (risk_of e) p.equity (max_loss_of c) (pos 0) s e.max_contracts)
  ])

  -- The firewall's sizing never raises where the context's scalar is a number.
  pub contracts_of-some :
      (e : RiskEnvelope) (x : FirewallContext) (c : RiskCandidate) (o : Option PortfolioState)
      → IsNumber x.size_scalar
      → (n : ℕ) × (contracts_of ops e x c o ≡ some n)
  unfolding contracts_of
  contracts_of-some e x c o (a, h) =
      let (s, q) = (min_f-IsNumber x.size_scalar e.max_size_scalar).1 (a, h) in
      let (n, (k, _)) =
        (counted_iff (size_of ops e x c o) (count_for e x c o)).1 (sized_by_number e x c o s q) in
      (n, k)
