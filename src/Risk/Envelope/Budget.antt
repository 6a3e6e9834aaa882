-- ===== src/Risk/Envelope/Budget.antt =====
-- What an envelope built by src/spy_der/risk/envelope.py allows.
use spy_der.Prelude.{
  suc, subst, iff_trans, false≢true, ◌<◌, ◌≡◌, refl, sym, ◌∙◌, ◌↔◌, inl, inr, Bool, true, false,
  ◌&&◌, Option, none, some, List, [], ◌∷◌, ◌++◌, if◌then◌else◌, String, arith, ltb, eqb, when,
  is_nil, append-eq-nil, when-eq-nil, Bool-cases,
}
use spy_der.Prelude.Int.{
  ℤ, pos, negsuc, ◌+ℤ◌, ◌≤ℤ◌, ◌<ℤ◌, -ℤ_parts, ltb_ℤ, leb_ℤ, max_ℤ, min_ℤ, ◌-ℤ◌, leb_ℤ-false,
}
use spy_der.Prelude.Float.{Float, nan, real, zero_f, AtMost, leb_f, leb_f-true}
use spy_der.Prelude.Text.{distinct, distinct-eq-nil}
use spy_der.Risk.Contracts.{
  OperationalState, entries_allowed, PortfolioState, RiskLimits, RiskEnvelope, make_envelope,
  rejected, is_valid_envelope, rejected_fields, risk_of,
}
use spy_der.Risk.Envelope.{
  operational_vetoes, budget_vetoes, envelope_vetoes, size_scalar, approved_fields, max_risk,
  remaining_slots, consumed, above_limit, abs_ℤ, build_risk_envelope,
}

size_scalar-bounds :
    (cap : Float)
    → (leb_f zero_f (size_scalar cap) ≡ true) × (leb_f (size_scalar cap) (real (pos 10000)) ≡ true)
size_scalar-bounds nan = (refl, refl)
size_scalar-bounds (real x) = ground arith

operational-eq-nil :
    (o : OperationalState) → (operational_vetoes (some o) ≡ []) ↔ (entries_allowed o ≡ true)
unfolding operational_vetoes entries_allowed
operational-eq-nil o = ground arith

abbrev MayEnter : Option OperationalState → Type 0
MayEnter none = Unit {0}
MayEnter (some o) = entries_allowed o ≡ true

abbrev Within : Option ℤ → ℤ → Type 0
Within none v = Unit {0}
Within (some m) v = pos 0 <ℤ m → v ≤ℤ m

-- What the day has used up: the open risk, and the realized result where that is a loss.
abbrev pub used_of : ℤ → ℤ → ℤ
used_of risk (pos n) = risk
used_of risk (negsuc n) = risk +ℤ pos (suc n)

abbrev pub used : PortfolioState → ℤ
used p = used_of p.open_risk_dollars p.daily_realized_pnl

consumed-used :
    (risk pnl : ℤ) → (if ltb_ℤ pnl (pos 0) then risk +ℤ abs_ℤ pnl else risk) ≡ used_of risk pnl
consumed-used risk (pos n) = let e : ltb_ℤ (pos n) (pos 0) ≡ false = ground arith in rw e refl
consumed-used risk (negsuc n) = let e : ltb_ℤ (negsuc n) (pos 0) ≡ true = ground arith in rw e refl

same_use : (p : PortfolioState) → consumed p ≡ used p
same_use p = consumed-used p.open_risk_dollars p.daily_realized_pnl

-- What an envelope is granted on: the operation allows entries, the day's losses and the open risk
-- leave something of the daily budget, a position is free, there is money to risk, and the book's
-- gamma and delta are within their limits.
abbrev pub Affordable : RiskLimits → PortfolioState → Option OperationalState → Type 0
Affordable l p ops =
    MayEnter ops
    × ((pos 0 <ℤ l.max_daily_loss → used p <ℤ l.max_daily_loss)
        × ((0 < l.max_positions → p.open_positions < l.max_positions)
            × ((pos 0 <ℤ max_risk l p)
                × (Within l.gamma_limit p.portfolio_gamma
                    × Within l.delta_limit (abs_ℤ p.portfolio_delta)))))

may-eq-nil : (ops : Option OperationalState) → (operational_vetoes ops ≡ []) ↔ MayEnter ops
unfolding operational_vetoes
may-eq-nil none = (λ h. tt, λ h. refl)
may-eq-nil (some o) = operational-eq-nil o

limit_iff : (m : Option ℤ) (v : ℤ) → (above_limit m v ≡ false) ↔ Within m v
limit_iff none v = (λ h. tt, λ h. refl)
limit_iff (some m) v = (λ h. ground arith, λ h. ground arith)

left_iff :
    (m c : ℤ)
    → ((ltb_ℤ (pos 0) m && leb_ℤ (if ltb_ℤ (pos 0) m then max_ℤ (pos 0) (m -ℤ c) else m) (pos 0))
        ≡ false)
      ↔ (pos 0 <ℤ m → c <ℤ m)
left_iff m c = (λ h. ground (arith, -ℤ_parts m c), λ h. ground (arith, -ℤ_parts m c))

slots_iff :
    (l : RiskLimits) (p : PortfolioState)
    → ((ltb 0 l.max_positions && eqb (remaining_slots l p) 0) ≡ false)
      ↔ (0 < l.max_positions → p.open_positions < l.max_positions)
slots_iff l p = (λ h. ground arith, λ h. ground arith)

two_parts :
    {P Q : Type 0} (xs ys : List String) → (xs ≡ []) ↔ P → (ys ≡ []) ↔ Q → (xs ++ ys ≡ []) ↔ (P × Q)
two_parts xs ys i j = (
  λ h. let k = (append-eq-nil xs ys).0 h in (i.0 k.0, j.0 k.1),
  λ h. (append-eq-nil xs ys).1 (i.1 h.0, j.1 h.1),
)

when_part : {P : Type 0} (b : Bool) (c : String) → (b ≡ false) ↔ P → (when b c ≡ []) ↔ P
when_part b c i = (λ h. i.0 ((when-eq-nil b c).0 h), λ h. (when-eq-nil b c).1 (i.1 h))

vetoes-eq-nil :
    (l : RiskLimits) (p : PortfolioState) (ops : Option OperationalState)
    → (envelope_vetoes l p ops ≡ []) ↔ Affordable l p ops
unfolding envelope_vetoes budget_vetoes
vetoes-eq-nil l p ops = two_parts (operational_vetoes ops) _ (may-eq-nil ops) (
    two_parts (when _ "daily_loss_exhausted") _
      (when_part _ "daily_loss_exhausted" (
        iff_trans (left_iff l.max_daily_loss (consumed p)) (
          λ h k. subst (λ u. u <ℤ l.max_daily_loss) (same_use p) (h k),
          λ h k. subst (λ u. u <ℤ l.max_daily_loss) (sym (same_use p)) (h k),
        )))
      (two_parts (when _ "max_positions") _ (when_part _ "max_positions" (slots_iff l p)) (
        two_parts (when _ "zero_risk_budget") _
          (when_part _ "zero_risk_budget" (leb_ℤ-false (max_risk l p) (pos 0)))
          (two_parts (when _ "portfolio_gamma") _
            (when_part _ "portfolio_gamma" (limit_iff l.gamma_limit p.portfolio_gamma))
            (when_part _ "portfolio_delta" (limit_iff l.delta_limit (abs_ℤ p.portfolio_delta)))))))

-- An envelope in the state that its constructor leaves it in.
abbrev granted : RiskLimits → PortfolioState → Option OperationalState → Float → RiskEnvelope
granted l p ops cap = record (approved_fields l p ops cap) {
  max_defined_risk_per_trade = some (max_risk l p);
}

not_below : (x : ℤ) → pos 0 <ℤ x → ltb_ℤ x (pos 0) ≡ false
not_below x h = ground arith

granted-valid :
    (l : RiskLimits) (p : PortfolioState) (ops : Option OperationalState) (cap : Float)
    → pos 0 <ℤ max_risk l p
    → is_valid_envelope (approved_fields l p ops cap) ≡ true
unfolding is_valid_envelope
granted-valid l p ops cap rich =
    let size = size_scalar-bounds cap in simp (not_below (max_risk l p) rich, size.0, size.1)

make-eq :
    (e : RiskEnvelope)
    → is_valid_envelope e ≡ true
    → make_envelope e
      ≡ some
          (record e { max_risk_dollars = risk_of e; max_defined_risk_per_trade = some (risk_of e) })
unfolding make_envelope
make-eq e h = rw h refl

granted-eq :
    (l : RiskLimits) (p : PortfolioState) (ops : Option OperationalState) (cap : Float)
    → envelope_vetoes l p ops ≡ []
    → pos 0 <ℤ max_risk l p
    → build_risk_envelope l p ops cap ≡ some (granted l p ops cap)
unfolding build_risk_envelope
granted-eq l p ops cap h rich =
    rw ((distinct-eq-nil (envelope_vetoes l p ops)).1 h)
      (make-eq (approved_fields l p ops cap) (granted-valid l p ops cap rich))

abbrev refused : List String → String → RiskEnvelope
refused vs i = record (rejected_fields vs i) { max_defined_risk_per_trade = some (pos 0) }

refused-eq : (vs : List String) (i : String) → rejected vs i ≡ some (refused vs i)
unfolding rejected make_envelope is_valid_envelope
refused-eq [] i = refl
refused-eq (v ∷ vs) i = refl

-- The choice of the risk budget, of any two numbers in the place of its last resort.
risk_within :
    (m c s x : ℤ) (b : Bool)
    → (pos 0 <ℤ m → c <ℤ m)
    → let left : ℤ = if ltb_ℤ (pos 0) m then max_ℤ (pos 0) (m -ℤ c) else m in
      let capped : ℤ =
        if ltb_ℤ (pos 0) m then (if leb_ℤ s (pos 0) then left else min_ℤ s left) else s in
      let r : ℤ = if leb_ℤ capped (pos 0) && b then x else capped in
      (pos 0 <ℤ m → r ≤ℤ m -ℤ c) × (pos 0 <ℤ s → r ≤ℤ s)
risk_within m c s x b h = (λ k. ground (arith, -ℤ_parts m c), λ k. ground (arith, -ℤ_parts m c))

-- How far the granted risk goes.
max_risk-bounds :
    (l : RiskLimits) (p : PortfolioState)
    → (pos 0 <ℤ l.max_daily_loss → used p <ℤ l.max_daily_loss)
    → (pos 0 <ℤ l.max_daily_loss → max_risk l p ≤ℤ l.max_daily_loss -ℤ used p)
      × (pos 0 <ℤ l.max_risk_dollars → max_risk l p ≤ℤ l.max_risk_dollars)
max_risk-bounds l p h =
    let bounds =
      risk_within l.max_daily_loss (consumed p) l.max_risk_dollars _ _
        (λ k. subst (λ u. u <ℤ l.max_daily_loss) (sym (same_use p)) (h k)) in
    (λ k. subst (λ u. max_risk l p ≤ℤ l.max_daily_loss -ℤ u) (same_use p) (bounds.0 k), bounds.1)

-- What is granted: approval exactly where the trade is affordable, within these bounds.
abbrev pub Granted : RiskLimits → PortfolioState → Option OperationalState → RiskEnvelope → Type 0
Granted l p ops e =
    ((e.approved ≡ true) ↔ Affordable l p ops)
    × ((e.approved ≡ true
          → (pos 0 <ℤ e.max_risk_dollars)
            × ((pos 0 <ℤ l.max_daily_loss → e.max_risk_dollars ≤ℤ l.max_daily_loss -ℤ used p)
                × ((pos 0 <ℤ l.max_risk_dollars → e.max_risk_dollars ≤ℤ l.max_risk_dollars)
                    × (AtMost zero_f e.max_size_scalar
                        × AtMost e.max_size_scalar (real (pos 10000))))))
        × (e.approved ≡ false → (e.max_risk_dollars ≡ pos 0) × (e.max_size_scalar ≡ zero_f)))

-- Building an envelope never raises, and what comes back is approved exactly where the trade is
-- affordable. An approved envelope has a positive risk budget, which is at most what the day's
-- losses and open risk leave of the daily limit where there is one, and at most the static ceiling
-- where that is set, and its size factor is between 0 and 1. A rejected one allows no risk and no size.
pub build_risk_envelope-Affordable :
    (l : RiskLimits) (p : PortfolioState) (ops : Option OperationalState) (cap : Float)
    → (e : RiskEnvelope) × ((build_risk_envelope l p ops cap ≡ some e) × Granted l p ops e)
unfolding build_risk_envelope
build_risk_envelope-Affordable l p ops cap =
    let vs : List String = envelope_vetoes l p ops in
    let iff = vetoes-eq-nil l p ops in
    elim (Bool-cases (is_nil (distinct vs))) [
      | inl e ↦
          let clear : vs ≡ [] = (distinct-eq-nil vs).0 e in
          let can = iff.0 clear in
          let risk = can.1.1.1.0 in
          let within = max_risk-bounds l p can.1.0 in
          let size = size_scalar-bounds cap in
          (
            granted l p ops cap,
            (
              granted-eq l p ops cap clear risk,
              (
                (λ _. can, λ _. refl),
                (
                  λ _. (
                    risk,
                    (
                      within.0,
                      (
                        within.1,
                        (
                          (leb_f-true zero_f (size_scalar cap)).0 size.0,
                          (leb_f-true (size_scalar cap) (real (pos 10000))).0 size.1,
                        ),
                      ),
                    ),
                  ),
                  λ z. cc,
                ),
              ),
            ),
          )
      | inr e ↦ (
        refused (distinct vs) p.account_id,
        (
          rw e (refused-eq (distinct vs) p.account_id),
          (
            (λ z. cc, λ can. absurd (false≢true (sym e ∙ (distinct-eq-nil vs).1 (iff.1 can)))),
            (λ z. cc, λ z. (refl, refl)),
          ),
        ),
      )
    ]
