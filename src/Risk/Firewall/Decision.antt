-- ===== src/Risk/Firewall/Decision.antt =====
-- The decision that the firewall of src/spy_der/risk/firewall.py hands back.
use mathlib.Core.Option.{some-injective}
use spy_der.Prelude.{
  ℕ, ◌<◌, ◌≡◌, refl, true, false, Bool-cases, Option, none, some, List, [], ◌∷◌, String, arith, inl,
  inr, is_nil, find?, subst, sym, ap, ◌∙◌, some≢none, false≢true, if◌then◌else◌,
}
use spy_der.Prelude.Int.{ℤ, pos, negsuc, ◌*ℤ◌, ◌<ℤ◌, ltb_ℤ}
use spy_der.Prelude.Text.{str_eq}
use spy_der.Risk.Contracts.{
  PortfolioState, RiskEnvelope, RiskDecision, RiskVeto, any_hard, risk_of, is_valid_decision,
}
use spy_der.Risk.Sizing.{Decimals}
use spy_der.Risk.Checks.{FirewallContext, RiskCandidate, SystemDecision, loss_fits, max_loss_of}
use spy_der.Risk.Firewall.{
  contracts_of, vetoes_of, all_checks, expiry, nothing_selected, size_of, count_for, judged, judge,
  wanted, on_candidate, on_decision, apply_risk_firewall,
}
use spy_der.Risk.Firewall.Cleared.{loss_iff}
use spy_der.Risk.Firewall.Approval.{AccountPassed, Selected, judged_iff}
use spy_der.Risk.Firewall.Afford.{IsNumber, contracts_of-some}
use spy_der.Risk.Firewall.Sizes.{
  FloorLaw, WithinLimits, contracts_of-WithinLimits, counted_of, mul_pos,
}

-- The bounds of an approval of the candidate.
abbrev pub Bounded : RiskEnvelope → FirewallContext → RiskDecision → RiskCandidate → Type 0
Bounded e x r c =
    (0 < r.approved_contracts)
    × ((r.approved_risk_dollars ≡ max_loss_of c *ℤ pos r.approved_contracts)
        × WithinLimits e x c r.approved_contracts)

-- What every decision keeps to, whatever it is about.
abbrev pub Sound : FirewallContext → RiskDecision → Type 0
Sound x r =
    (is_valid_decision r ≡ true)
    × ((r.approved ≡ is_nil r.vetoes)
        × ((r.approved ≡ false → (r.approved_contracts ≡ 0) × (r.approved_risk_dollars ≡ pos 0))
            × (x.now < r.expires_at)))

-- What holds of whatever a call returns, from what it maps.
returned :
    (o : Option ℕ) (f : ℕ → RiskDecision) (r : RiskDecision)
    → elim o [ none ↦ none | some n ↦ some (f n) ] ≡ some r
    → (n : ℕ) × ((o ≡ some n) × (f n ≡ r))
returned none f r h = absurd (some≢none r (sym h))
returned (some n) f r h = (n, (refl, some-injective _ _ h))

refused-approved :
    (r s : RiskDecision) → r.approved ≡ false → some r ≡ some s → ¬ (s.approved ≡ true)
refused-approved r s refused h ok =
    false≢true (sym refused ∙ ap RiskDecision.approved (some-injective r s h) ∙ ok)

nonneg_mul : (loss : ℤ) (n : ℕ) → pos 0 <ℤ loss → ltb_ℤ (loss *ℤ pos n) (pos 0) ≡ false
nonneg_mul (negsuc l) n h = absurd (omega arith)
nonneg_mul (pos l) n h = rw (mul_pos l n) (ground arith)

expiry_later : (now : ℕ) (ttl : ℤ) → now < expiry now ttl
expiry_later now ttl = ground arith

no_veto : (vs : List RiskVeto) → is_nil vs ≡ true → any_hard vs ≡ false
no_veto [] h = refl
no_veto (v ∷ vs) h = cc

-- What is said of whatever a call returns, and that it returns where the scalar is a number.
abbrev pub Returns : FirewallContext → Option RiskDecision → Type 0
Returns x o =
    (IsNumber x.size_scalar → (r : RiskDecision) × (o ≡ some r))
    × ((r : RiskDecision) → o ≡ some r → Sound x r)

Returns-some : (x : FirewallContext) (r : RiskDecision) → Sound x r → Returns x (some r)
Returns-some x r sound = (λ h. (r, refl), λ s h. subst (Sound x) (some-injective r s h) sound)

nothing-Sound :
    (code : String) (e : RiskEnvelope) (x : FirewallContext) (d : SystemDecision)
    → Sound x (nothing_selected code e x d)
unfolding is_valid_decision
nothing-Sound code e x d =
    (refl, (refl, (λ z. (refl, refl), expiry_later x.now e.decision_ttl_seconds)))

module _ (ops : Decimals) where
  -- Without a portfolio a loss that fits is a contract.
  account-some :
      (e : RiskEnvelope) (x : FirewallContext) (c : RiskCandidate) (o : Option PortfolioState)
      (n : ℕ)
      → loss_fits (risk_of e) (max_loss_of c) ≡ true
      → contracts_of ops e x c o ≡ some n
      → AccountPassed e x c o n
      → 0 < n
  unfolding contracts_of
  account-some e x c none n fits same clear =
      let (size, (_, one)) = counted_of (size_of ops e x c none) (count_for e x c none) n same in
      subst (λ k. 0 < k) (sym (ap (λ b. if b then 1 else 0) fits) ∙ one) (omega arith)
  account-some e x c (some p) n fits same clear = clear.1.1

  judged-Bounded :
      FloorLaw ops
      → (d : SystemDecision) (e : RiskEnvelope) (x : FirewallContext) (c : RiskCandidate) (n : ℕ)
      → contracts_of ops e x c x.portfolio ≡ some n
      → (judged ops d e x c n).approved ≡ true
      → Bounded e x (judged ops d e x c n) c
  unfolding judged
  judged-Bounded law d e x c n same h =
      let clear = (judged_iff ops d e x c n).0 h in
      let fits = (loss_iff (risk_of e) (max_loss_of c)).1 clear.1.1.1.0.1.1.0 in
      let some_n = account-some e x c x.portfolio n fits same clear.1.1.1.1.0 in
      rw h (some_n, (refl, contracts_of-WithinLimits ops law e x c x.portfolio n fits same some_n))

  judge-Bounded :
      FloorLaw ops
      → (d : SystemDecision) (e : RiskEnvelope) (x : FirewallContext) (c : RiskCandidate)
        (r : RiskDecision)
      → judge ops d e x c ≡ some r
      → r.approved ≡ true
      → Bounded e x r c
  unfolding judge
  judge-Bounded law d e x c r h ok =
      let (n, (same, made)) =
        returned (contracts_of ops e x c x.portfolio) (judged ops d e x c) r h in
      subst (λ z. Bounded e x z c) made
        (judged-Bounded law d e x c n same (ap RiskDecision.approved made ∙ ok))

  on_candidate-Bounded :
      FloorLaw ops
      → (d : SystemDecision) (e : RiskEnvelope) (x : FirewallContext) (o : Option RiskCandidate)
        (r : RiskDecision)
      → (on_candidate ops d e x o).0 ≡ some r
      → r.approved ≡ true
      → (c : RiskCandidate) × ((o ≡ some c) × Bounded e x r c)
  unfolding on_candidate
  on_candidate-Bounded law d e x none r h ok =
      absurd (refused-approved (nothing_selected "candidate_id" e x d) r refl h ok)
  on_candidate-Bounded law d e x (some c) r h ok = (c, (refl, judge-Bounded law d e x c r h ok))

  on_decision-Bounded :
      FloorLaw ops
      → (d : SystemDecision) (e : RiskEnvelope) (universe : List RiskCandidate)
        (x : FirewallContext) (o : Option String) (r : RiskDecision)
      → (on_decision ops d e universe x o).0 ≡ some r
      → r.approved ≡ true
      → (c : RiskCandidate) × (((i : String) × ((o ≡ some i)
              × (find? (λ k. str_eq k.candidate_id i) universe ≡ some c)))
          × Bounded e x r c)
  unfolding on_decision
  on_decision-Bounded law d e universe x none r h ok =
      absurd (refused-approved (nothing_selected "order_intent" e x d) r refl h ok)
  on_decision-Bounded law d e universe x (some i) r h ok =
      let found =
        on_candidate-Bounded law d e x (find? (λ k. str_eq k.candidate_id i) universe) r h ok in
      (found.0, ((i, (refl, found.1.0)), found.1.1))

  -- Where the decimal library's floor of a quotient is at most the quotient: an approval that the
  -- firewall returns is of the candidate that the decision selects, for at least one contract, at the
  -- cost of its maximum loss per contract. Where the envelope sets a ceiling on the contracts, the
  -- request a count and the envelope a risk budget, the contracts and their cost are within them.
  pub apply_risk_firewall-Bounded :
      FloorLaw ops
      → (d : SystemDecision) (e : RiskEnvelope) (universe : List RiskCandidate)
        (x : FirewallContext) (r : RiskDecision)
      → (apply_risk_firewall ops d e universe x).0 ≡ some r
      → r.approved ≡ true
      → (c : RiskCandidate) × (Selected d universe c × Bounded e x r c)
  unfolding apply_risk_firewall
  apply_risk_firewall-Bounded law d e universe x r h ok =
      on_decision-Bounded law d e universe x (wanted d.action d.selected_candidate_id) r h ok

  judged-Sound :
      (d : SystemDecision) (e : RiskEnvelope) (x : FirewallContext) (c : RiskCandidate) (n : ℕ)
      → Sound x (judged ops d e x c n)
  unfolding judged is_valid_decision
  judged-Sound d e x c n = elim (Bool-cases (is_nil (vetoes_of (all_checks ops e x c n)))) [
    | inl h ↦
        let clear = (judged_iff ops d e x c n).0 (unfold judged in h) in
        rw h (
          rw (no_veto _ h, nonneg_mul (max_loss_of c) n clear.1.1.1.0.1.1.0.0) refl,
          (refl, (λ z. cc, expiry_later x.now e.decision_ttl_seconds)),
        )
    | inr h ↦ rw h (refl, (refl, (λ z. (refl, refl), expiry_later x.now e.decision_ttl_seconds)))
  ]

  judge-Returns :
      (d : SystemDecision) (e : RiskEnvelope) (x : FirewallContext) (c : RiskCandidate)
      → Returns x (judge ops d e x c)
  unfolding judge
  judge-Returns d e x c = (
    λ h.
        let (n, same) = contracts_of-some ops e x c x.portfolio h in
        (
          judged ops d e x c n,
          ap (λ o. elim o [ none ↦ none | some k ↦ some (judged ops d e x c k) ]) same,
        ),
    λ r h.
        let (n, (same, made)) =
          returned (contracts_of ops e x c x.portfolio) (judged ops d e x c) r h in
        subst (Sound x) made (judged-Sound d e x c n),
  )

  on_candidate-Returns :
      (d : SystemDecision) (e : RiskEnvelope) (x : FirewallContext) (o : Option RiskCandidate)
      → Returns x (on_candidate ops d e x o).0
  unfolding on_candidate
  on_candidate-Returns d e x none =
      Returns-some x (nothing_selected "candidate_id" e x d) (nothing-Sound "candidate_id" e x d)
  on_candidate-Returns d e x (some c) = judge-Returns d e x c

  on_decision-Returns :
      (d : SystemDecision) (e : RiskEnvelope) (universe : List RiskCandidate) (x : FirewallContext)
      (o : Option String)
      → Returns x (on_decision ops d e universe x o).0
  unfolding on_decision
  on_decision-Returns d e universe x none =
      Returns-some x (nothing_selected "order_intent" e x d) (nothing-Sound "order_intent" e x d)
  on_decision-Returns d e universe x (some i) =
      on_candidate-Returns d e x (find? (λ k. str_eq k.candidate_id i) universe)

  -- The firewall returns a decision whenever the context's size scalar is a number. Every decision
  -- that it returns passes the checks of its constructor; it is an approval exactly where it lists no
  -- veto; a refusal allows no contract and no money; and it expires after the time at which it is made.
  pub apply_risk_firewall-Sound :
      (d : SystemDecision) (e : RiskEnvelope) (universe : List RiskCandidate) (x : FirewallContext)
      → Returns x (apply_risk_firewall ops d e universe x).0
  unfolding apply_risk_firewall
  apply_risk_firewall-Sound d e universe x =
      on_decision-Returns d e universe x (wanted d.action d.selected_candidate_id)
