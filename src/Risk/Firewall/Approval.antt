-- ===== src/Risk/Firewall/Approval.antt =====
-- When the firewall of src/spy_der/risk/firewall.py approves.
use spy_der.Prelude.{
  ◌<◌, ◌≡◌, refl, ◌↔◌, true, Option, none, some, List, ◌++◌, String, find?, ◌∙◌, sym, subst, [],
  ltb, arith, ℕ, ap, ◌&&◌, some≢none, false≢true,
}
use mathlib.Core.Option.{some-injective}
use spy_der.Prelude.Text.{str_eq}
use spy_der.Risk.Contracts.{PortfolioState, RiskEnvelope, RiskCheck, RiskDecision}
use spy_der.Prelude.Int.{pos, ◌<ℤ◌}
use spy_der.Risk.Sizing.{Decimals}
use spy_der.Risk.Checks.{
  FirewallContext, RiskCandidate, SystemDecision, envelope_checks, operational_checks,
  freshness_checks, candidate_checks, portfolio_checks, duplicate_checks, closing_checks,
  max_loss_of,
}
use spy_der.Risk.Firewall.{
  contracts_of, sizing_checks, account_checks, all_checks, judged, judge, wanted, on_candidate,
  on_decision, apply_risk_firewall,
}
use spy_der.Risk.Firewall.Cleared.{
  all_passed, vetoes_of-passed, passed-append, EnvelopeClear, envelope_checks-Clear, OperationClear,
  operational_checks-Clear, FreshClear, freshness_checks-Clear, CandidateClear,
  candidate_checks-Clear, PortfolioClear, portfolio_checks-Clear, duplicate_checks-Clear,
  closing_checks-Clear,
}
use spy_der.Risk.Firewall.Recent.{NewTrade, InTime}
use spy_der.Risk.Firewall.Afford.{Affordable, contracts_of-Affordable}

joined :
    {P Q : Type 0} (xs ys : List RiskCheck)
    → (all_passed xs ≡ true) ↔ P
    → (all_passed ys ≡ true) ↔ Q
    → (all_passed (xs ++ ys) ≡ true) ↔ (P × Q)
joined xs ys i j = (
  λ h. let k = (passed-append xs ys).0 h in (i.0 k.0, j.0 k.1),
  λ h. (passed-append xs ys).1 (i.1 h.0, j.1 h.1),
)

-- The candidate of the universe that the decision selects.
abbrev pub Selected : SystemDecision → List RiskCandidate → RiskCandidate → Type 0
Selected d universe c =
    (i : String) × ((wanted d.action d.selected_candidate_id ≡ some i)
      × (find? (λ k. str_eq k.candidate_id i) universe ≡ some c))

-- What the checks ask of the account, where its state is given, for a count of contracts.
abbrev pub AccountPassed :
    RiskEnvelope → FirewallContext → RiskCandidate → Option PortfolioState → ℕ → Type 0
AccountPassed e x c none n = Unit
AccountPassed e x c (some p) n = PortfolioClear e c p × (NewTrade c x p × (0 < n))

-- What the checks ask that does not depend on the account.
abbrev Passed : RiskEnvelope → FirewallContext → RiskCandidate → Type 0 → Type 0
Passed e x c A =
    EnvelopeClear e
    × (OperationClear x.operational
        × (FreshClear x
            × (CandidateClear e x c
                × (A × (InTime e x x.decided_at × (x.exit_policy_approved ≡ true))))))

sized_iff : (n : ℕ) → ((ltb 0 n && true) ≡ true) ↔ (0 < n)
sized_iff n = (λ h. ground arith, λ h. ground arith)

-- An approval among the results of a call.
abbrev pub Approves : Option RiskDecision → Type 0
Approves o = (r : RiskDecision) × ((o ≡ some r) × (r.approved ≡ true))

Approves-map :
    (o : Option ℕ) (f : ℕ → RiskDecision)
    → Approves (elim o [ none ↦ none | some n ↦ some (f n) ])
      ↔ ((n : ℕ) × ((o ≡ some n) × ((f n).approved ≡ true)))
Approves-map none f =
    (λ (r, (h, _)). absurd (some≢none r (sym h)), λ (n, (h, _)). absurd (some≢none n (sym h)))
Approves-map (some k) f = (
  λ (r, (h, ok)). (k, (refl, ap RiskDecision.approved (some-injective _ _ h) ∙ ok)),
  λ (n, (h, ok)). (f k, (refl, ap (λ z. (f z).approved) (some-injective _ _ h) ∙ ok)),
)

module _ (ops : Decimals) where
  -- What is asked of the account: that it affords the trade and, where its state is given, that it has
  -- room for it and does not hold it already.
  abbrev pub AccountClear :
      RiskEnvelope → FirewallContext → RiskCandidate → Option PortfolioState → Type 0
  AccountClear e x c none = Affordable ops e x c none
  AccountClear e x c (some p) =
      PortfolioClear e c p × (NewTrade c x p × Affordable ops e x c (some p))

  abbrev pub Clear : RiskEnvelope → FirewallContext → RiskCandidate → Type 0
  Clear e x c = Passed e x c (AccountClear e x c x.portfolio)

  account_iff :
      (e : RiskEnvelope) (x : FirewallContext) (c : RiskCandidate) (o : Option PortfolioState)
      (n : ℕ)
      → (all_passed (account_checks ops e x c o n) ≡ true)
        ↔ (AccountPassed e x c o n × (InTime e x x.decided_at × (x.exit_policy_approved ≡ true)))
  account_iff e x c none n =
      let i = joined (closing_checks e x) [] (closing_checks-Clear e x) (λ h. tt, λ h. refl) in
      (λ h. (tt, (i.0 h).0), λ h. i.1 (h.1, tt))
  account_iff e x c (some p) n =
      let last =
        joined (closing_checks e x) (sizing_checks ops n (some p)) (closing_checks-Clear e x)
          (sized_iff n) in
      let middle =
        joined (duplicate_checks c x (some p)).0
          (closing_checks e x ++ sizing_checks ops n (some p)) (duplicate_checks-Clear c x p)
          last in
      let i =
        joined (portfolio_checks e c (some p))
          ((duplicate_checks c x (some p)).0
            ++ (closing_checks e x ++ sizing_checks ops n (some p)))
          (portfolio_checks-Clear e c p) middle in
      (
        λ h. let k = i.0 h in ((k.0, (k.1.0, k.1.1.1)), k.1.1.0),
        λ h. i.1 (h.0.0, (h.0.1.0, (h.1, h.0.1.1))),
      )

  pub judged_iff :
      (d : SystemDecision) (e : RiskEnvelope) (x : FirewallContext) (c : RiskCandidate) (n : ℕ)
      → ((judged ops d e x c n).approved ≡ true) ↔ Passed e x c (AccountPassed e x c x.portfolio n)
  unfolding judged all_checks
  judged_iff d e x c n =
      let same = vetoes_of-passed (all_checks ops e x c n) in
      let account = account_checks ops e x c x.portfolio n in
      let own =
        joined (candidate_checks e x c) account (candidate_checks-Clear e x c)
          (account_iff e x c x.portfolio n) in
      let ages =
        joined (freshness_checks x) (candidate_checks e x c ++ account) (freshness_checks-Clear x)
          own in
      let operation =
        joined (operational_checks x.operational)
          (freshness_checks x ++ (candidate_checks e x c ++ account))
          (operational_checks-Clear x.operational) ages in
      let i =
        joined (envelope_checks e)
          (operational_checks x.operational
            ++ (freshness_checks x ++ (candidate_checks e x c ++ account)))
          (envelope_checks-Clear e) operation in
      (λ h. i.0 (sym same ∙ h), λ h. same ∙ i.1 h)

  -- The checks and the sizing together.
  account-both :
      (e : RiskEnvelope) (x : FirewallContext) (c : RiskCandidate) (o : Option PortfolioState)
      → pos 0 <ℤ max_loss_of c
      → ((n : ℕ) × ((contracts_of ops e x c o ≡ some n) × AccountPassed e x c o n))
        ↔ AccountClear e x c o
  account-both e x c none l =
      let i = contracts_of-Affordable ops e x c none l tt in (λ h. i.0 h, λ h. i.1 h)
  account-both e x c (some p) l = (
    λ (n, (same, (room, (new, some_n)))).
        (room, (new, (contracts_of-Affordable ops e x c (some p) l room.0).0 (n, (same, some_n)))),
    λ (room, (new, money)).
        let (n, (same, some_n)) = (contracts_of-Affordable ops e x c (some p) l room.0).1 money in
        (n, (same, (room, (new, some_n)))),
  )

  judge_cases :
      (d : SystemDecision) (e : RiskEnvelope) (x : FirewallContext) (c : RiskCandidate)
      → Approves (judge ops d e x c) ↔ (
          (n : ℕ) × ((contracts_of ops e x c x.portfolio ≡ some n)
            × ((judged ops d e x c n).approved ≡ true)))
  unfolding judge
  judge_cases d e x c = Approves-map (contracts_of ops e x c x.portfolio) (judged ops d e x c)

  pub judge_iff :
      (d : SystemDecision) (e : RiskEnvelope) (x : FirewallContext) (c : RiskCandidate)
      → Approves (judge ops d e x c) ↔ Clear e x c
  judge_iff d e x c =
      let i = judge_cases d e x c in
      (
        λ h.
            let (n, (same, ok)) = i.0 h in
            let (env, (op, (ages, (own, (account, rest))))) = (judged_iff d e x c n).0 ok in
            let money = (account-both e x c x.portfolio own.1.1.0.0).0 (n, (same, account)) in
            (env, (op, (ages, (own, (money, rest))))),
        λ (env, (op, (ages, (own, (money, rest))))).
            let (n, (same, account)) = (account-both e x c x.portfolio own.1.1.0.0).1 money in
            i.1 (n, (same, (judged_iff d e x c n).1 (env, (op, (ages, (own, (account, rest))))))),
      )

  found_iff :
      (d : SystemDecision) (e : RiskEnvelope) (x : FirewallContext) (o : Option RiskCandidate)
      → Approves (on_candidate ops d e x o).0 ↔ ((c : RiskCandidate) × ((o ≡ some c) × Clear e x c))
  unfolding on_candidate
  found_iff d e x none = (
    λ (r, (h, ok)). absurd (false≢true (ap RiskDecision.approved (some-injective _ _ h) ∙ ok)),
    λ (c, (h, _)). absurd (some≢none c (sym h)),
  )
  found_iff d e x (some c) = (
    λ h. (c, (refl, (judge_iff d e x c).0 h)),
    λ h. (judge_iff d e x c).1 (subst (Clear e x) (sym (some-injective _ _ h.1.0)) h.1.1),
  )

  wanted_iff :
      (d : SystemDecision) (e : RiskEnvelope) (universe : List RiskCandidate) (x : FirewallContext)
      (o : Option String)
      → Approves (on_decision ops d e universe x o).0 ↔ (
          (c : RiskCandidate) × (((i : String) × ((o ≡ some i)
                × (find? (λ k. str_eq k.candidate_id i) universe ≡ some c)))
            × Clear e x c))
  unfolding on_decision
  wanted_iff d e universe x none = (
    λ (r, (h, ok)). absurd (false≢true (ap RiskDecision.approved (some-injective _ _ h) ∙ ok)),
    λ (c, ((i, (h, _)), _)). absurd (some≢none i (sym h)),
  )
  wanted_iff d e universe x (some i) =
      let found = found_iff d e x (find? (λ k. str_eq k.candidate_id i) universe) in
      (
        λ h. let (c, (f, clear)) = found.0 h in (c, ((i, (refl, f)), clear)),
        λ (c, ((j, (same, f)), clear)). found.1 (
          c,
          (
            ap (λ s. find? (λ k. str_eq k.candidate_id s) universe) (some-injective _ _ same) ∙ f,
            clear,
          ),
        ),
      )

  -- The firewall returns an approval exactly where the decision selects a candidate of the universe
  -- for which the envelope, the operation, the ages of the data, the candidate itself, the decision's
  -- age and the exit policy are in order, the money pays for a contract and, where the account's state
  -- is given, it has room for the trade, holds no equivalent position and has not been sent it within
  -- the guard's time to live. Without a state the money asks only for a size scalar that is a number,
  -- and that where the cap is positive.
  pub apply_risk_firewall-Clear :
      (d : SystemDecision) (e : RiskEnvelope) (universe : List RiskCandidate) (x : FirewallContext)
      → Approves (apply_risk_firewall ops d e universe x).0
        ↔ ((c : RiskCandidate) × (Selected d universe c × Clear e x c))
  unfolding apply_risk_firewall
  apply_risk_firewall-Clear d e universe x =
      wanted_iff d e universe x (wanted d.action d.selected_candidate_id)
