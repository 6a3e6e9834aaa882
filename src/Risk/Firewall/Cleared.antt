-- ===== src/Risk/Firewall/Cleared.antt =====
-- What the checks of src/spy_der/risk/firewall.py ask for, group by group.
use spy_der.Prelude.{
  and_iff, ℕ, ◌<◌, ◌≡◌, refl, ◌↔◌, ◌≢◌, Bool, true, false, ◌&&◌, Option, none, some, List, [], ◌∷◌,
  ◌++◌, if◌then◌else◌, String, arith, is_nil, Bool-cases, inl, inr, not, ltb,
}
use spy_der.Prelude.Int.{ℤ, pos, ◌≤ℤ◌, ◌<ℤ◌, ltb_ℤ, leb_ℤ, ◌+ℤ◌}
use spy_der.Prelude.Float.{Float, AtMost, leb_f-true}
use spy_der.Prelude.Text.{is_blank, str_eq_iff}
use spy_der.Risk.Contracts.{OperationalState, PortfolioState, RiskEnvelope, RiskCheck, risk_of}
use spy_der.Risk.Envelope.{abs_ℤ}
use spy_der.Risk.Checks.{
  FirewallContext, RiskCandidate, none_or, under_limit, count_of, envelope_checks,
  operational_checks, freshness_checks, geometry_matches, loss_fits, max_loss_of, candidate_checks,
  portfolio_checks, ask_guard, duplicate_checks, closing_checks,
}
use spy_der.Risk.Firewall.{vetoes_of}
use spy_der.Risk.Firewall.Recent.{NewTrade, new_iff, Unseen-iff, InTime, time_iff}

abbrev pub all_passed : List RiskCheck → Bool
all_passed [] = true
all_passed (c ∷ cs) = c.passed && all_passed cs

pub vetoes_of-passed : (cs : List RiskCheck) → is_nil (vetoes_of cs) ≡ all_passed cs
unfolding vetoes_of
vetoes_of-passed [] = refl
vetoes_of-passed (c ∷ cs) = ground (arith, vetoes_of-passed cs)

pub passed-append :
    (xs ys : List RiskCheck)
    → (all_passed (xs ++ ys) ≡ true) ↔ ((all_passed xs ≡ true) × (all_passed ys ≡ true))
passed-append [] ys = (λ h. (refl, h), λ h. h.1)
passed-append (x ∷ xs) ys =
    (λ h. ground (arith, passed-append xs ys), λ h. ground (arith, passed-append xs ys))

last_iff : {P : Type 0} (a : Bool) → (a ≡ true) ↔ P → ((a && true) ≡ true) ↔ P
last_iff true i = i
last_iff false i = i

abbrev pub EnvelopeClear : RiskEnvelope → Type 0
EnvelopeClear e =
    (e.deployment_permission ≡ true)
    × ((e.approved ≡ true) × ((e.lockout_active ≡ false) × (e.hard_vetoes ≡ [])))

pub envelope_checks-Clear :
    (e : RiskEnvelope) → (all_passed (envelope_checks e) ≡ true) ↔ EnvelopeClear e
envelope_checks-Clear e = ground arith

abbrev pub OperationClear : Option OperationalState → Type 0
OperationClear none = Unit
OperationClear (some o) =
    (o.market_open ≡ true)
    × ((o.data_valid ≡ true)
        × ((o.entry_locked ≡ false)
            × ((o.session_warmup ≡ false) × ((o.journal_available ≡ true) × (o.hard_vetoes ≡ [])))))

pub operational_checks-Clear :
    (o : Option OperationalState) → (all_passed (operational_checks o) ≡ true) ↔ OperationClear o
operational_checks-Clear none = (λ h. tt, λ h. refl)
operational_checks-Clear (some o) = ground arith

abbrev pub Whenever : Option Float → (Float → Type 0) → Type 0
Whenever none P = Unit
Whenever (some a) P = P a

abbrev pub FreshClear : FirewallContext → Type 0
FreshClear x =
    Whenever x.spot_age_seconds (λ a. AtMost a x.max_spot_age_seconds)
    × (Whenever x.bar_age_seconds (λ a. AtMost a x.max_bar_age_seconds)
        × Whenever x.quote_age_seconds (λ a. AtMost a x.max_quote_age_seconds))

whenever_iff :
    (o : Option Float) (p : Float → Bool) (P : Float → Type 0)
    → ((a : Float) → (p a ≡ true) ↔ P a)
    → (none_or p o ≡ true) ↔ Whenever o P
whenever_iff none p P i = (λ h. tt, λ h. refl)
whenever_iff (some a) p P i = i a

pub freshness_checks-Clear :
    (x : FirewallContext) → (all_passed (freshness_checks x) ≡ true) ↔ FreshClear x
freshness_checks-Clear x =
    and_iff _ _ (whenever_iff x.spot_age_seconds _ _ (λ a. leb_f-true a x.max_spot_age_seconds)) (
      and_iff _ _ (whenever_iff x.bar_age_seconds _ _ (λ a. leb_f-true a x.max_bar_age_seconds)) (
        last_iff _
          (whenever_iff x.quote_age_seconds _ _ (λ a. leb_f-true a x.max_quote_age_seconds))))

abbrev pub GeometryClear : Option String → String → Type 0
GeometryClear none hash = hash ≢ ""
GeometryClear (some expected) hash = hash ≡ expected

not_blank_iff : (s : String) → (not (is_blank s) ≡ true) ↔ (s ≢ "")
not_blank_iff s = (λ h e. ground (arith, str_eq_iff s ""), λ h. ground (arith, str_eq_iff s ""))

geometry_iff :
    (o : Option String) (hash : String) → (geometry_matches o hash ≡ true) ↔ GeometryClear o hash
geometry_iff none hash = not_blank_iff hash
geometry_iff (some expected) hash = str_eq_iff hash expected

abbrev pub LossClear : ℤ → ℤ → Type 0
LossClear cap loss = (pos 0 <ℤ loss) × (pos 0 <ℤ cap → loss ≤ℤ cap)

pub loss_iff : (cap loss : ℤ) → (loss_fits cap loss ≡ true) ↔ LossClear cap loss
loss_iff cap loss = (λ h. (ground arith, λ k. ground arith), λ h. ground arith)

abbrev pub CandidateClear : RiskEnvelope → FirewallContext → RiskCandidate → Type 0
CandidateClear e x c =
    (c.candidate_id ≢ "")
    × (GeometryClear x.expected_geometry_hash c.geometry_hash
        × (LossClear (risk_of e) (max_loss_of c)
            × Whenever x.fill_probability (λ p. AtMost x.min_fill_probability p)))

pub candidate_checks-Clear :
    (e : RiskEnvelope) (x : FirewallContext) (c : RiskCandidate)
    → (all_passed (candidate_checks e x c) ≡ true) ↔ CandidateClear e x c
candidate_checks-Clear e x c = and_iff _ _ (not_blank_iff c.candidate_id) (
    and_iff _ _ (geometry_iff x.expected_geometry_hash c.geometry_hash) (
      and_iff _ _ (loss_iff (risk_of e) (max_loss_of c)) (
        last_iff _
          (whenever_iff x.fill_probability _ _ (λ p. leb_f-true x.min_fill_probability p)))))

abbrev pub Room : ℕ → String → List (String × ℕ) → Type 0
Room limit k counts = 0 < limit → k ≢ "" → count_of k counts < limit

room_iff :
    (limit : ℕ) (k : String) (n : ℕ)
    → ((if ltb 0 limit && not (is_blank k) then ltb n limit else true) ≡ true)
      ↔ (0 < limit → k ≢ "" → n < limit)
room_iff limit k n = elim (Bool-cases (is_blank k)) [
  | inl b ↦ (λ h p q. absurd (q ((str_eq_iff k "").0 b)), λ h. ground arith)
  | inr b ↦ (λ h p q. ground arith, λ h. part (λ p. h p (λ e. ground (arith, str_eq_iff k ""))))
]
  where
    part :
        (0 < limit → n < limit)
        → (if ltb 0 limit && not (is_blank k) then ltb n limit else true) ≡ true
    part g = ground arith

abbrev pub Under : Option ℤ → ℤ → Type 0
Under none v = Unit
Under (some m) v = pos 0 <ℤ m → v ≤ℤ m

Under-iff : (m : Option ℤ) (v : ℤ) → (under_limit m v ≡ true) ↔ Under m v
Under-iff none v = (λ h. tt, λ h. refl)
Under-iff (some m) v = (λ h k. ground arith, λ h. ground arith)

-- What the account's state leaves room for.
abbrev pub PortfolioClear : RiskEnvelope → RiskCandidate → PortfolioState → Type 0
PortfolioClear e c p =
    (pos 0 <ℤ p.equity)
    × ((pos 0 <ℤ e.max_daily_loss → max_loss_of c ≤ℤ e.remaining_daily_loss_budget)
        × ((pos 0 <ℤ e.max_daily_loss → p.open_risk_dollars +ℤ max_loss_of c ≤ℤ e.max_daily_loss)
            × ((0 < e.max_positions → p.open_positions < e.max_positions)
                × (Room e.max_family_positions c.family p.family_counts
                    × (Room e.max_expiration_positions c.expiration p.expiration_counts
                        × (Under e.delta_limit (abs_ℤ p.portfolio_delta)
                            × Under e.gamma_limit (p.portfolio_gamma +ℤ abs_ℤ c.gamma)))))))

limited_iff :
    (m a b : ℤ) → ((if ltb_ℤ (pos 0) m then leb_ℤ a b else true) ≡ true) ↔ (pos 0 <ℤ m → a ≤ℤ b)
limited_iff m a b = (λ h k. ground arith, λ h. ground arith)

slots_iff : (m n : ℕ) → ((if ltb 0 m then ltb n m else true) ≡ true) ↔ (0 < m → n < m)
slots_iff m n = (λ h k. ground arith, λ h. ground arith)

positive_iff : (a : ℤ) → (ltb_ℤ (pos 0) a ≡ true) ↔ (pos 0 <ℤ a)
positive_iff a = (λ h. ground arith, λ h. ground arith)

pub portfolio_checks-Clear :
    (e : RiskEnvelope) (c : RiskCandidate) (p : PortfolioState)
    → (all_passed (portfolio_checks e c (some p)) ≡ true) ↔ PortfolioClear e c p
portfolio_checks-Clear e c p = and_iff _ _ (positive_iff p.equity) (
    and_iff _ _ (limited_iff e.max_daily_loss (max_loss_of c) e.remaining_daily_loss_budget) (
      and_iff _ _
        (limited_iff e.max_daily_loss (p.open_risk_dollars +ℤ max_loss_of c) e.max_daily_loss)
        (and_iff _ _ (slots_iff e.max_positions p.open_positions) (
          and_iff _ _ (room_iff e.max_family_positions c.family (count_of c.family p.family_counts))
            (and_iff _ _
              (room_iff e.max_expiration_positions c.expiration
                (count_of c.expiration p.expiration_counts))
              (and_iff _ _ (Under-iff e.delta_limit (abs_ℤ p.portfolio_delta))
                (last_iff _ (Under-iff e.gamma_limit (p.portfolio_gamma +ℤ abs_ℤ c.gamma)))))))))

pub duplicate_checks-Clear :
    (c : RiskCandidate) (x : FirewallContext) (p : PortfolioState)
    → (all_passed (duplicate_checks c x (some p)).0 ≡ true) ↔ NewTrade c x p
duplicate_checks-Clear c x p = and_iff _ _ (new_iff c p) (
    last_iff (ask_guard c p.account_id x.now x.duplicate_guard).0
      (Unseen-iff c p.account_id x.now x.duplicate_guard))

pub closing_checks-Clear :
    (e : RiskEnvelope) (x : FirewallContext)
    → (all_passed (closing_checks e x) ≡ true)
      ↔ (InTime e x x.decided_at × (x.exit_policy_approved ≡ true))
closing_checks-Clear e x =
    and_iff _ _ (time_iff e x x.decided_at) (last_iff x.exit_policy_approved (λ h. h, λ h. h))
