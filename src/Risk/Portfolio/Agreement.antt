-- ===== src/Risk/Portfolio/Agreement.antt =====
-- The tracker's own check in src/spy_der/risk/portfolio.py beside the firewall's checks on the state
-- that the tracker exports.
use mathlib.Core.Option.{some-injective}
use spy_der.Prelude.{
  true≢false, ℕ, ◌<◌, String, ◌≡◌, refl, ◌↔◌, ◌≢◌, Bool, true, false, ◌&&◌, Bool-cases, inl, inr,
  Option, none, some, List, ◌++◌, arith, is_nil, when, ltb, leb, length, sym, subst, some≢none,
  if◌then◌else◌,
}
use spy_der.Prelude.Int.{ℤ, pos, ◌+ℤ◌, ◌≤ℤ◌, ◌<ℤ◌, ltb_ℤ}
use spy_der.Prelude.Text.{is_blank, str_eq_iff, str_eq_ne}
use spy_der.Risk.Contracts.{PortfolioState, RiskEnvelope, is_valid_portfolio}
use spy_der.Risk.Envelope.{abs_ℤ}
use spy_der.Risk.Checks.{RiskCandidate, max_loss_of, count_of}
use spy_der.Risk.Firewall.Cleared.{Room, Under, PortfolioClear}
use spy_der.Risk.Portfolio.{
  OpenPosition, PortfolioTracker, TrackerVeto, above_gamma, crowded, count_where, total, vetoes_in,
  check, state_fields, to_portfolio_state, maybe_reset,
}
use spy_der.Risk.Portfolio.Counts.{count_of-sorted}

-- What the tracker asks of a candidate.
abbrev pub Fits : RiskCandidate → PortfolioTracker → Type 0
Fits c t =
    (pos 0 <ℤ t.limits.max_daily_loss
      → t.daily_committed_loss +ℤ max_loss_of c ≤ℤ t.limits.max_daily_loss)
    × ((0 < t.limits.max_positions → length t.positions < t.limits.max_positions)
        × (Under t.limits.gamma_limit (total (λ p. p.gamma) t.positions +ℤ abs_ℤ c.gamma)
            × ((0 < t.limits.max_family_positions
                  → c.family ≢ ""
                  → count_where (λ p. p.family) c.family t.positions
                    < t.limits.max_family_positions)
                × (0 < t.limits.max_expiration_positions
                    → c.expiration ≢ ""
                    → count_where (λ p. p.expiration) c.expiration t.positions
                      < t.limits.max_expiration_positions))))

no_veto :
    {P Q : Type 0} (b : Bool) (v : TrackerVeto) (vs : List TrackerVeto)
    → (b ≡ false) ↔ P
    → (is_nil vs ≡ true) ↔ Q
    → (is_nil (when b v ++ vs) ≡ true) ↔ (P × Q)
no_veto true v vs i j = (λ h. cc, λ h. absurd (true≢false (i.1 h.0)))
no_veto false v vs i j = (λ h. (i.0 refl, j.0 h), λ h. j.1 h.1)

last_veto :
    {P : Type 0} (b : Bool) (v : TrackerVeto) → (b ≡ false) ↔ P → (is_nil (when b v) ≡ true) ↔ P
last_veto true v i = (λ h. cc, λ h. absurd (true≢false (i.1 h)))
last_veto false v i = (λ h. i.0 refl, λ h. refl)

loss_iff : (m a : ℤ) → ((ltb_ℤ (pos 0) m && ltb_ℤ m a) ≡ false) ↔ (pos 0 <ℤ m → a ≤ℤ m)
loss_iff m a = (λ h k. ground arith, λ h. ground arith)

slots_iff : (m n : ℕ) → ((ltb 0 m && leb m n) ≡ false) ↔ (0 < m → n < m)
slots_iff m n = (λ h k. ground arith, λ h. ground arith)

gamma_iff : (m : Option ℤ) (g : ℤ) → (above_gamma m g ≡ false) ↔ Under m g
gamma_iff none g = (λ h. tt, λ h. refl)
gamma_iff (some m) g = loss_iff m g

crowded_iff : (m : ℕ) (k : String) (n : ℕ) → (crowded m k n ≡ false) ↔ (0 < m → k ≢ "" → n < m)
crowded_iff m k n = elim (Bool-cases (is_blank k)) [
  | inl b ↦ (λ h p q. absurd (q ((str_eq_iff k "").0 b)), λ h. ground arith)
  | inr b ↦ (λ h p q. ground arith, λ h. part (λ p. h p (λ e. ground (arith, str_eq_iff k ""))))
]
  where
    part : (0 < m → n < m) → crowded m k n ≡ false
    part g = ground arith

pub vetoes_in-Fits :
    (c : RiskCandidate) (t : PortfolioTracker) → (is_nil (vetoes_in c t) ≡ true) ↔ Fits c t
unfolding vetoes_in
vetoes_in-Fits c t =
    no_veto _ TrackerVeto.daily_loss _
      (loss_iff t.limits.max_daily_loss (t.daily_committed_loss +ℤ max_loss_of c))
      (no_veto _ TrackerVeto.max_positions _ (slots_iff t.limits.max_positions (length t.positions))
        (no_veto _ TrackerVeto.max_gamma _
          (gamma_iff t.limits.gamma_limit (total (λ p. p.gamma) t.positions +ℤ abs_ℤ c.gamma))
          (no_veto _ TrackerVeto.family_concentration _
            (crowded_iff t.limits.max_family_positions c.family _)
            (last_veto _ TrackerVeto.expiration_concentration
              (crowded_iff t.limits.max_expiration_positions c.expiration _)))))

-- The envelope under the tracker's limits.
abbrev pub carrying : PortfolioTracker → RiskEnvelope → RiskEnvelope
carrying t e = record e {
  max_daily_loss = t.limits.max_daily_loss;
  max_positions = t.limits.max_positions;
  gamma_limit = t.limits.gamma_limit;
  max_family_positions = t.limits.max_family_positions;
  max_expiration_positions = t.limits.max_expiration_positions;
}

-- What the firewall asks for beyond the tracker.
abbrev pub Beyond : RiskEnvelope → RiskCandidate → PortfolioTracker → ℤ → Type 0
Beyond e c t equity =
    (pos 0 <ℤ equity)
    × ((pos 0 <ℤ t.limits.max_daily_loss → max_loss_of c ≤ℤ e.remaining_daily_loss_budget)
        × Under e.delta_limit (abs_ℤ (total (λ p. p.delta) t.positions)))

module _ (content_hash : String → String → List String → ℤ → String) where
  rooms :
      (m : ℕ) (k : String) (f : OpenPosition → String) (ps : List OpenPosition)
      (counts : List (String × ℕ))
      → (k ≢ "" → count_of k counts ≡ count_where f k ps)
      → Room m k counts ↔ (0 < m → k ≢ "" → count_where f k ps < m)
  rooms m k f ps counts same = (
    λ h p q. subst (λ n. n < m) (same q) (h p q),
    λ h p q. subst (λ n. n < m) (sym (same q)) (h p q),
  )

  fields-PortfolioClear :
      (c : RiskCandidate) (account_id : String) (equity cash : ℤ) (t : PortfolioTracker)
      (e : RiskEnvelope)
      → PortfolioClear (carrying t e) c (state_fields content_hash account_id equity cash t)
        ↔ ((is_nil (vetoes_in c t) ≡ true) × Beyond e c t equity)
  fields-PortfolioClear c account_id equity cash t e =
      let fits = vetoes_in-Fits c t in
      let families =
        rooms t.limits.max_family_positions c.family (λ p. p.family) t.positions _
          (count_of-sorted (λ p. p.family) c.family t.positions) in
      let expirations =
        rooms t.limits.max_expiration_positions c.expiration (λ p. p.expiration) t.positions _
          (count_of-sorted (λ p. p.expiration) c.expiration t.positions) in
      (
        λ (some_equity, (left, (risk, (slots, (fam, (exp, (delta, gamma))))))). (
          fits.1 (risk, (slots, (gamma, (families.0 fam, expirations.0 exp)))),
          (some_equity, (left, delta)),
        ),
        λ (passed, (some_equity, (left, delta))).
            let (risk, (slots, (gamma, (fam, exp)))) = fits.0 passed in
            (
              some_equity,
              (left, (risk, (slots, (families.1 fam, (expirations.1 exp, (delta, gamma)))))),
            ),
      )

  exported-fields :
      (account_id : String) (equity cash : ℤ) (t : PortfolioTracker) (p : PortfolioState)
      → to_portfolio_state content_hash account_id equity cash t ≡ some p
      → state_fields content_hash account_id equity cash t ≡ p
  unfolding to_portfolio_state
  exported-fields account_id equity cash t p h =
      chosen (is_valid_portfolio (state_fields content_hash account_id equity cash t))
        (state_fields content_hash account_id equity cash t) h
    where
      chosen :
          (b : Bool) (s : PortfolioState) {q : PortfolioState}
          → (if b then some s else none) ≡ some q
          → s ≡ q
      chosen true s {q} same = some-injective s q same
      chosen false s {q} same = absurd (some≢none q (sym same))

  exported-valid :
      (account_id : String) (equity cash : ℤ) (t : PortfolioTracker)
      → account_id ≢ ""
      → pos 0 ≤ℤ equity
      → pos 0 ≤ℤ cash
      → pos 0 ≤ℤ t.daily_committed_loss
      → (p : PortfolioState) × (to_portfolio_state content_hash account_id equity cash t ≡ some p)
  unfolding to_portfolio_state is_valid_portfolio
  exported-valid account_id equity cash t named rich paid committed =
      let a : ltb_ℤ equity (pos 0) ≡ false = ground arith in
      let b : ltb_ℤ cash (pos 0) ≡ false = ground arith in
      let k : ltb_ℤ t.daily_committed_loss (pos 0) ≡ false = ground arith in
      (
        state_fields content_hash account_id equity cash t,
        rw (str_eq_ne account_id "" named, a, b, k) refl,
      )

  -- A tracker exports a state for a named account whose equity and cash are not negative, where the
  -- committed loss is not negative. The firewall clears a candidate on a state that a tracker exports,
  -- under the tracker's limits, exactly where the tracker's own check passes and there is equity, the
  -- candidate fits into the rest of the daily budget where there is a daily limit, and the book's delta
  -- is within its limit.
  pub check-PortfolioClear :
      (c : RiskCandidate) (session account_id : String) (equity cash : ℤ) (t : PortfolioTracker)
      (e : RiskEnvelope)
      → let (passed, vetoes, t') = check c session t in
        let exported = to_portfolio_state content_hash account_id equity cash t' in
        (account_id ≢ ""
          → pos 0 ≤ℤ equity
          → pos 0 ≤ℤ cash
          → pos 0 ≤ℤ t'.daily_committed_loss
          → (p : PortfolioState) × (exported ≡ some p))
        × ((p : PortfolioState)
            → exported ≡ some p
            → PortfolioClear (carrying t' e) c p ↔ ((passed ≡ true) × Beyond e c t' equity))
  unfolding check
  check-PortfolioClear c session account_id equity cash t e =
      let t' : PortfolioTracker = maybe_reset session t in
      (
        exported-valid account_id equity cash t',
        λ p h.
            subst
              (λ z.
                PortfolioClear (carrying t' e) c z
                ↔ ((is_nil (vetoes_in c t') ≡ true) × Beyond e c t' equity))
              (exported-fields account_id equity cash t' p h)
              (fields-PortfolioClear c account_id equity cash t' e),
      )
