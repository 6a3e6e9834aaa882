-- ===== src/Risk/Portfolio/Limits.antt =====
-- The limits that a tracker of src/spy_der/risk/portfolio.py keeps, however it is used.
use spy_der.Prelude.{
  ℕ, suc, ◌<◌, ◌≤◌, String, ◌≡◌, refl, ap, ◌∙◌, ◌≢◌, true, Bool-cases, inl, inr, Option, none, some,
  List, [], ◌∷◌, ◌++◌, if◌then◌else◌, arith, length, length-append, max, subst, sym,
}
use spy_der.Prelude.Int.{ℤ, pos, negsuc, ◌+ℤ◌, ◌*ℤ◌, ◌≤ℤ◌, ◌<ℤ◌, pos_part}
use spy_der.Prelude.Text.{str_eq, str_eq_iff}
use spy_der.Risk.Checks.{RiskCandidate, max_loss_of}
use spy_der.Risk.Firewall.Cleared.{Under}
use spy_der.Risk.Portfolio.{
  OpenPosition, PortfolioTracker, count_where, total_from, total, maybe_reset, check, open_position,
  record_trade, close_positions, record_realized_pnl,
}
use spy_der.Risk.Portfolio.Agreement.{Fits, vetoes_in-Fits}

-- One use of a tracker, with at most `most` contracts in a trade: a check, a trade whose check passed,
-- the end of all positions, or a realized result.
infix 50 ◌⊢◌⟶◌
pub data ◌⊢◌⟶◌ (most : ℤ) : PortfolioTracker → PortfolioTracker → Type 0 where
  looked :
      (c : RiskCandidate) (session : String) {t : PortfolioTracker}
      → most ⊢ t ⟶ (check c session t).2
  traded :
      (c : RiskCandidate) (session : String) (contracts : ℤ) {t : PortfolioTracker}
      → (check c session t).0 ≡ true
      → contracts ≤ℤ most
      → most ⊢ t ⟶ record_trade c session contracts (check c session t).2
  closed : {t : PortfolioTracker} → most ⊢ t ⟶ close_positions t
  realized :
      (pnl : ℤ) (session : String) {t : PortfolioTracker}
      → most ⊢ t ⟶ record_realized_pnl pnl session t

infix 50 ◌⊢◌⟶*◌
pub data ◌⊢◌⟶*◌ (most : ℤ) : PortfolioTracker → PortfolioTracker → Type 0 where
  done : {t : PortfolioTracker} → most ⊢ t ⟶* t
  next : {s t u : PortfolioTracker} → most ⊢ s ⟶ t → most ⊢ t ⟶* u → most ⊢ s ⟶* u

abbrev AtMostEach : ℕ → (OpenPosition → String) → List OpenPosition → Type 0
AtMostEach m f ps = (k : String) → 0 < m → k ≢ "" → count_where f k ps ≤ m

-- The book is within every limit that is set, and so is the day's committed loss where trades are of
-- single contracts.
abbrev pub Within : ℤ → PortfolioTracker → Type 0
Within most t =
    (most ≤ℤ pos 1
      → pos 0 <ℤ t.limits.max_daily_loss
      → t.daily_committed_loss ≤ℤ t.limits.max_daily_loss)
    × ((0 < t.limits.max_positions → length t.positions ≤ t.limits.max_positions)
        × (Under t.limits.gamma_limit (total (λ p. p.gamma) t.positions)
            × (AtMostEach t.limits.max_family_positions (λ p. p.family) t.positions
                × AtMostEach t.limits.max_expiration_positions (λ p. p.expiration) t.positions)))

Under-zero : (m : Option ℤ) → Under m (pos 0)
Under-zero none = tt
Under-zero (some m) = λ h. omega arith

emptied-Within :
    (most : ℤ) (t : PortfolioTracker) (session : String) (loss pnl : ℤ)
    → (most ≤ℤ pos 1 → pos 0 <ℤ t.limits.max_daily_loss → loss ≤ℤ t.limits.max_daily_loss)
    → Within most (record t {
      session = session;
      positions = [];
      daily_committed_loss = loss;
      daily_realized_pnl = pnl;
    })
unfolding total_from count_where
emptied-Within most t session loss pnl h = (
  h,
  (
    λ k. omega arith,
    (Under-zero t.limits.gamma_limit, (λ k p q. omega arith, λ k p q. omega arith)),
  ),
)

maybe_reset-Within :
    (most : ℤ) (session : String) (t : PortfolioTracker)
    → Within most t
    → Within most (maybe_reset session t)
unfolding maybe_reset
maybe_reset-Within most session t h = elim (Bool-cases (str_eq session t.session)) [
  | inl e ↦ rw e h
  | inr e ↦ rw e (emptied-Within most t session (pos 0) (pos 0) (λ a b. omega arith))
]

maybe_reset-twice :
    (session : String) (t : PortfolioTracker)
    → maybe_reset session (maybe_reset session t) ≡ maybe_reset session t
unfolding maybe_reset
maybe_reset-twice session t = elim (Bool-cases (str_eq session t.session)) [
  | inl e ↦ rw (e, e) refl
  | inr e ↦ rw (e, (str_eq_iff session session).1 refl) refl
]

total_from-last :
    (f : OpenPosition → ℤ) (p : OpenPosition) (z : ℤ) (ps : List OpenPosition)
    → total_from z f (ps ++ (p ∷ [])) ≡ total_from z f ps +ℤ f p
unfolding total_from
total_from-last f p z [] = refl
total_from-last f p z (q ∷ ps) = total_from-last f p (z +ℤ f q) ps

count_where-last :
    (f : OpenPosition → String) (k : String) (p : OpenPosition) (ps : List OpenPosition)
    → count_where f k (ps ++ (p ∷ []))
      ≡ (if str_eq (f p) k then suc (count_where f k ps) else count_where f k ps)
unfolding count_where
count_where-last f k p [] = refl
count_where-last f k p (q ∷ ps) = ground (arith, count_where-last f k p ps)

abbrev added : RiskCandidate → ℤ → PortfolioTracker → PortfolioTracker
added c contracts t = record t {
  positions = t.positions ++ (open_position c contracts ∷ []);
  daily_committed_loss =
      t.daily_committed_loss +ℤ max_loss_of c *ℤ pos (open_position c contracts).contracts;
}

mul_one : (loss : ℤ) → loss *ℤ pos 1 ≡ loss
unfolding ◌*ℤ◌
mul_one (pos l) = ground arith
mul_one (negsuc l) = ground arith

one_most : (n most : ℤ) → n ≤ℤ most → most ≤ℤ pos 1 → max 1 (pos_part n) ≡ 1
one_most (pos n) most h k = ground arith
one_most (negsuc n) most h k = ground arith

single : (loss n most : ℤ) → n ≤ℤ most → most ≤ℤ pos 1 → loss *ℤ pos (max 1 (pos_part n)) ≡ loss
single loss n most h k =
    let one : max 1 (pos_part n) ≡ 1 = one_most n most h k in
    ap (λ j. loss *ℤ pos j) one ∙ mul_one loss

last-AtMostEach :
    (m : ℕ) (f : OpenPosition → String) (p : OpenPosition) (ps : List OpenPosition)
    → (0 < m → f p ≢ "" → count_where f (f p) ps < m)
    → AtMostEach m f ps
    → AtMostEach m f (ps ++ (p ∷ []))
last-AtMostEach m f p ps room h k some_m ne = elim (Bool-cases (str_eq (f p) k)) [
  | inl e ↦
      let same : f p ≡ k = (str_eq_iff (f p) k).0 e in
      let free : count_where f k ps < m =
        subst (λ j. count_where f j ps < m) same (room some_m (λ b. ne (sym same ∙ b))) in
      rw (count_where-last f k p ps, e) (omega arith)
  | inr e ↦ rw (count_where-last f k p ps, e) (h k some_m ne)
]

added-Within :
    (most : ℤ) (c : RiskCandidate) (contracts : ℤ) (t : PortfolioTracker)
    → Fits c t
    → contracts ≤ℤ most
    → Within most t
    → Within most (added c contracts t)
added-Within most c contracts t (risk, (slots, (gamma, (fam, exp)))) le
      (committed, (room, (g, (fams, exps)))) =
    let p : OpenPosition = open_position c contracts in
    (
      λ k rich. rw (single (max_loss_of c) contracts most le k) (risk rich),
      (
        λ k. omega (arith, length-append t.positions (p ∷ []), slots k),
        (
          rw (total_from-last (λ q. q.gamma) p (pos 0) t.positions) gamma,
          (
            last-AtMostEach t.limits.max_family_positions (λ q. q.family) p t.positions fam fams,
            last-AtMostEach t.limits.max_expiration_positions (λ q. q.expiration) p t.positions exp
                exps,
          ),
        ),
      ),
    )

step-Within : {s t : PortfolioTracker} (most : ℤ) → most ⊢ s ⟶ t → Within most s → Within most t
unfolding check record_trade close_positions record_realized_pnl
step-Within most (looked c session {t}) h = maybe_reset-Within most session t h
step-Within most (traded c session n {t} passed le) h =
    let t' : PortfolioTracker = maybe_reset session t in
    rw (maybe_reset-twice session t) (
      added-Within most c n t' ((vetoes_in-Fits c t').0 passed) le
        (maybe_reset-Within most session t h))
step-Within most (closed {t}) h =
    emptied-Within most t t.session t.daily_committed_loss t.daily_realized_pnl h.0
step-Within most (realized pnl session {t}) h = maybe_reset-Within most session t h

-- However a tracker is used, with every trade checked first, it stays within the limits on positions,
-- gamma, families and expirations that are set, and where all trades are of single contracts also
-- within the daily limit on the committed loss.
pub steps-Within :
    (most : ℤ) {s t : PortfolioTracker} → most ⊢ s ⟶* t → Within most s → Within most t
steps-Within most done h = h
steps-Within most (next r rs) h = steps-Within most rs (step-Within most r h)
