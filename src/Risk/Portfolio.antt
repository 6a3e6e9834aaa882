-- ===== src/Risk/Portfolio.antt =====
-- `PortfolioTracker` of src/spy_der/risk/portfolio.py, check by check. The rendered details of the
-- vetoes are left out, and a realized result is on the money grid.
pub mod Counts
pub mod Limits
pub mod Agreement
use spy_der.Prelude.{
  ℕ, suc, ◌+◌, String, Bool, false, not, ◌&&◌, Option, none, some, List, [], ◌∷◌, ◌++◌,
  if◌then◌else◌, ltb, leb, when, is_nil, length, max, map,
}
use spy_der.Prelude.Int.{ℤ, pos, ◌+ℤ◌, ◌*ℤ◌, ltb_ℤ, pos_part}
use spy_der.Prelude.Text.{precedes, is_blank, str_eq}
use spy_der.Prelude.Dict.{Dict, lookup, insert}
use spy_der.Risk.Contracts.{PortfolioState, RiskLimits, is_valid_portfolio}
use spy_der.Risk.Envelope.{abs_ℤ}
use spy_der.Risk.Checks.{RiskCandidate, max_loss_of}

pub record OpenPosition : Type 0 where
  pub candidate_id : String
  pub family : String
  pub expiration : String
  pub max_loss : ℤ
  pub gamma : ℤ
  pub delta : ℤ
  pub geometry_hash : String
  pub contracts : ℕ

pub record PortfolioTracker : Type 0 where
  pub limits : RiskLimits
  pub session : String
  pub positions : List OpenPosition
  pub daily_committed_loss : ℤ
  pub daily_realized_pnl : ℤ

pub data TrackerVeto : Type 0 where
  daily_loss max_positions max_gamma family_concentration expiration_concentration : TrackerVeto

-- `sum((f(p) for p in positions), Decimal("0"))`
unfoldable pub total_from : ℤ → (OpenPosition → ℤ) → List OpenPosition → ℤ
total_from z f [] = z
total_from z f (p ∷ ps) = total_from (z +ℤ f p) f ps

abbrev pub total : (OpenPosition → ℤ) → List OpenPosition → ℤ
total f ps = total_from (pos 0) f ps

-- `sum(1 for p in positions if f(p) == k)`
unfoldable pub count_where : (OpenPosition → String) → String → List OpenPosition → ℕ
count_where f k [] = 0
count_where f k (p ∷ ps) = if str_eq (f p) k then suc (count_where f k ps) else count_where f k ps

unfoldable pub maybe_reset : String → PortfolioTracker → PortfolioTracker
maybe_reset session t = if str_eq session t.session then t else record t {
  session = session;
  positions = [];
  daily_committed_loss = pos 0;
  daily_realized_pnl = pos 0;
}

-- `limit is not None and limit > 0`
abbrev pub above_gamma : Option ℤ → ℤ → Bool
above_gamma none g = false
above_gamma (some m) g = ltb_ℤ (pos 0) m && ltb_ℤ m g

abbrev pub crowded : ℕ → String → ℕ → Bool
crowded limit k n = ltb 0 limit && not (is_blank k) && ltb limit (n + 1)

unfoldable pub vetoes_in : RiskCandidate → PortfolioTracker → List TrackerVeto
vetoes_in c t =
    let l = t.limits in
    when
      (ltb_ℤ (pos 0) l.max_daily_loss
        && ltb_ℤ l.max_daily_loss (t.daily_committed_loss +ℤ max_loss_of c))
      daily_loss
    ++ (when (ltb 0 l.max_positions && leb l.max_positions (length t.positions)) max_positions
        ++ (when (above_gamma l.gamma_limit (total (λ p. p.gamma) t.positions +ℤ abs_ℤ c.gamma))
              max_gamma
            ++ (when
                  (crowded l.max_family_positions c.family
                    (count_where (λ p. p.family) c.family t.positions))
                  family_concentration
                ++ when
                    (crowded l.max_expiration_positions c.expiration
                      (count_where (λ p. p.expiration) c.expiration t.positions))
                    expiration_concentration)))

-- The answer and the vetoes, and the tracker, which a new session resets.
unfoldable pub check :
    RiskCandidate → String → PortfolioTracker → Bool × List TrackerVeto × PortfolioTracker
unfolding maybe_reset vetoes_in
check c session t = let t' = maybe_reset session t in (is_nil (vetoes_in c t'), vetoes_in c t', t')

-- `max(1, int(contracts))`
abbrev pub open_position : RiskCandidate → ℤ → OpenPosition
open_position c contracts = record {
  candidate_id = c.candidate_id;
  family = c.family;
  expiration = c.expiration;
  max_loss = max_loss_of c;
  gamma = abs_ℤ c.gamma;
  delta = c.delta;
  geometry_hash = c.geometry_hash;
  contracts = max 1 (pos_part contracts);
}

unfoldable pub record_trade : RiskCandidate → String → ℤ → PortfolioTracker → PortfolioTracker
unfolding maybe_reset
record_trade c session contracts t =
    let t' = maybe_reset session t in
    let p = open_position c contracts in
    record t' {
      positions = t'.positions ++ (p ∷ []);
      daily_committed_loss = t'.daily_committed_loss +ℤ max_loss_of c *ℤ pos p.contracts;
    }

unfoldable pub close_positions : PortfolioTracker → PortfolioTracker
close_positions t = record t { positions = [] }

unfoldable pub record_realized_pnl : ℤ → String → PortfolioTracker → PortfolioTracker
unfolding maybe_reset
record_realized_pnl pnl session t =
    let t' = maybe_reset session t in
    record t' { daily_realized_pnl = t'.daily_realized_pnl +ℤ pnl }

-- `counts[k] = counts.get(k, 0) + 1` for the positions with a key.
abbrev pub one_more : String → Dict ℕ → Dict ℕ
one_more k d =
    if is_blank k then d else insert k (suc (elim (lookup k d) [ none ↦ 0 | some n ↦ n ])) d

unfoldable pub counts_from : (OpenPosition → String) → Dict ℕ → List OpenPosition → Dict ℕ
counts_from f d [] = d
counts_from f d (p ∷ ps) = counts_from f (one_more (f p) d) ps

unfoldable pub sort_in : String × ℕ → List (String × ℕ) → List (String × ℕ)
sort_in e [] = e ∷ []
sort_in (k, v) ((j, w) ∷ es) =
    if precedes k j then (k, v) ∷ (j, w) ∷ es else (j, w) ∷ sort_in (k, v) es

-- `sorted(counts.items())`; the keys of a dict differ.
unfoldable pub sorted : Dict ℕ → List (String × ℕ)
unfolding sort_in
sorted [] = []
sorted (e ∷ es) = sort_in e (sorted es)

abbrev pub texts : List String → List String
texts [] = []
texts (s ∷ ss) = if is_blank s then texts ss else s ∷ texts ss

-- The fields of the exported state, whose id is over the hash of the account, the session, the open
-- candidates and the committed loss.
abbrev pub state_fields :
    (String → String → List String → ℤ → String)
    → String
    → ℤ
    → ℤ
    → PortfolioTracker
    → PortfolioState
state_fields content_hash account_id equity cash t = record {
  account_id = account_id;
  equity = equity;
  cash = cash;
  open_positions = length t.positions;
  daily_realized_pnl = t.daily_realized_pnl;
  open_risk_dollars = t.daily_committed_loss;
  portfolio_gamma = total (λ p. p.gamma) t.positions;
  portfolio_delta = total (λ p. p.delta) t.positions;
  family_counts = sorted (counts_from (λ p. p.family) [] t.positions);
  expiration_counts = sorted (counts_from (λ p. p.expiration) [] t.positions);
  open_geometry_hashes = texts (map (λ p. p.geometry_hash) t.positions);
  open_candidate_ids = texts (map (λ p. p.candidate_id) t.positions);
  state_id =
      content_hash account_id t.session (map (λ p. p.candidate_id) t.positions)
        t.daily_committed_loss;
}

-- None where the constructor of the state raises.
unfoldable pub to_portfolio_state :
    (String → String → List String → ℤ → String)
    → String
    → ℤ
    → ℤ
    → PortfolioTracker
    → Option PortfolioState
to_portfolio_state content_hash account_id equity cash t =
    let state = state_fields content_hash account_id equity cash t in
    if is_valid_portfolio state then some state else none
