-- ===== src/Guard/Run.antt =====
-- `apply_execution_guard` of src/spy_der/execution/guard.py. Each group of checks is a function that
-- returns what the code appends; the groups are joined in the code's order.
use spy_der.Prelude.{
  String, ◌≡◌, refl, ◌↔◌, Bool, true, false, ◌&&◌, ◌||◌, not, Option, none, some, List, [], ◌∷◌,
  ◌++◌, if◌then◌else◌, leb, find?, any, is_nil, when,
}
use spy_der.Prelude.Int.{ℤ, pos, ltb_ℤ, leb_ℤ, max_ℤ}
use spy_der.Prelude.Float.{Float, zero_f, ltb_f, leb_f, max_f, min_f}
use spy_der.Prelude.Text.{str_eq, is_blank, stripped_upper_is}
use spy_der.Guard.Types.{
  shadow, paper, live, Mode, member, plain, GuardCandidate, GuardLimits, default_limits, Timestamp,
  naive, aware, GuardContext, GuardBlock, Clamp, Detail, GuardDecision,
}

abbrev pub is_trade : String → Bool
is_trade action = stripped_upper_is action "TRADE"

-- Operator and pipeline gates.
unfoldable pub gate_blocks : GuardContext → List GuardBlock
gate_blocks ctx =
    when (not ctx.trading_enabled) GuardBlock.trading_disabled
    ++ (when (not ctx.eligibility_passed) GuardBlock.eligibility_not_passed
        ++ when (not (is_nil ctx.snapshot_vetoes)) GuardBlock.snapshot_hard_veto)

-- `mode in tuple(ExecutionMode)` compares by equality, `mode is ExecutionMode.LIVE` by identity.
abbrev pub known_mode : Mode → Bool
known_mode (member m) = true
known_mode (plain s) = str_eq s "shadow" || (str_eq s "paper" || str_eq s "live")

abbrev pub is_live : Mode → Bool
is_live (member live) = true
is_live (member shadow) = false
is_live (member paper) = false
is_live (plain s) = false

unfoldable pub mode_blocks : GuardLimits → Mode → List GuardBlock
mode_blocks lim m =
    if not (known_mode m)
    then GuardBlock.unknown_mode ∷ []
    else when (is_live m && not lim.allow_live) GuardBlock.live_not_permitted

-- The first eligible candidate of that id.
abbrev pub find_candidate : String → List GuardCandidate → Option GuardCandidate
find_candidate i = find? (λ c. str_eq c.candidate_id i)

-- `candidate`, as the provenance check leaves it.
unfoldable pub selected : GuardContext → Option String → Option GuardCandidate
selected ctx none = none
selected ctx (some i) = if is_blank i then none else find_candidate i ctx.eligible

abbrev pub veto_block : Option GuardCandidate → List GuardBlock
veto_block none = GuardBlock.candidate_not_eligible ∷ []
veto_block (some c) = when c.hard_vetoed GuardBlock.candidate_hard_vetoed

unfoldable pub provenance_blocks : GuardContext → Option String → List GuardBlock
provenance_blocks ctx none = GuardBlock.no_candidate_selected ∷ []
provenance_blocks ctx (some i) =
    if is_blank i
    then GuardBlock.no_candidate_selected ∷ []
    else veto_block (find_candidate i ctx.eligible)

-- Session window.
unfoldable pub session_blocks : GuardLimits → Option Timestamp → List GuardBlock
session_blocks lim none = GuardBlock.missing_timestamp ∷ []
session_blocks lim (some naive) = GuardBlock.naive_timestamp ∷ []
session_blocks lim (some (aware local)) =
    when (not (leb lim.session_open local && leb local lim.session_close))
      GuardBlock.outside_session_window

unfoldable pub position_blocks : GuardLimits → GuardContext → List GuardBlock
position_blocks lim ctx =
    when (leb_ℤ lim.max_open_positions ctx.open_positions) GuardBlock.position_limit

-- `open_families.get(family, 0)`
abbrev pub held : String → List (String × ℤ) → ℤ
held f [] = pos 0
held f ((g, n) ∷ m) = if str_eq g f then n else held f m

abbrev pub exceeds_power : ℤ → Option ℤ → Bool
exceeds_power capital none = false
exceeds_power capital (some power) = ltb_ℤ power capital

-- Economics, read from the eligible candidate and never from the decision.
unfoldable pub economics_blocks :
    GuardLimits → GuardContext → Option GuardCandidate → List GuardBlock
economics_blocks lim ctx none = []
economics_blocks lim ctx (some c) =
    when (ltb_ℤ lim.max_loss_per_trade c.maximum_loss) GuardBlock.max_loss_exceeded
    ++ (when (ltb_ℤ lim.max_capital_per_trade c.capital_required) GuardBlock.capital_exceeded
        ++ (when (exceeds_power c.capital_required ctx.buying_power)
              GuardBlock.insufficient_buying_power
            ++ (when (leb_ℤ lim.max_positions_per_family (held c.family ctx.open_families))
                  GuardBlock.family_concentration
                ++ when (ltb_f c.fill_probability lim.min_fill_probability)
                    GuardBlock.fill_probability_too_low)))

abbrev pub is_stale : GuardLimits → Option Float → Bool
is_stale lim none = false
is_stale lim (some age) = ltb_f lim.max_quote_age_seconds age

unfoldable pub quote_blocks : GuardLimits → GuardContext → List GuardBlock
quote_blocks lim ctx = when (is_stale lim ctx.quote_age_seconds) GuardBlock.quote_stale

-- Size: clamp, never widen.
unfoldable pub clamp_size : GuardLimits → Float → Float
clamp_size lim size = min_f (max_f size zero_f) lim.max_size_scalar

unfoldable pub clamp_contracts : GuardLimits → GuardContext → ℤ
clamp_contracts lim ctx =
    let requested = max_ℤ ctx.requested_contracts (pos 0) in
    if ltb_ℤ lim.max_contracts requested then lim.max_contracts else requested

unfoldable pub size_blocks : GuardLimits → GuardContext → Float → List GuardBlock
size_blocks lim ctx size =
    when (leb_f (clamp_size lim size) zero_f) GuardBlock.size_not_positive
    ++ when (leb_ℤ (clamp_contracts lim ctx) (pos 0)) GuardBlock.contracts_exceeded

unfoldable pub clamps_of : GuardLimits → GuardContext → Float → List Clamp
clamps_of lim ctx size =
    let requested = max_ℤ ctx.requested_contracts (pos 0) in
    when (ltb_f (clamp_size lim size) size) (Clamp.size_scalar size (clamp_size lim size))
    ++ when (ltb_ℤ lim.max_contracts requested) (Clamp.contracts requested lim.max_contracts)

candidate_details : GuardLimits → GuardContext → Option GuardCandidate → List Detail
candidate_details lim ctx none = []
candidate_details lim ctx (some c) =
    when (ltb_ℤ lim.max_loss_per_trade c.maximum_loss) (Detail.maximum_loss c.maximum_loss)
    ++ (when (ltb_ℤ lim.max_capital_per_trade c.capital_required)
          (Detail.capital_required c.capital_required)
        ++ (when (leb_ℤ lim.max_positions_per_family (held c.family ctx.open_families))
              (Detail.family c.family)
            ++ when (ltb_f c.fill_probability lim.min_fill_probability)
                (Detail.fill_probability c.fill_probability)))

session_details : GuardLimits → Option Timestamp → List Detail
session_details lim none = []
session_details lim (some naive) = []
session_details lim (some (aware local)) =
    when (not (leb lim.session_open local && leb local lim.session_close)) (Detail.local_time local)

quote_details : GuardLimits → Option Float → List Detail
quote_details lim none = []
quote_details lim (some age) =
    when (ltb_f lim.max_quote_age_seconds age) (Detail.quote_age_seconds age)

details_of : GuardLimits → GuardContext → Option String → List Detail
details_of lim ctx i =
    when (not (is_nil ctx.snapshot_vetoes)) (Detail.snapshot_vetoes ctx.snapshot_vetoes)
    ++ (session_details lim ctx.now
        ++ (when (leb_ℤ lim.max_open_positions ctx.open_positions)
              (Detail.open_positions ctx.open_positions)
            ++ (candidate_details lim ctx (selected ctx i)
                ++ quote_details lim ctx.quote_age_seconds)))

unfoldable pub all_blocks : GuardLimits → GuardContext → Option String → Float → List GuardBlock
all_blocks lim ctx i size =
    gate_blocks ctx
    ++ (mode_blocks lim ctx.mode
        ++ (provenance_blocks ctx i
            ++ (session_blocks lim ctx.now
                ++ (position_blocks lim ctx
                    ++ (economics_blocks lim ctx (selected ctx i)
                        ++ (quote_blocks lim ctx ++ size_blocks lim ctx size))))))

GuardBlock-discrete : Discrete GuardBlock
GuardBlock-discrete = hlevel

abbrev decided : {A : Type 0} → Dec A → Bool
decided (yes e) = true
decided (no e) = false

unfoldable pub block_eq : GuardBlock → GuardBlock → Bool
unfolding GuardBlock-discrete
block_eq a b = decided (GuardBlock-discrete a b)

decided_iff : {A : Type 0} (d : Dec A) → (decided d ≡ true) ↔ A
decided_iff (yes e) = (λ h. e, λ h. refl)
decided_iff (no e) = (λ h. cc, λ h. absurd (e h))

pub block_eq_iff : (a b : GuardBlock) → (block_eq a b ≡ true) ↔ (a ≡ b)
unfolding block_eq
block_eq_iff a b = decided_iff (GuardBlock-discrete a b)

-- `value in seen`
unfoldable pub block_mem : GuardBlock → List GuardBlock → Bool
block_mem b = any (λ x. block_eq x b)

-- The loop of `_dedupe`: `seen` is the set, what is returned is appended to `out`.
unfoldable pub dedupe_from : List GuardBlock → List GuardBlock → List GuardBlock
dedupe_from seen [] = []
dedupe_from seen (b ∷ bs) =
    let rest = dedupe_from (b ∷ seen) bs in
    let skip = dedupe_from seen bs in if block_mem b seen then skip else b ∷ rest

unfoldable pub dedupe : List GuardBlock → List GuardBlock
unfolding dedupe_from
dedupe = dedupe_from []

abbrev pub limits_or_default : Option GuardLimits → GuardLimits
limits_or_default none = default_limits
limits_or_default (some lim) = lim

-- The verdict on a decision that is no trade.
abstain : String → GuardContext → GuardDecision
abstain action ctx = record {
  approved = true;
  mode = ctx.mode;
  candidate_id = none;
  size_scalar = zero_f;
  contracts = pos 0;
  blocks = [];
  clamps = [];
  details = Detail.action action ∷ [];
}

-- The verdict on a trade.
judge : GuardLimits → GuardContext → Option String → Float → GuardDecision
unfolding details_of session_details candidate_details quote_details
judge lim ctx i size =
    let blocks = all_blocks lim ctx i size in
    let approved = is_nil blocks in
    record {
      approved = approved;
      mode = ctx.mode;
      candidate_id = if approved then i else none;
      size_scalar = if approved then clamp_size lim size else zero_f;
      contracts = if approved then clamp_contracts lim ctx else pos 0;
      blocks = dedupe blocks;
      clamps = clamps_of lim ctx size;
      details = details_of lim ctx i;
    }

unfoldable pub apply_execution_guard :
    String → Option String → Float → GuardContext → Option GuardLimits → GuardDecision
unfolding abstain judge
apply_execution_guard action i size ctx limits =
    if is_trade action then judge (limits_or_default limits) ctx i size else abstain action ctx
