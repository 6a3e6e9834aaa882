-- ===== src/Guard/Tests.antt =====
-- The guard's theorems at a run of src/spy_der/execution/guard.py on one eligible candidate.
use spy_der.Prelude.{
  ℕ, ◌≡◌, refl, ◌↔◌, String, Bool, true, false, Option, none, some, List, [], ◌∷◌, not,
}
use spy_der.Prelude.Int.{pos}
use spy_der.Prelude.Float.{Float, real}
use spy_der.Guard.Types.{
  ExecutionMode, Mode, GuardCandidate, default_limits, limits_error, Timestamp, GuardContext,
  default_context, GuardBlock,
}
use spy_der.Guard.Run.{
  is_trade, gate_blocks, mode_blocks, provenance_blocks, session_blocks, position_blocks,
  economics_blocks, selected, quote_blocks, size_blocks, clamp_size, clamp_contracts, all_blocks,
  block_mem, apply_execution_guard,
}
use spy_der.Guard.Permission.{Permitted, apply_execution_guard-Permitted}
use spy_der.Guard.Exposure.{
  IsFlat, IsBounded, apply_execution_guard-IsFlat, apply_execution_guard-IsBounded,
}
use spy_der.Guard.Checklist.{NoRepeat, apply_execution_guard-blocks, apply_execution_guard-live}

abbrev condor : GuardCandidate
condor = record {
  candidate_id = "c1";
  family = "iron_condor";
  maximum_loss = pos 1000000;
  capital_required = pos 2000000;
  fill_probability = real (pos 8000);
  hard_vetoed = false;
}

abbrev morning : GuardContext
morning = record default_context {
  eligible = condor ∷ [];
  mode = Mode.member ExecutionMode.paper;
  now = some (Timestamp.aware 40000000000);
}

abbrev whole : Float
whole = real (pos 10000)

-- The candidate is not in the pipeline's list.
abbrev unlisted : GuardContext
unlisted = record morning { eligible = [] }

trades : is_trade " trade" ≡ true
unfolding spy_der.Prelude.Text.stripped_upper_is
trades = refl

approves : (apply_execution_guard " trade" (some "c1") whole morning none).approved ≡ true
unfolding apply_execution_guard spy_der.Prelude.Text.stripped_upper_is all_blocks gate_blocks
    mode_blocks provenance_blocks session_blocks position_blocks economics_blocks selected
    quote_blocks size_blocks clamp_size clamp_contracts
approves = refl

apply_execution_guard-Permitted_example : Permitted default_limits morning (some "c1") whole
apply_execution_guard-Permitted_example =
    (apply_execution_guard-Permitted " trade" (some "c1") whole morning none trades).0 approves

blocked_unlisted : (apply_execution_guard "TRADE" (some "c1") whole unlisted none).approved ≡ false
unfolding apply_execution_guard spy_der.Prelude.Text.stripped_upper_is all_blocks gate_blocks
    mode_blocks provenance_blocks
blocked_unlisted = refl

apply_execution_guard-IsFlat_example :
    IsFlat (apply_execution_guard "TRADE" (some "c1") whole unlisted none)
apply_execution_guard-IsFlat_example =
    (apply_execution_guard-IsFlat "TRADE" (some "c1") whole unlisted none).0 blocked_unlisted

defaults_stand : limits_error default_limits ≡ none
unfolding limits_error
defaults_stand = refl

apply_execution_guard-IsBounded_example :
    IsBounded default_limits
      (record morning { requested_contracts = pos 40 })
      (pos 30000)
      (apply_execution_guard "TRADE"
        (some "c1")
        (real (pos 30000))
        (record morning { requested_contracts = pos 40 })
        none)
apply_execution_guard-IsBounded_example =
    apply_execution_guard-IsBounded "TRADE" (some "c1") (pos 30000)
      (record morning { requested_contracts = pos 40 }) none defaults_stand

apply_execution_guard-blocks_example :
    let d = apply_execution_guard " trade" (some "c1") whole unlisted none in
    NoRepeat d.blocks
    × ((b : GuardBlock)
        → block_mem b d.blocks ≡ block_mem b (all_blocks default_limits unlisted (some "c1") whole))
    × ((d.approved ≡ true) ↔ (d.blocks ≡ []))
apply_execution_guard-blocks_example =
    apply_execution_guard-blocks " trade" (some "c1") whole unlisted none trades

apply_execution_guard-live_example :
    (apply_execution_guard " trade"
      (some "c1")
      whole
      (record morning { mode = Mode.member ExecutionMode.live })
      none).approved
    ≡ false
apply_execution_guard-live_example =
    (apply_execution_guard-live " trade" (some "c1") whole morning none trades).0 refl
