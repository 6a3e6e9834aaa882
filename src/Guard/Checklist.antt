-- ===== src/Guard/Checklist.antt =====
-- The reasons that the guard reports, and the two ways in which a mode can say "live".
use spy_der.Prelude.{
  String, ◌≡◌, refl, ◌↔◌, true, false, Option, none, some, List, [], ◌∷◌, arith, not, ◌&&◌,
  if◌then◌else◌, Bool-cases, is_nil, inl, inr, ap,
}
use spy_der.Prelude.Float.{Float}
use spy_der.Prelude.Text.{is_blank}
use spy_der.Guard.Permission.{apply_execution_guard-Permitted}
use spy_der.Guard.Types.{
  live, paper, Mode, member, GuardCandidate, plain, GuardLimits, GuardContext, GuardBlock,
}
use spy_der.Guard.Run.{
  is_trade, gate_blocks, mode_blocks, provenance_blocks, selected, find_candidate, position_blocks,
  economics_blocks, quote_blocks, size_blocks, clamp_contracts, all_blocks, block_eq, block_eq_iff,
  block_mem, dedupe_from, dedupe, limits_or_default, apply_execution_guard,
}

block_mem-dedupe_from :
    (b : GuardBlock) (seen xs : List GuardBlock)
    → block_mem b (dedupe_from seen xs) ≡ (not (block_mem b seen) && block_mem b xs)
unfolding dedupe_from block_mem
block_mem-dedupe_from b seen [] = ground arith
block_mem-dedupe_from b seen (x ∷ xs) = elim (Bool-cases (block_eq x b)) [
  | inl e ↦
      let same : x ≡ b = (block_eq_iff x b).0 e in
      ground (
        arith,
        block_mem-dedupe_from b seen xs,
        block_mem-dedupe_from b (x ∷ seen) xs,
        ap (λ y. block_mem y seen) same,
      )
  | inr e ↦ ground (arith, block_mem-dedupe_from b seen xs, block_mem-dedupe_from b (x ∷ seen) xs)
]

abbrev pub NoRepeat : List GuardBlock → Type 0
NoRepeat [] = Unit
NoRepeat (x ∷ xs) = (block_mem x xs ≡ false) × NoRepeat xs

dedupe_from-NoRepeat : (seen xs : List GuardBlock) → NoRepeat (dedupe_from seen xs)
unfolding dedupe_from
dedupe_from-NoRepeat seen [] = tt
dedupe_from-NoRepeat seen (x ∷ xs) = elim (Bool-cases (block_mem x seen)) [
  | inl e ↦ rw e (dedupe_from-NoRepeat seen xs)
  | inr e ↦ rw e (
    rw (block_mem-dedupe_from x (x ∷ seen) xs)
        (unfold block_mem in ground (arith, block_eq_iff x x)),
    dedupe_from-NoRepeat (x ∷ seen) xs,
  )
]

nil-dedupe : (xs : List GuardBlock) → (is_nil xs ≡ true) ↔ (dedupe_from [] xs ≡ [])
unfolding dedupe_from block_mem
nil-dedupe [] = (λ h. refl, λ h. refl)
nil-dedupe (x ∷ xs) = (λ h. cc, λ h. cc)

-- The verdict on a trade lists no reason twice, lists exactly the reasons that its checks raised, and
-- is an approval exactly when it lists none.
pub apply_execution_guard-blocks :
    (action : String) (i : Option String) (size : Float) (ctx : GuardContext)
    (limits : Option GuardLimits)
    → is_trade action ≡ true
    → let d = apply_execution_guard action i size ctx limits in
      NoRepeat d.blocks
      × ((b : GuardBlock)
          → block_mem b d.blocks ≡ block_mem b (all_blocks (limits_or_default limits) ctx i size))
      × ((d.approved ≡ true) ↔ (d.blocks ≡ []))
unfolding apply_execution_guard dedupe block_mem
apply_execution_guard-blocks action i size ctx limits h = rw h (
  dedupe_from-NoRepeat [] (all_blocks (limits_or_default limits) ctx i size),
  λ b. block_mem-dedupe_from b [] (all_blocks (limits_or_default limits) ctx i size),
  nil-dedupe (all_blocks (limits_or_default limits) ctx i size),
)

module _ (lim : GuardLimits) (ctx : GuardContext) (m n : Mode) where
  economics_blocks-mode :
      (c : Option GuardCandidate)
      → economics_blocks lim (record ctx { mode = m }) c
        ≡ economics_blocks lim (record ctx { mode = n }) c
  unfolding economics_blocks
  economics_blocks-mode none = refl
  economics_blocks-mode (some c) = refl

  -- The mode enters through its own check alone.
  all_blocks-mode :
      (i : Option String) (size : Float)
      → mode_blocks lim m ≡ mode_blocks lim n
      → all_blocks lim (record ctx { mode = m }) i size
        ≡ all_blocks lim (record ctx { mode = n }) i size
  unfolding all_blocks gate_blocks position_blocks quote_blocks size_blocks clamp_contracts
      provenance_blocks selected
  all_blocks-mode none size e = rw (e, economics_blocks-mode none)
  all_blocks-mode (some name) size e =
      rw (
        e,
        economics_blocks-mode (if is_blank name then none else find_candidate name ctx.eligible),
      )

-- A live route is refused unless the limits allow it, when the mode is the enumeration's member. A
-- mode that is the plain text "live" is a known mode, and is judged as paper trading is.
pub apply_execution_guard-live :
    (action : String) (i : Option String) (size : Float) (ctx : GuardContext)
    (limits : Option GuardLimits)
    → is_trade action ≡ true
    → let run = λ (c : GuardContext). (apply_execution_guard action i size c limits).approved in
      ((limits_or_default limits).allow_live ≡ false
        → run (record ctx { mode = member live }) ≡ false)
      × (run (record ctx { mode = plain "live" }) ≡ run (record ctx { mode = member paper }))
unfolding apply_execution_guard mode_blocks
apply_execution_guard-live action i size ctx limits h =
    let c : GuardContext = record ctx { mode = member live } in
    let lim : GuardLimits = limits_or_default limits in
    let allowed : (apply_execution_guard action i size c limits).approved ≡ true
        → lim.allow_live ≡ true =
      λ e. ((apply_execution_guard-Permitted action i size c limits h).0 e).live_allowed refl in
    (
      λ closed. elim (Bool-cases (apply_execution_guard action i size c limits).approved) [
        | inl yes' ↦ cc (allowed yes', closed)
        | inr no' ↦ no'
      ],
      rw (h, all_blocks-mode lim ctx (plain "live") (member paper) i size refl),
    )
