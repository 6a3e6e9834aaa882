-- ===== src/Execution/Status.antt =====
-- The order state machine, src/spy_der/execution/state_machine.py: the table of allowed transitions.
use spy_der.Prelude.{
  ◌≡◌, refl, ◌↔◌, ◌⊎◌, Bool, true, false, List, [], ◌∷◌, arith, any, eqb, ℕ, ◌<◌, ◌≤◌,
}
use spy_der.Execution.Contracts.{
  OrderStatus, created, validated, submitted_simulated, acknowledged, partially_filled, filled,
  cancel_pending, canceled, rejected, expired, error, routed, Fault, order_transition,
}
use spy_der.Prelude.Effects.{Action, require}

-- `_ALLOWED`
unfoldable pub allowed : OrderStatus → List OrderStatus
allowed created = validated ∷ rejected ∷ error ∷ routed ∷ canceled ∷ []
allowed validated = submitted_simulated ∷ rejected ∷ expired ∷ error ∷ routed ∷ []
allowed submitted_simulated = acknowledged ∷ rejected ∷ cancel_pending ∷ expired ∷ error ∷ []
allowed routed =
    acknowledged ∷ partially_filled ∷ filled ∷ canceled ∷ rejected ∷ cancel_pending ∷ expired
    ∷ error ∷ []
allowed acknowledged = partially_filled ∷ filled ∷ cancel_pending ∷ rejected ∷ expired ∷ error ∷ []
allowed partially_filled =
    partially_filled ∷ filled ∷ cancel_pending ∷ expired ∷ error ∷ canceled ∷ []
allowed cancel_pending = canceled ∷ partially_filled ∷ filled ∷ error ∷ []
allowed filled = []
allowed canceled = []
allowed rejected = []
allowed expired = []
allowed error = []

-- The place of a member in its enumeration; members are equal when their places are.
unfoldable pub place : OrderStatus → ℕ
place created = 0
place validated = 1
place submitted_simulated = 2
place acknowledged = 3
place partially_filled = 4
place filled = 5
place cancel_pending = 6
place canceled = 7
place rejected = 8
place expired = 9
place error = 10
place routed = 11

abbrev pub same_status : OrderStatus → OrderStatus → Bool
same_status a b = eqb (place a) (place b)

place_injective : (a b : OrderStatus) → place a ≡ place b → a ≡ b
unfolding place
place_injective a b h = ground arith

pub same_status_iff : (a b : OrderStatus) → (same_status a b ≡ true) ↔ (a ≡ b)
same_status_iff a b = (λ h. place_injective a b (ground arith), λ h. ground arith)

-- `nxt in allowed`
unfoldable pub can_transition : OrderStatus → OrderStatus → Bool
can_transition current nxt = any (λ s. same_status s nxt) (allowed current)

unfoldable pub validate_order_transition :
    {S : Type 0} → OrderStatus → OrderStatus → Action Fault S (Unit {0})
validate_order_transition current nxt =
    require (can_transition current nxt) (order_transition current nxt)

unfoldable pub is_terminal_order : OrderStatus → Bool
is_terminal_order filled = true
is_terminal_order canceled = true
is_terminal_order rejected = true
is_terminal_order expired = true
is_terminal_order error = true
is_terminal_order _ = false

-- How far an order has come. Only the two states in which fills and a cancel cross share a stage.
abbrev pub stage : OrderStatus → ℕ
stage created = 0
stage validated = 1
stage submitted_simulated = 2
stage routed = 2
stage acknowledged = 3
stage partially_filled = 4
stage cancel_pending = 4
stage _ = 5

-- One transition that the table allows, and any number of them.
abbrev pub Allows : OrderStatus → OrderStatus → Type 0
Allows s t = can_transition s t ≡ true

infix 40 ◌⟶*◌
pub data ◌⟶*◌ (s : OrderStatus) : OrderStatus → Type 0 where
  here : s ⟶* s
  next : {t u : OrderStatus} → s ⟶* t → Allows t u → s ⟶* u

stage-Allows :
    (s t : OrderStatus) → Allows s t → (stage s < stage t) ⊎ ((stage s ≡ 4) × (stage t ≡ 4))
unfolding can_transition allowed place
stage-Allows created t h = ground arith
stage-Allows _ t h = ground arith

-- A state is terminal exactly when the table allows no transition out of it, and from every other
-- state the table allows the transition to the error state.
pub is_terminal_order-Allows :
    (s : OrderStatus)
    → ((is_terminal_order s ≡ true) ↔ ((t : OrderStatus) → ¬ (Allows s t)))
      × (is_terminal_order s ≡ false → Allows s error)
unfolding is_terminal_order can_transition allowed place
is_terminal_order-Allows created = ((λ h t. cc, λ h. absurd (h error refl)), λ h. refl)
is_terminal_order-Allows validated = ((λ h t. cc, λ h. absurd (h error refl)), λ h. refl)
is_terminal_order-Allows submitted_simulated = ((λ h t. cc, λ h. absurd (h error refl)), λ h. refl)
is_terminal_order-Allows acknowledged = ((λ h t. cc, λ h. absurd (h error refl)), λ h. refl)
is_terminal_order-Allows partially_filled = ((λ h t. cc, λ h. absurd (h error refl)), λ h. refl)
is_terminal_order-Allows cancel_pending = ((λ h t. cc, λ h. absurd (h error refl)), λ h. refl)
is_terminal_order-Allows routed = ((λ h t. cc, λ h. absurd (h error refl)), λ h. refl)
is_terminal_order-Allows filled = ((λ h t e. cc, λ h. refl), λ h. cc)
is_terminal_order-Allows canceled = ((λ h t e. cc, λ h. refl), λ h. cc)
is_terminal_order-Allows rejected = ((λ h t e. cc, λ h. refl), λ h. cc)
is_terminal_order-Allows expired = ((λ h t e. cc, λ h. refl), λ h. cc)
is_terminal_order-Allows error = ((λ h t e. cc, λ h. refl), λ h. cc)

pub ⟶*-trans : {s t u : OrderStatus} → s ⟶* t → t ⟶* u → s ⟶* u
⟶*-trans r here = r
⟶*-trans r (next q a) = next (⟶*-trans r q) a

-- Along any number of allowed transitions an order's stage never falls, and an order in a terminal
-- state stays there.
pub ⟶*-stage :
    {s t : OrderStatus} → s ⟶* t → (stage s ≤ stage t) × (is_terminal_order s ≡ true → t ≡ s)
⟶*-stage here = (omega arith, λ h. refl)
⟶*-stage {s} (next {t} {u} r a) =
    let (low, stay) = ⟶*-stage r in
    (
      ground (arith, stage-Allows t u a),
      λ h. absurd ((is_terminal_order-Allows t).0.0 (rw (stay h) h) u a),
    )
