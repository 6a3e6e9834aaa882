-- ===== src/Positions/Status.antt =====
-- The position state machine, src/spy_der/positions/state_machine.py: the table of allowed transitions.
use spy_der.Prelude.{ℕ, ◌<◌, ◌≡◌, refl, ◌↔◌, ◌⊎◌, Bool, true, false, List, [], ◌∷◌, arith, any, eqb}
use spy_der.Prelude.Effects.{Action, require}
use spy_der.Execution.Contracts.{
  PositionStatus, pending_open, open_position, partially_reduced, close_pending, closed,
  expired_position, settled, reconciliation_error, closing, Fault, position_transition,
}

-- `_ALLOWED`
unfoldable pub allowed : PositionStatus → List PositionStatus
allowed pending_open = open_position ∷ closed ∷ reconciliation_error ∷ []
allowed open_position =
    partially_reduced ∷ close_pending ∷ closing ∷ closed ∷ expired_position ∷ reconciliation_error
    ∷ []
allowed partially_reduced =
    partially_reduced ∷ close_pending ∷ closing ∷ closed ∷ expired_position ∷ reconciliation_error
    ∷ []
allowed close_pending =
    open_position ∷ partially_reduced ∷ closed ∷ expired_position ∷ reconciliation_error ∷ []
allowed closing = closed ∷ reconciliation_error ∷ []
allowed closed = settled ∷ reconciliation_error ∷ []
allowed expired_position = settled ∷ reconciliation_error ∷ []
allowed settled = []
allowed reconciliation_error = []

-- The place of a member in its enumeration.
unfoldable pub place : PositionStatus → ℕ
place pending_open = 0
place open_position = 1
place partially_reduced = 2
place close_pending = 3
place closed = 4
place expired_position = 5
place settled = 6
place reconciliation_error = 7
place closing = 8

abbrev pub same_position_status : PositionStatus → PositionStatus → Bool
same_position_status a b = eqb (place a) (place b)

-- `nxt in allowed`
unfoldable pub can_move : PositionStatus → PositionStatus → Bool
can_move current nxt = any (λ s. same_position_status s nxt) (allowed current)

unfoldable pub validate_position_transition :
    {S : Type 0} → PositionStatus → PositionStatus → Action Fault S (Unit {0})
validate_position_transition current nxt =
    require (can_move current nxt) (position_transition current nxt)

unfoldable pub is_terminal_position : PositionStatus → Bool
is_terminal_position settled = true
is_terminal_position reconciliation_error = true
is_terminal_position _ = false

-- How far a position has come. Three states share the stage in which it holds contracts.
abbrev pub phase : PositionStatus → ℕ
phase pending_open = 0
phase open_position = 1
phase partially_reduced = 1
phase close_pending = 1
phase closing = 2
phase closed = 3
phase expired_position = 3
phase settled = 4
phase reconciliation_error = 4

-- A state is terminal exactly when the table allows no transition out of it, and a transition never
-- lowers the phase: it raises it, or both states hold contracts.
pub is_terminal_position-can_move :
    (s : PositionStatus)
    → ((is_terminal_position s ≡ true) ↔ ((t : PositionStatus) → can_move s t ≡ false))
      × ((t : PositionStatus)
          → can_move s t ≡ true
          → (phase s < phase t) ⊎ ((phase s ≡ 1) × (phase t ≡ 1)))
unfolding is_terminal_position can_move allowed place
is_terminal_position-can_move s = (split s, λ t h. climb s t h)
  where
    split :
        (s : PositionStatus)
        → (is_terminal_position s ≡ true) ↔ ((t : PositionStatus) → can_move s t ≡ false)
    split settled = (λ h t. refl, λ h. refl)
    split reconciliation_error = (λ h t. refl, λ h. refl)
    split pending_open = (λ h t. cc, λ h. cc (h closed))
    split open_position = (λ h t. cc, λ h. cc (h closed))
    split partially_reduced = (λ h t. cc, λ h. cc (h closed))
    split close_pending = (λ h t. cc, λ h. cc (h closed))
    split closing = (λ h t. cc, λ h. cc (h closed))
    split closed = (λ h t. cc, λ h. cc (h settled))
    split expired_position = (λ h t. cc, λ h. cc (h settled))

    climb :
        (s t : PositionStatus)
        → can_move s t ≡ true
        → (phase s < phase t) ⊎ ((phase s ≡ 1) × (phase t ≡ 1))
    climb pending_open t h = ground arith
    climb _ t h = ground arith
